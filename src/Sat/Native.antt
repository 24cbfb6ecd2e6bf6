-- ===== src/Sat/Native.antt =====
-- crates/sat/src/native: the back end for programs without Anchor, as far as it works on the resolved
-- model and not on syntax trees.
pub mod Model
pub mod Kinds
pub mod Resolver
pub mod Validate
pub mod Source
pub mod Expectations
pub mod Callees
pub mod Labels
