-- ===== src/Parity.antt =====
-- The parity crate (crates/parity/src): scenarios, the lending reference model and the
-- differential engine.
pub mod Scenario
pub mod Invariants
pub mod Model
pub mod Engine
pub mod Compare
pub mod Trace
pub mod Candidates
mod Examples
