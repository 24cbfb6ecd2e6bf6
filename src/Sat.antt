-- ===== src/Sat.antt =====
-- The sat crate (crates/sat/src): findings, their classification, and what is done with them.
pub mod Types
pub mod Rules
pub mod Watch
pub mod Baseline
pub mod Config
pub mod Hunt
pub mod Calibrate
pub mod Idl
pub mod Json
pub mod Native
pub mod TxReport
pub mod Cpi
pub mod Pda
pub mod Sarif
pub mod Accounting
pub mod Anchor
mod Examples
mod Instances
mod Locations
mod ChainRuns
mod AnchorRuns
