-- ===== src/Sat/TxReport.antt =====
-- crates/sat/src/tx_report.rs: a transaction report against the declared accounts. Reading the file
-- and parsing the JSON are parameters; the analyzer's account structs are those of analyzer.rs.
pub mod Types
pub mod Anchor
pub mod Native
pub mod Quiet
pub mod Names
pub mod Stands
pub mod Found
