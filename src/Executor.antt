-- ===== src/Executor.antt =====
-- src/executor: the scans, the joins, the plans and the statements.
pub mod Scan
pub mod Rows
pub mod HashJoin
pub mod Database
pub mod Insert
pub mod Filter
pub mod Select
pub mod Parsed
pub mod Session
pub mod Script
pub mod Optimizer
mod Samples
mod Tests
