-- ===== src/Model.antt =====
-- The rows that the services read and write, one record for each table, and the database.
pub mod Status
pub mod Template
pub mod Submission
pub mod Transform
pub mod Product
pub mod Verification
pub mod Baseline
pub mod Policy
pub mod Db
