-- ===== src/Db.antt =====
-- The database: tables and rows (migrations/), statements, and the monad of the Go code.
pub mod Rows
pub mod Schema
pub mod Go
pub mod Driver
pub mod Keeps
pub mod Ensures
pub mod Atomic
pub mod Provision
pub mod RowLaws
pub mod Stored
