-- ===== src/Sqlite.antt =====
-- The SQLite backend (butane_core/src/db/sqlite.rs): the text of schema changes and of statements.
pub mod Columns
pub mod Schema
pub mod Statements
pub mod Tracking
pub mod Values
pub mod Transaction
