-- ===== src/Pg.antt =====
-- The Postgres backend (butane_core/src/db/pg.rs): the text of schema changes and of statements.
pub mod Columns
pub mod Changes
pub mod Statements
