-- ===== src/Migrations.antt =====
-- Series of migrations: butane_core/src/migrations/mod.rs, migration.rs and memmigrations.rs.
pub mod Types
pub mod Database
pub mod Series
pub mod Run
pub mod Chain
pub mod Edit
pub mod Create
pub mod Created
pub mod Texts
pub mod Unmodified
pub mod Replaced
pub mod Saved
pub mod Listing
pub mod Pending
pub mod Runs
pub mod Applied
