-- ===== src/Files.antt =====
-- Migrations on a file system: butane_core/src/migrations/fsmigrations.rs.
pub mod Types
pub mod Folder
pub mod Series
pub mod Schema
pub mod Chain
pub mod Edits
pub mod Kept
pub mod Listed
pub mod Texts
pub mod Bases
pub mod Created
pub mod Extended
