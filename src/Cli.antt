-- ===== src/Cli.antt =====
-- The commands of butane_cli/src/lib.rs.
pub mod Types
pub mod Migrate
pub mod Lists
pub mod Rollback
pub mod Forward
pub mod Embed
pub mod Edit
pub mod Connected
pub mod Collapsed
pub mod Rewrites
pub mod Backends
pub mod Added
