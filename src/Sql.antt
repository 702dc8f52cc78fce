-- ===== src/Sql.antt =====
-- The SQL text that every backend shares (butane_core/src/db/helper.rs).
pub mod Writer
pub mod Expr
pub mod Params
pub mod Grouping
pub mod Statements
pub mod Literals
pub mod Defaults
