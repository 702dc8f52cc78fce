-- ===== src/Many.antt =====
-- Many-to-many relations: butane_core/src/many.rs.
pub mod Types
pub mod Links
