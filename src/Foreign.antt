-- ===== src/Foreign.antt =====
-- Foreign keys: butane_core/src/fkey.rs and butane_core/src/util.rs.
pub mod Types
pub mod Laws
