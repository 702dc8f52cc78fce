-- ===== src/Object.antt =====
-- Saving objects: butane_core/src/lib.rs and butane_core/src/autopk.rs.
pub mod Keys
pub mod Save
pub mod Laws
