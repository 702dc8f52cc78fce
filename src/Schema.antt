-- ===== src/Schema.antt =====
-- The abstract schema of a database (butane_core/src/migrations/adb.rs): its data, its operations,
-- the difference of two schemas, and the proof that applying the difference reaches the new one.
pub mod Keys
pub mod KeyTexts
pub mod Types
pub mod Table
pub mod Operations
pub mod Equality
pub mod Diff
pub mod Resolve
