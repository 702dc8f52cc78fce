-- ===== src/Schema/Resolve.antt =====
-- `ADB::resolve_types` of butane_core/src/migrations/adb.rs: the types of columns that are not known
-- yet are found from the keys of the tables that they refer to and from the declared types.
pub mod Resolver
pub mod Rounds
pub mod Weight
pub mod Lighter
pub mod Ends
pub mod Verified
pub mod Fixed
pub mod Denotes
pub mod Sound
