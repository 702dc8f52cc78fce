-- ===== src/Query.antt =====
-- Queries (butane_core/src/query/mod.rs, butane_core/src/query/fieldexpr.rs): expressions, the
-- builders of queries and of conditions on fields, and queries that are run.
pub mod Types
pub mod Build
pub mod Load
pub mod Get
