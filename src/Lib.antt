-- ===== src/Lib.antt =====
-- butane is an object-relational mapper: it keeps an abstract description of the database schema,
-- computes the operations between two versions of it (migrations), and writes SQL for SQLite and
-- Postgres. This library models the parts of it that compute, and proves what they promise.
--
-- The parts, and the files that model them (paths from the root of the repository):
--
--   * Value: `SqlType`, `SqlVal` and errors (butane_core/src/sqlval.rs, butane_core/src/lib.rs).
--     Code of other crates is the record `Externals`: JSON values, dates, custom Postgres types, the
--     text of floats and blobs, letter case, the keyword table, and the messages of failures. Every
--     definition takes it as a parameter. What is assumed of it is that equality of JSON, dates and
--     custom types is reflexive; nothing else.
--     Value/Refs is `SqlValRef`, and Value/Convert the conversions of field types, where `as` wraps.
--   * Map and Names: `BTreeMap` and `BTreeSet<&String>` as association lists and lists of keys. Names
--     keep the order of strings, which the order of operations depends on.
--   * Schema: butane_core/src/migrations/adb.rs. Schema/Keys and Schema/Types hold the data (`TypeKey`,
--     `DeferredSqlType`, `AColumn`, `ATable`, `ADB`, `Operation`), Schema/Table the methods of a table,
--     Schema/Operations `ADB::transform_with`, Schema/Equality the derived and written `PartialEq`s, and
--     Schema/Diff `diff` and `diff_table`. A failed `unwrap` or `expect` is `none`. Schema/KeyTexts is
--     the text of a `TypeKey`, and Schema/Resolve is `ADB::resolve_types` with its `TypeResolver`, built
--     with the feature `json`. The `while changed` loop runs on fuel, a unit for each round. A round that
--     changes something learns a key, a column or a declared type, so one round more than the tables,
--     their columns and twice the declared types is enough.
--   * Query: butane_core/src/query/mod.rs and butane_core/src/query/fieldexpr.rs, the expressions and
--     the builder, with the queries that are run (Query/Load, Query/Get).
--   * Sql: butane_core/src/db/helper.rs. A writer, the values pushed beside it and the placeholder
--     source are the record `Out`, which each function takes and returns. `sql_for_expr` is tied to
--     itself as both backends tie it.
--   * Sqlite: butane_core/src/db/sqlite.rs, and Pg: butane_core/src/db/pg.rs, the SQL of every schema
--     operation, with the schema that is carried along, and the SQL and bound values of each statement.
--     Sqlite/Values is how values are stored and read, with the values of rusqlite as a record, and
--     Sqlite/Transaction the transaction that a commit or rollback takes.
--   * Migrations: butane_core/src/migrations/mod.rs, butane_core/src/migrations/migration.rs and
--     butane_core/src/migrations/memmigrations.rs. Migrations/Types holds `MemMigration` and
--     `MemMigrations`, Migrations/Series the loops along a series, Migrations/Run `apply`, `downgrade`,
--     `migrate` and `unmigrate`, Migrations/Edit the edits of a migration that resolve types, with
--     `copy_migration`, and Migrations/Create `create_migration_to`, which takes a backend as the record
--     `Backend` and the fuel for `resolve_types`. The connection is the record `Database` of Database,
--     which those take, with its state handed from call to call; a transaction that is not committed leaves
--     the state before it. The loops go from name to name and could go round in circles, so they run on
--     fuel; as much as the chain is long is enough.
--   * Many: butane_core/src/many.rs, a relation and its operations; each takes and gives back the
--     relation and the state of the database. Query/Load runs its queries. Database holds what is
--     asked of a connection and of a model, whose code is generated; the laws of a table of links, which
--     the theorems on `save` take, are the record `LinkTable`.
--   * Object: butane_core/src/autopk.rs (Object/Keys) and `DataObjectOps` of butane_core/src/lib.rs
--     (Object/Save). The nested tests of `save` are the clauses of `row_by`. What generated code and the
--     connection do is in the records `Model` and `RowDatabase`.
--   * Foreign: butane_core/src/fkey.rs. A cell that is set once is an option, handed from call to call,
--     and `load` goes through `get_or_init_once_lock` of butane_core/src/util.rs to Query/Get,
--     which is `DataObjectOps::get`. The model referred to is the record `Referred`.
--   * Files: butane_core/src/migrations/fsmigrations.rs, migrations on a file system. The directory of a
--     migration is the record `Folder` and that of all of them `Root`, with a field for each kind of file;
--     what serde writes is the parameter `Formats`, and the theorems that read files back take its law.
--     Files/Series is the series and its loops, Files/Schema what the files of a migration say.
--   * Cli: butane_cli/src/lib.rs, the commands, on a `Project` that has migrations on files. A command
--     ends by a value of `Stop` where the process leaves or an error is told.
--   * Tests: runs on concrete inputs, and the theorems applied to them.
--
-- How the parts interact: `diff` gives the operations that a backend's `create_migration_sql` turns into
-- SQL, carrying a schema along that it changes with `transform_with`; the builder gives the conditions
-- that a backend renders with its own source of placeholders.
--
-- Numbers: the counter of Postgres placeholders is kept as its eight bits, with the wrap-around of a
-- build without overflow checks. Counters of the rendering loops stop at 0 as the guards in the code
-- make them. Nothing runs on fuel but what the description of a part says.
--
-- Not modelled: connections and rows, which are calls of rusqlite and tokio-postgres; the
-- generation of Rust code (butane_core/src/codegen, butane_codegen), which works on the syntax trees of
-- another crate; the text of JSON files, lock files and what commands print; the asynchronous adapters,
-- which forward calls; the conversion of `f32` fields, which rounds; `copy_to` of a migration on files; the
-- parsing of arguments, test helpers and examples.
pub mod Prelude
pub mod Map
pub mod Names
pub mod Value
pub mod Schema
pub mod Query
pub mod Sql
pub mod Sqlite
pub mod Pg
pub mod Database
pub mod Migrations
pub mod Files
pub mod Cli
pub mod Many
pub mod Foreign
pub mod Object
mod Tests
