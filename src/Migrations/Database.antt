-- ===== src/Migrations/Database.antt =====
-- The table of applied migrations and its rows, `ButaneMigration` of
-- butane_core/src/migrations/mod.rs.
use butane.Database.{Database}
use butane.Prelude.{none, String, List, [], ◌∷◌, Result, ok, err, traverse, ◌>>=◌}
use butane.Value.{Externals, SqlType, SqlVal, Error, Fault}
use butane.Sql.Statements.{DbColumn}

-- `ButaneMigration::TABLE`
abbrev pub migrations_table_name : String
migrations_table_name = "butane_migrations"

module _ {X : Externals} where
  -- `ButaneMigration::COLUMNS`
  abbrev pub migrations_columns : List (DbColumn X)
  migrations_columns = record { name = "name"; ty = SqlType.text } ∷ []

  -- `String::from_sql_ref`
  unfoldable pub string_from_sql : SqlVal X → Result (Fault X) String
  string_from_sql (SqlVal.text v) = ok v
  string_from_sql v = err (Fault.raised (Error.cannot_convert_sql_val SqlType.text v))

  -- `ButaneMigration::from_row`
  unfoldable pub from_row : List (SqlVal X) → Result (Fault X) String
  unfolding string_from_sql
  from_row (v ∷ []) = string_from_sql v
  from_row _ =
      err (
        Fault.raised (Error.bounds_error "Row has the wrong number of columns for this DataResult"))

  module _ (D : Database X) where
    -- The names in the table of applied migrations.
    unfoldable pub applied_names : D.State → Result (Fault X) (List String)
    unfolding from_row
    applied_names s = do
      rows ← D.query migrations_table_name migrations_columns none none none none s
      traverse from_row rows
