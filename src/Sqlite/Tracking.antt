-- ===== src/Sqlite/Tracking.antt =====
-- The schema that `create_migration_sql` tracks for SQLite. A changed column changes it twice, by
-- `change_column` and by `transform_with`.
use butane.Prelude.{ok, String, Option, List, ◌∷◌, foldl, ◌≡◌, ◌⊎◌, err, ◌++◌}
use butane.Prelude.Ord.{string_ord}
use butane.Map
use butane.Value.{Externals, Fault}
use butane.Schema.Types.{AColumn, ATable, Adb, Operation}
use butane.Schema.Operations.{get_table, transform_with}
use butane.Sqlite.Schema.{changed_columns, tmp_table_name, sql_for_op, op_lines}

module _ {X : Externals} where
  -- The table that is made anew, changed once more by the operation, is the table that the operation
  -- alone gives.
  abbrev remade : ATable X → AColumn X → Option (AColumn X) → ATable X
  remade t old new = record (changed_columns (record t { name = tmp_table_name t.name }) old new) {
    name = t.name;
  }

  -- Two schemas have the same tables.
  abbrev pub SameTables : Adb X → Adb X → Type 0
  SameTables a b = (t : String) → get_table t a ≡ get_table t b

  -- How the rounds end: all operations have SQL, or the error is that of the first that has none. The
  -- schema tracked by then has the tables that the operations before give.
  abbrev Rounds : Adb X → Adb X → List (Operation X) → Type 0
  Rounds a b ops =
      ((after : Adb X) × (lines : List String) × (op_lines a ops ≡ ok (after, lines))
        × SameTables after (foldl transform_with b ops))
      ⊎ ((e : Fault X) × (before rest : List (Operation X)) × (op : Operation X) × (reached : Adb X)
          × (op_lines a ops ≡ err e)
          × (ops ≡ before ++ (op ∷ rest))
          × SameTables reached (foldl transform_with b before)
          × ((sql_for_op reached op).1 ≡ err e))
