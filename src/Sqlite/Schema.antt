-- ===== src/Sqlite/Schema.antt =====
-- Schema changes of butane_core/src/db/sqlite.rs. SQLite cannot change a column: a table is made anew
-- under a temporary name, filled, and renamed; the schema that is tracked changes with it.
use butane.Prelude.{
  String, Bool, true, false, not, Option, none, some, List, [], ◌∷◌, map, retain, join, traverse,
  Result, ok, err, ◌>>=◌, ◌<>◌, ◌==◌, if◌then◌else◌,
}
use butane.Value.{Externals, Error, Fault, lift}
use butane.Schema.Types.{AColumn, ATable, Adb, Operation}
use butane.Schema.Table.{column, replace_column, remove_column}
use butane.Schema.Operations.{get_table, replace_table, transform_with}
use butane.Sql.Writer.{quote_reserved_word}
use butane.Sql.Literals.{column_default, sql_literal_value}
use butane.Sqlite.Columns.{define_column, has_reference, define_constraint}

unfoldable pub tmp_table_name : String → String
tmp_table_name name = name <> "__butane_tmp"

module _ (X : Externals) where
  unfoldable pub drop_table : String → String
  drop_table name = "DROP TABLE " <> quote_reserved_word X name <> ";"

module _ {X : Externals} where
  unfoldable pub create_table_constraints : ATable X → Result (Fault X) String
  unfolding define_constraint has_reference
  create_table_constraints table = do
    texts ← traverse define_constraint (retain has_reference table.columns)
    ok (join "\n" texts)

  unfoldable pub create_table : ATable X → Bool → Result (Fault X) String
  unfolding define_column create_table_constraints
  create_table table allow_exists = do
    coldefs ← traverse define_column table.columns
    let modifier = if allow_exists then "IF NOT EXISTS " else ""
    constraints ← create_table_constraints table
    let after = if constraints == "" then "" else ",\n" <> constraints
    ok (
        "CREATE TABLE "
        <> modifier
        <> quote_reserved_word X table.name
        <> " (\n"
        <> join ",\n" coldefs
        <> after
        <> "\n) STRICT;")

  unfoldable pub add_column : String → AColumn X → Result (Fault X) String
  unfolding define_column
  add_column tbl_name col = do
    default ← lift (column_default col)
    definition ← define_column col
    literal ← lift (sql_literal_value default)
    ok (
        "ALTER TABLE "
        <> quote_reserved_word X tbl_name
        <> " ADD COLUMN "
        <> definition
        <> " DEFAULT "
        <> literal
        <> ";")

  unfoldable pub copy_table : ATable X → ATable X → String
  copy_table old new =
      "INSERT INTO "
      <> quote_reserved_word X new.name
      <> " SELECT "
      <> join ", " (map (λ c. quote_reserved_word X c.name) new.columns)
      <> " FROM "
      <> quote_reserved_word X old.name
      <> ";"

  -- The columns of the table that is made anew.
  unfoldable pub changed_columns : ATable X → AColumn X → Option (AColumn X) → ATable X
  changed_columns t old none = remove_column old.name t
  changed_columns t old (some col) = replace_column col t

  unfoldable pub change_text : String → ATable X → ATable X → Result (Fault X) String
  unfolding create_table copy_table drop_table
  change_text tbl_name old_table new_table = do
    create ← create_table new_table false
    ok (
        join "\n" (
          create
          ∷ copy_table old_table new_table
          ∷ drop_table X old_table.name
          ∷ ("ALTER TABLE "
              <> quote_reserved_word X new_table.name
              <> " RENAME TO "
              <> quote_reserved_word X tbl_name
              <> ";")
          ∷ []))

  unfoldable pub change_column :
      Adb X → String → AColumn X → Option (AColumn X) → Adb X × Result (Fault X) String
  unfolding changed_columns change_text tmp_table_name
  change_column current tbl_name old new = elim (get_table tbl_name current) [
    | none ↦ (current, ok "")
    | some old_table ↦
        let renamed : ATable X = record old_table { name = tmp_table_name old_table.name } in
        let new_table = changed_columns renamed old new in
        let final : ATable X = record new_table { name = old_table.name } in
        (replace_table final current, change_text tbl_name old_table new_table)
  ]

  unfoldable pub remove_column_sql : Adb X → String → String → Adb X × Result (Fault X) String
  unfolding change_column has_reference
  remove_column_sql current tbl_name name = elim (get_table tbl_name current) [
    | none ↦ (current, err (Fault.raised (Error.table_not_found tbl_name)))
    | some table ↦ elim (column table name) [
      | none ↦ (current, err (Fault.raised (Error.column_not_found tbl_name name)))
      | some col ↦ if has_reference col then change_column current tbl_name col none else (
        current,
        ok (
            "ALTER TABLE "
            <> quote_reserved_word X tbl_name
            <> " DROP COLUMN "
            <> quote_reserved_word X name
            <> ";"),
      )
    ]
  ]

  unfoldable pub sql_for_op : Adb X → Operation X → Adb X × Result (Fault X) String
  unfolding create_table drop_table add_column remove_column_sql change_column
  sql_for_op current (Operation.add_table table) = (current, create_table table false)
  sql_for_op current (Operation.add_table_constraints _) = (current, ok "")
  sql_for_op current (Operation.add_table_if_not_exists table) = (current, create_table table true)
  sql_for_op current (Operation.remove_table name) = (current, ok (drop_table X name))
  sql_for_op current (Operation.remove_table_constraints _) = (current, ok "")
  sql_for_op current (Operation.add_column tbl col) = (current, add_column tbl col)
  sql_for_op current (Operation.remove_column tbl name) = remove_column_sql current tbl name
  sql_for_op current (Operation.change_column tbl old new) =
      change_column current tbl old (some new)

  -- One round of `create_migration_sql`: the text, and the schema for the next round.
  unfoldable pub step : Adb X → Operation X → Adb X × Result (Fault X) String
  unfolding sql_for_op
  step current o = let (current', sql) = sql_for_op current o in (transform_with current' o, sql)

  -- The rounds: the schema after the last, and the texts.
  unfoldable pub op_lines : Adb X → List (Operation X) → Result (Fault X) (Adb X × List String)
  unfolding step
  op_lines current [] = ok (current, [])
  op_lines current (o ∷ ops) = do
    line ← (step current o).1
    later ← op_lines (step current o).0 ops
    ok (later.0, line ∷ later.1)

  unfoldable pub create_migration_sql : Adb X → List (Operation X) → Result (Fault X) String
  unfolding op_lines
  create_migration_sql current ops = do
    rounds ← op_lines current ops
    ok (join "\n" (retain (λ s. not (s == "")) rounds.1))
