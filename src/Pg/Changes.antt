-- ===== src/Pg/Changes.antt =====
-- Schema changes of butane_core/src/db/pg.rs.
use butane.Prelude.{
  String, Bool, true, false, not, Option, none, some, List, [], ◌∷◌, ◌++◌, retain, join, traverse,
  Result, ok, ◌>>=◌, ◌<>◌, ◌==◌, bool_eq, if◌then◌else◌,
}
use butane.Value.{Externals, SqlVal, Error, Fault, lift}
use butane.Value.Equality.{val_eq}
use butane.Schema.Types.{AColumn, ATable, Adb, Operation}
use butane.Schema.Table.{typeid}
use butane.Schema.Operations.{get_table}
use butane.Schema.Equality.{id_eq, ref_eq, option_eq}
use butane.Schema.Diff.{has_reference}
use butane.Sql.Writer.{quote_reserved_word, when}
use butane.Sql.Literals.{column_default, sql_literal_value}
use butane.Pg.Columns.{col_sqltype, define_column, define_fkey_constraint}

module _ (X : Externals) where
  abbrev alter_table : String → String → String
  alter_table table rest = "ALTER TABLE " <> quote_reserved_word X table <> rest

  unfoldable pub drop_table : String → String
  drop_table name = "DROP TABLE " <> quote_reserved_word X name <> ";"

  unfoldable pub remove_column : String → String → String
  remove_column table name =
      alter_table table (" DROP COLUMN " <> quote_reserved_word X name <> ";")

module _ {X : Externals} where
  unfoldable pub create_table : ATable X → Bool → Result (Fault X) String
  unfolding define_column
  create_table table allow_exists = do
    coldefs ← lift (traverse define_column table.columns)
    let modifier = if allow_exists then "IF NOT EXISTS " else ""
    ok (
        "CREATE TABLE "
        <> modifier
        <> quote_reserved_word X table.name
        <> " (\n"
        <> join ",\n" coldefs
        <> "\n);")

  unfoldable pub create_table_fkey_constraints : ATable X → Result (Fault X) String
  unfolding define_fkey_constraint has_reference
  create_table_fkey_constraints table = do
    texts ← traverse (define_fkey_constraint table.name) (retain has_reference table.columns)
    ok (join "\n" texts)

  unfoldable pub add_column : String → AColumn X → Result (Fault X) String
  unfolding define_column define_fkey_constraint has_reference
  add_column table col = do
    default ← lift (column_default col)
    definition ← lift (define_column col)
    literal ← lift (sql_literal_value default)
    let added = alter_table X table (" ADD COLUMN " <> definition <> " DEFAULT " <> literal <> ";")
    constraint ←
        (if has_reference col
          then (do t ← define_fkey_constraint table col; ok (t ∷ []))
          else ok [])
    ok (join "\n" (added ∷ constraint))

  -- the parts of `change_column`, one for each thing that may have changed
  abbrev type_change : String → AColumn X → AColumn X → Result (Error X) (List String)
  type_change table old new = do
    old_type ← typeid old
    new_type ← typeid new
    if id_eq old_type new_type then ok [] else (do
      t ← col_sqltype new
      ok (
          alter_table X table
            (" ALTER COLUMN " <> quote_reserved_word X old.name <> " SET DATA TYPE " <> t <> ";")
          ∷ []))

  abbrev key_change : String → AColumn X → AColumn X → List String
  key_change table old new =
      if not (bool_eq old.pk new.pk)
      then when new.pk (alter_table X table (" DROP CONSTRAINT IF EXISTS " <> table <> "_pkey;"))
        ++ when new.pk
            (alter_table X table (" ADD PRIMARY KEY (" <> quote_reserved_word X new.name <> ");"))
      else []

  abbrev unique_change : String → AColumn X → AColumn X → List String
  unique_change table old new =
      if not (bool_eq old.unique new.unique)
      then (if new.unique
          then alter_table X table (" ADD UNIQUE (" <> quote_reserved_word X new.name <> ");")
          else alter_table X table (" DROP CONSTRAINT " <> table <> "_" <> old.name <> "_key;"))
        ∷ []
      else []

  abbrev default_text : String → AColumn X → Option (SqlVal X) → Result (Error X) String
  default_text table old none =
      ok (
        alter_table X table
          (" ALTER COLUMN " <> quote_reserved_word X old.name <> " DROP DEFAULT;"))
  default_text table old (some val) = do
    literal ← sql_literal_value val
    ok (
        alter_table X table
          (" ALTER COLUMN " <> quote_reserved_word X old.name <> " SET DEFAULT " <> literal <> ";"))

  abbrev default_change : String → AColumn X → AColumn X → Result (Error X) (List String)
  default_change table old new =
      if option_eq val_eq old.default new.default
      then ok []
      else (do text ← default_text table old new.default; ok (text ∷ []))

  abbrev reference_change : String → AColumn X → AColumn X → Result (Fault X) (List String)
  reference_change table old new =
      if option_eq ref_eq old.reference new.reference then ok [] else (do
        let dropped =
            when (has_reference old)
              (alter_table X table (" DROP CONSTRAINT " <> table <> "_" <> old.name <> "_fkey;"))
        defined ←
            (if has_reference new
              then (do t ← define_fkey_constraint table new; ok (t ∷ []))
              else ok [])
        ok (dropped ++ defined))

  unfoldable pub change_column : ATable X → AColumn X → AColumn X → Result (Fault X) String
  unfolding define_fkey_constraint has_reference
  change_column table old new = do
    let renamed = when (not (old.name == new.name)) (
        alter_table X table.name (
          " RENAME COLUMN "
          <> quote_reserved_word X old.name
          <> " TO "
          <> quote_reserved_word X new.name
          <> ";"))
    retyped ← lift (type_change table.name old new)
    let nulled = when (not (bool_eq old.nullable new.nullable)) (
        alter_table X table.name (
          " ALTER COLUMN "
          <> quote_reserved_word X old.name
          <> " "
          <> (if new.nullable then "DROP" else "SET")
          <> " NOT NULL;"))
    defaulted ← lift (default_change table.name old new)
    referenced ← reference_change table.name old new
    ok (
        join "\n" (
          renamed
          ++ retyped
          ++ nulled
          ++ key_change table.name old new
          ++ unique_change table.name old new
          ++ defaulted
          ++ referenced))

  unfoldable pub drop_fkey_constraints : ATable X → AColumn X → Result (Fault X) String
  unfolding change_column
  drop_fkey_constraints table column =
      change_column table column (record column { reference = none })

  unfoldable pub remove_table_fkey_constraints : ATable X → Result (Fault X) String
  unfolding drop_fkey_constraints has_reference
  remove_table_fkey_constraints table = do
    texts ← traverse (drop_fkey_constraints table) (retain has_reference table.columns)
    ok (join "\n" texts)

  unfoldable pub sql_for_op : Adb X → Operation X → Result (Fault X) String
  unfolding create_table create_table_fkey_constraints drop_table remove_table_fkey_constraints
  sql_for_op current (Operation.add_table table) = create_table table false
  sql_for_op current (Operation.add_table_constraints table) = create_table_fkey_constraints table
  sql_for_op current (Operation.add_table_if_not_exists table) = create_table table true
  sql_for_op current (Operation.remove_table name) = ok (drop_table X name)
  sql_for_op current (Operation.remove_table_constraints table) =
      remove_table_fkey_constraints table
  sql_for_op current (Operation.add_column tbl col) = add_column tbl col
  sql_for_op current (Operation.remove_column tbl name) = ok (remove_column X tbl name)
  sql_for_op current (Operation.change_column tbl old new) = elim (get_table tbl current) [
    | none ↦ ok ""
    | some table ↦ change_column table old new
  ]

  unfoldable pub create_migration_sql : Adb X → List (Operation X) → Result (Fault X) String
  unfolding sql_for_op
  create_migration_sql current ops = do
    lines ← traverse (sql_for_op current) ops
    ok (join "\n" (retain (λ s. not (s == "")) lines))
