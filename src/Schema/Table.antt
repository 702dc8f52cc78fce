-- ===== src/Schema/Table.antt =====
-- Columns and tables: `AColumn`, `ATable`, `create_many_table` of butane_core/src/migrations/adb.rs.
use butane.Prelude.{
  String, false, Option, none, some, List, [], ◌∷◌, find, retain, not, ◌==◌, if◌then◌else◌, ◌<>◌,
  Result, ok, err,
}
use butane.Value.{Externals, Error}
use butane.Schema.Keys.{TypeKey, show_key}
use butane.Schema.Types.{TypeIdentifier, DeferredSqlType, ARef, AColumn, ATable}

abbrev pub many_suffix : String
many_suffix = "_Many"

module _ {X : Externals} where
  -- `AColumn::new_simple`
  unfoldable pub new_simple : String → DeferredSqlType X → AColumn X
  new_simple name sqltype = record {
    name = name;
    sqltype = sqltype;
    nullable = false;
    pk = false;
    auto = false;
    unique = false;
    default = none;
    reference = none;
  }

  -- `columns.iter().find(|c| c.name == name)`
  unfoldable pub col_by_name : List (AColumn X) → String → Option (AColumn X)
  unfolding find
  col_by_name columns name = find (λ c. c.name == name) columns

  unfoldable pub column : ATable X → String → Option (AColumn X)
  unfolding col_by_name
  column table name = col_by_name table.columns name

  -- overwrite the first column with the name, or push a new one
  unfoldable pub replace_in : AColumn X → List (AColumn X) → List (AColumn X)
  replace_in col [] = col ∷ []
  replace_in col (c ∷ cs) =
      let rest = replace_in col cs in if c.name == col.name then col ∷ cs else c ∷ rest

  unfoldable pub replace_column : AColumn X → ATable X → ATable X
  unfolding replace_in
  replace_column col table = record table { columns = replace_in col table.columns }

  unfoldable pub add_column : AColumn X → ATable X → ATable X
  unfolding replace_column
  add_column col table = replace_column col table

  unfoldable pub remove_column : String → ATable X → ATable X
  unfolding retain
  remove_column name table = record table {
    columns = retain (λ c. not (c.name == name)) table.columns;
  }

  -- `ATable::pk`
  unfoldable pub pk_of : ATable X → Option (AColumn X)
  unfolding find
  pk_of table = find (λ c. c.pk) table.columns

  abbrev reference_to : DeferredSqlType X → Option (ARef X)
  reference_to (DeferredSqlType.deferred (TypeKey.pk name)) =
      some (ARef.deferred (DeferredSqlType.deferred (TypeKey.pk name)))
  reference_to _ = none

  -- `AColumn::typeid`
  unfoldable pub typeid : AColumn X → Result (Error X) (TypeIdentifier X)
  typeid col = elim col.sqltype [
    | DeferredSqlType.known_id t ↦ ok t
    | DeferredSqlType.known t ↦ ok (TypeIdentifier.ty t)
    | DeferredSqlType.deferred key ↦ err (Error.unknown_sql_type (show_key key))
  ]

  -- the table of a many-to-many relationship
  unfoldable pub create_many_table :
      String → String → DeferredSqlType X → String → DeferredSqlType X → ATable X
  unfolding add_column new_simple
  create_many_table main_table field field_type main_pk main_pk_type =
      let table : ATable X = record {
        name = main_table <> "_" <> field <> many_suffix;
        columns = [];
      } in
      let owner : AColumn X = record (new_simple "owner" main_pk_type) {
        reference = some (ARef.literal (record { table_name = main_table; column_name = main_pk }));
      } in
      let has : AColumn X = record (new_simple "has" field_type) {
        reference = reference_to field_type;
      } in
      add_column has (add_column owner table)
