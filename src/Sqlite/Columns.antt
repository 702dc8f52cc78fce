-- ===== src/Sqlite/Columns.antt =====
-- Column definitions of butane_core/src/db/sqlite.rs. A panic is `Fault.panicked`.
use butane.Prelude.{
  String, Bool, true, false, not, ◌&&◌, none, some, List, ◌++◌, Result, ok, err, ◌>>=◌, ◌<>◌,
}
use butane.Value.{Externals, SqlType, Fault}
use butane.Schema.Types.{TypeIdentifier, ARef, AColumn}
use butane.Schema.Table.{typeid}
use butane.Sql.Writer.{quote_reserved_word, when, with_constraints}

module _ {X : Externals} where
  unfoldable pub sqltype : SqlType X → Result (Fault X) String
  sqltype SqlType.bool = ok "INTEGER"
  sqltype SqlType.int = ok "INTEGER"
  sqltype SqlType.big_int = ok "INTEGER"
  sqltype SqlType.real = ok "REAL"
  sqltype SqlType.text = ok "TEXT"
  sqltype SqlType.blob = ok "BLOB"
  sqltype SqlType.json = ok "TEXT"
  sqltype SqlType.timestamp = ok "TEXT"
  sqltype (SqlType.custom _) = err Fault.panicked

  unfoldable pub col_sqltype : AColumn X → Result (Fault X) String
  unfolding sqltype typeid
  col_sqltype col = elim (typeid col) [
    | ok (TypeIdentifier.ty t) ↦ sqltype t
    | ok (TypeIdentifier.name name) ↦ ok name
    | err _ ↦ ok ""
  ]

  unfoldable pub column_constraints : AColumn X → List String
  column_constraints col =
      when (not col.nullable) "NOT NULL"
      ++ when col.pk "PRIMARY KEY"
      ++ when (col.auto && not col.pk) "AUTOINCREMENT"
      ++ when col.unique "UNIQUE"

  unfoldable pub define_column : AColumn X → Result (Fault X) String
  unfolding col_sqltype column_constraints
  define_column col = do
    t ← col_sqltype col
    ok (with_constraints (column_constraints col) (quote_reserved_word X col.name <> " " <> t))

  unfoldable pub has_reference : AColumn X → Bool
  has_reference c = elim c.reference [ none ↦ false | some _ ↦ true ]

  unfoldable pub define_constraint : AColumn X → Result (Fault X) String
  define_constraint column = elim column.reference [
    | none ↦ err Fault.panicked
    | some (ARef.literal r) ↦ ok (
        "FOREIGN KEY ("
        <> quote_reserved_word X column.name
        <> ") REFERENCES "
        <> quote_reserved_word X r.table_name
        <> "("
        <> quote_reserved_word X r.column_name
        <> ")")
    | some (ARef.deferred _) ↦ err Fault.panicked
  ]
