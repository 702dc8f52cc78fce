-- ===== src/Pg/Columns.antt =====
-- Column definitions and constraints of butane_core/src/db/pg.rs. A panic is `Fault.panicked`.
use butane.Prelude.{
  String, not, none, some, List, ◌++◌, Result, ok, err, ◌>>=◌, ◌<>◌, if◌then◌else◌,
}
use butane.Value.{Externals, SqlType, Error, Fault}
use butane.Schema.Types.{TypeIdentifier, ARef, AColumn}
use butane.Schema.Table.{typeid}
use butane.Sql.Writer.{quote_reserved_word, when, with_constraints}

module _ {X : Externals} where
  abbrev auto_type : String → SqlType X → Result (Error X) String
  auto_type column SqlType.int = ok "SERIAL"
  auto_type column SqlType.big_int = ok "BIGSERIAL"
  auto_type column _ = err (Error.invalid_auto column)

  unfoldable pub plain_type : SqlType X → String
  plain_type SqlType.bool = "BOOLEAN"
  plain_type SqlType.int = "INTEGER"
  plain_type SqlType.big_int = "BIGINT"
  plain_type SqlType.real = "DOUBLE PRECISION"
  plain_type SqlType.text = "TEXT"
  plain_type SqlType.timestamp = "TIMESTAMP"
  plain_type SqlType.blob = "BYTEA"
  plain_type SqlType.json = "JSONB"
  plain_type (SqlType.custom t) = X.pg_type_name t

  abbrev type_text : AColumn X → TypeIdentifier X → Result (Error X) String
  type_text col (TypeIdentifier.name name) = ok name
  type_text col (TypeIdentifier.ty t) = if col.auto then auto_type col.name t else ok (plain_type t)

  unfoldable pub col_sqltype : AColumn X → Result (Error X) String
  unfolding typeid plain_type
  col_sqltype col = do t ← typeid col; type_text col t

  abbrev column_constraints : AColumn X → List String
  column_constraints col =
      when (not col.nullable) "NOT NULL" ++ when col.pk "PRIMARY KEY" ++ when col.unique "UNIQUE"

  unfoldable pub define_column : AColumn X → Result (Error X) String
  unfolding col_sqltype
  define_column col = do
    t ← col_sqltype col
    ok (with_constraints (column_constraints col) (quote_reserved_word X col.name <> " " <> t))

  unfoldable pub define_fkey_constraint : String → AColumn X → Result (Fault X) String
  define_fkey_constraint table_name column = elim column.reference [
    | none ↦ err Fault.panicked
    | some (ARef.literal r) ↦ ok (
        "ALTER TABLE "
        <> quote_reserved_word X table_name
        <> " ADD FOREIGN KEY ("
        <> quote_reserved_word X column.name
        <> ") REFERENCES "
        <> quote_reserved_word X r.table_name
        <> "("
        <> quote_reserved_word X r.column_name
        <> ");")
    | some (ARef.deferred _) ↦ err Fault.panicked
  ]
