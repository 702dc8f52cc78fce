-- ===== src/Sqlite/Statements.antt =====
-- The statements that the SQLite backend prepares, with the values that are bound to them, of
-- butane_core/src/db/sqlite.rs. What the database does with them is not modelled.
use butane.Prelude.{
  ℤ, String, Option, none, some, List, [], ◌∷◌, ◌++◌, ◌<>◌, ltb, length, if◌then◌else◌,
}
use butane.Value.{Externals, SqlVal}
use butane.Query.Types.{Expr, BoolExpr, Order}
use butane.Sql.Writer.{PlaceholderSource, Out, quote_reserved_word, emit}
use butane.Sql.Expr.{sql_for_expr}
use butane.Sql.Statements.{
  DbColumn, list_columns, sql_select, sql_update_with_placeholders, sql_limit, sql_offset,
  sql_order,
}

-- A placeholder is always a question mark.
abbrev pub sqlite_placeholders : PlaceholderSource
sqlite_placeholders = record { Source = Unit {0}; start = tt; text = λ _. "?"; advance = λ s. s }

abbrev pub SqliteOut : Externals → Type 0
SqliteOut X = Out X sqlite_placeholders

abbrev i32_max : ℤ
i32_max = ℤ.pos 2147483647

module _ {X : Externals} where
  abbrev pub start : SqliteOut X
  start = record { w = ""; values = []; pls = tt }

  abbrev on_some {ℓ} :
      {A : Type ℓ} → Option A → (A → SqliteOut X → SqliteOut X) → SqliteOut X → SqliteOut X
  on_some none f out = out
  on_some (some a) f out = f a out

  abbrev where_clause : BoolExpr X → SqliteOut X → SqliteOut X
  where_clause expr out = sql_for_expr (Expr.condition expr) (emit " WHERE " out)

  abbrev offset_clause : Option ℤ → Option ℤ → SqliteOut X → SqliteOut X
  offset_clause limit none out = out
  offset_clause none (some off) out = sql_offset off (sql_limit i32_max out)
  offset_clause (some _) (some off) out = sql_offset off out

  unfoldable pub query :
      String
      → List (DbColumn X)
      → Option (BoolExpr X)
      → Option ℤ
      → Option ℤ
      → Option (List Order)
      → SqliteOut X
  query table columns expr limit offset order = offset_clause limit offset (
      on_some limit sql_limit
        (on_some order sql_order (on_some expr where_clause (sql_select columns table start))))

  unfoldable pub update :
      String → DbColumn X → SqlVal X → List (DbColumn X) → List (SqlVal X) → SqliteOut X
  update table pkcol pk columns values =
      record (sql_update_with_placeholders table pkcol columns start) {
        values = values ++ (pk ∷ []);
      }

  unfoldable pub delete_where : String → BoolExpr X → SqliteOut X
  delete_where table expr =
      sql_for_expr (Expr.condition expr)
        (emit ("DELETE FROM " <> quote_reserved_word X table <> " WHERE ") start)

  abbrev question_marks : String → List (DbColumn X) → SqliteOut X → SqliteOut X
  question_marks sep [] out = out
  question_marks sep (_ ∷ columns) out = question_marks ", " columns (emit (sep <> "?") out)

  abbrev excluded : String → List (DbColumn X) → SqliteOut X → SqliteOut X
  excluded sep [] out = out
  excluded sep (c ∷ columns) out =
      excluded ", " columns (emit (sep <> "excluded." <> quote_reserved_word X c.name) out)

  unfoldable pub sql_insert_or_update :
      String → List (DbColumn X) → DbColumn X → SqliteOut X → SqliteOut X
  sql_insert_or_update table columns pkcol out =
      let inserted = emit (" ON CONFLICT (" <> pkcol.name <> ") DO ") (
        emit ")" (
          question_marks "" columns (
            emit ") VALUES (" (
              list_columns columns
                (emit ("INTO " <> quote_reserved_word X table <> " (") (emit "INSERT " out)))))) in
      if ltb 1 (length columns)
      then emit ")"
          (excluded "" columns (emit ") = (" (list_columns columns (emit "UPDATE SET (" inserted))))
      else emit "NOTHING" inserted
