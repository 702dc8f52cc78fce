-- ===== src/Pg/Statements.antt =====
-- The statements that the Postgres backend prepares, with the values that are bound to them, of
-- butane_core/src/db/pg.rs. What the database does with them is not modelled.
use butane.Prelude.{
  ℕ, zero, suc, ◌+◌, ◌-◌, ◌%◌, ◌<◌, ℤ, show_ℕ, String, true, false, Option, none, some, List, [],
  ◌∷◌, ◌++◌, ◌<>◌, ltb, ◌=ℕ◌, length, if◌then◌else◌, ◌≡◌, refl, arith, ◌∙◌,
}
use butane.Value.{Externals, SqlVal}
use butane.Query.Types.{Expr, BoolExpr, Order}
use butane.Sql.Writer.{PlaceholderSource, after, Out, quote_reserved_word, emit}
use butane.Sql.Expr.{sql_for_expr}
use butane.Sql.Params.{slots, sql_for_expr_writes}
use butane.Sql.Statements.{
  DbColumn, list_columns, sql_select, sql_insert_with_placeholders, sql_update_with_placeholders,
  sql_limit, sql_offset, sql_order,
}

-- The text of a placeholder whose `i8` counter has these bits, in two's complement.
unfoldable pub placeholder_text : ℕ → String
placeholder_text n = if ltb n 128 then "$" <> show_ℕ n else "$-" <> show_ℕ (256 - n)

-- The counter is an `i8`; built without overflow checks, it wraps round at 127.
unfoldable pub next_count : ℕ → ℕ
next_count n = (n + 1) % 256

abbrev pub pg_placeholders : PlaceholderSource
pg_placeholders = record { Source = ℕ; start = 1; text = placeholder_text; advance = next_count }

abbrev pub PgOut : Externals → Type 0
PgOut X = Out X pg_placeholders

after-count : (k n : ℕ) → n < 256 → after pg_placeholders k n ≡ (n + k) % 256
unfolding after next_count
after-count zero n h = omega arith
after-count (suc k) n h = after-count k ((n + 1) % 256) (omega arith) ∙ omega arith

positive_count : (m : ℕ) → m < 127 → placeholder_text ((1 + m) % 256) ≡ "$" <> show_ℕ (m + 1)
unfolding placeholder_text
positive_count m h =
    let e : (1 + m) % 256 ≡ m + 1 = omega arith in
    let t : ltb (m + 1) 128 ≡ true = ground arith in rw (e, t)

negative_count :
    (m : ℕ) → 126 < m → m < 255 → placeholder_text ((1 + m) % 256) ≡ "$-" <> show_ℕ (255 - m)
unfolding placeholder_text
negative_count m l h =
    let e : (1 + m) % 256 ≡ m + 1 = omega arith in
    let t : ltb (m + 1) 128 ≡ false = ground arith in
    let d : 256 - (m + 1) ≡ 255 - m = omega arith in rw (e, t, d)

module _ {X : Externals} where
  abbrev pub start : PgOut X
  start = record { w = ""; values = []; pls = pg_placeholders.start }

  abbrev on_some {ℓ} : {A : Type ℓ} → Option A → (A → PgOut X → PgOut X) → PgOut X → PgOut X
  on_some none f out = out
  on_some (some a) f out = f a out

  abbrev where_clause : BoolExpr X → PgOut X → PgOut X
  where_clause expr out = sql_for_expr (Expr.condition expr) (emit " WHERE " out)

  unfoldable pub query :
      String
      → List (DbColumn X)
      → Option (BoolExpr X)
      → Option ℤ
      → Option ℤ
      → Option (List Order)
      → PgOut X
  query table columns expr limit offset order = on_some offset sql_offset (
      on_some limit sql_limit
        (on_some order sql_order (on_some expr where_clause (sql_select columns table start))))

  unfoldable pub insert_returning_pk : String → List (DbColumn X) → DbColumn X → PgOut X
  insert_returning_pk table columns pkcol =
      emit (" RETURNING " <> pkcol.name) (sql_insert_with_placeholders table columns start)

  unfoldable pub update :
      String → DbColumn X → SqlVal X → List (DbColumn X) → List (SqlVal X) → PgOut X
  update table pkcol pk columns values =
      record (sql_update_with_placeholders table pkcol columns start) {
        values = values ++ (pk ∷ []);
      }

  unfoldable pub delete_where : String → BoolExpr X → PgOut X
  delete_where table expr =
      sql_for_expr (Expr.condition expr)
        (emit ("DELETE FROM " <> quote_reserved_word X table <> " WHERE ") start)

  abbrev numbered : ℕ → List (DbColumn X) → PgOut X → PgOut X
  numbered n [] out = out
  numbered n (_ ∷ columns) out =
      numbered (n + 1) columns (emit ((if n =ℕ 1 then "" else ", ") <> "$" <> show_ℕ n) out)

  abbrev excluded : String → List (DbColumn X) → PgOut X → PgOut X
  excluded sep [] out = out
  excluded sep (c ∷ columns) out = excluded ", " columns (emit (sep <> "excluded." <> c.name) out)

  unfoldable pub sql_insert_or_replace_with_placeholders :
      String → List (DbColumn X) → DbColumn X → PgOut X → PgOut X
  sql_insert_or_replace_with_placeholders table columns pkcol out =
      let inserted = emit (" ON CONFLICT (" <> pkcol.name <> ") DO ") (
        emit ")" (
          numbered 1 columns (
            emit ") VALUES (" (
              list_columns columns
                (emit ("INTO " <> quote_reserved_word X table <> " (") (emit "INSERT " out)))))) in
      if ltb 1 (length columns)
      then emit ")"
          (excluded "" columns (emit ") = (" (list_columns columns (emit "UPDATE SET (" inserted))))
      else emit "NOTHING" inserted

  -- When an expression with fewer than 127 open places has been rendered for Postgres, the next
  -- placeholder is `$` and one more than the number of the open places.
  pub next_placeholder-sql_for_expr :
      (e : Expr X)
      → length (slots e) < 127
      → placeholder_text (sql_for_expr e start).pls ≡ "$" <> show_ℕ (length (slots e) + 1)
  next_placeholder-sql_for_expr e h =
      rw
        (
          (sql_for_expr_writes e start).1 ∙ after-count (length (slots e)) 1 (omega arith),
          positive_count (length (slots e)) h,
        )
        refl

  -- When an expression with 127 to 254 open places has been rendered for Postgres with wrapping
  -- arithmetic, the next placeholder is `$-` and 255 less the number of the open places.
  pub next_placeholder-sql_for_expr_wraps :
      (e : Expr X)
      → 126 < length (slots e)
      → length (slots e) < 255
      → placeholder_text (sql_for_expr e start).pls ≡ "$-" <> show_ℕ (255 - length (slots e))
  next_placeholder-sql_for_expr_wraps e l h =
      rw
        (
          (sql_for_expr_writes e start).1 ∙ after-count (length (slots e)) 1 (omega arith),
          negative_count (length (slots e)) l h,
        )
        refl
