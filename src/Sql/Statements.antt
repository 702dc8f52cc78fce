-- ===== src/Sql/Statements.antt =====
-- The statements of butane_core/src/db/helper.rs; `db::Column` of butane_core/src/db/connmethods.rs.
use butane.Prelude.{ℤ, show_ℤ, String, List, [], ◌∷◌, map, join, ◌<>◌}
use butane.Value.{Externals, SqlType}
use butane.Query.Types.{OrderDirection, Order}
use butane.Sql.Writer.{PlaceholderSource, Out, quote_reserved_word, emit, next_placeholder}

pub record DbColumn (X : Externals) : Type 0 where
  pub name : String
  pub ty : SqlType X

abbrev pub sql_dir : OrderDirection → String
sql_dir OrderDirection.ascending = "ASC"
sql_dir OrderDirection.descending = "DESC"

module _ {X : Externals} {P : PlaceholderSource} where
  unfoldable pub list_columns : List (DbColumn X) → Out X P → Out X P
  list_columns columns out = emit (join ", " (map (λ c. quote_reserved_word X c.name) columns)) out

  unfoldable pub sql_select : List (DbColumn X) → String → Out X P → Out X P
  unfolding list_columns
  sql_select columns table out =
      emit (" FROM " <> quote_reserved_word X table) (list_columns columns (emit "SELECT " out))

  -- a fold over the columns, whose accumulator is the separator
  unfoldable pub placeholders : String → List (DbColumn X) → Out X P → Out X P
  placeholders sep [] out = out
  placeholders sep (_ ∷ columns) out = placeholders ", " columns (next_placeholder (emit sep out))

  unfoldable pub sql_insert_with_placeholders : String → List (DbColumn X) → Out X P → Out X P
  unfolding list_columns placeholders
  sql_insert_with_placeholders table [] out =
      emit "DEFAULT VALUES " (emit ("INSERT INTO " <> quote_reserved_word X table <> " ") out)
  sql_insert_with_placeholders table (c ∷ columns) out = emit ")" (
      placeholders "" (c ∷ columns) (
        emit ") VALUES (" (
          list_columns (c ∷ columns)
            (emit "(" (emit ("INSERT INTO " <> quote_reserved_word X table <> " ") out)))))

  unfoldable pub assignments : String → List (DbColumn X) → Out X P → Out X P
  assignments sep [] out = out
  assignments sep (c ∷ columns) out =
      assignments ", " columns
        (next_placeholder (emit (sep <> quote_reserved_word X c.name <> " = ") out))

  unfoldable pub sql_update_with_placeholders :
      String → DbColumn X → List (DbColumn X) → Out X P → Out X P
  unfolding assignments
  sql_update_with_placeholders table pkcol columns out = next_placeholder (
      emit (" WHERE " <> quote_reserved_word X pkcol.name <> " = ")
        (assignments "" columns (emit ("UPDATE " <> quote_reserved_word X table <> " SET ") out)))

  unfoldable pub sql_limit : ℤ → Out X P → Out X P
  sql_limit limit out = emit (" LIMIT " <> show_ℤ limit) out

  unfoldable pub sql_offset : ℤ → Out X P → Out X P
  sql_offset offset out = emit (" OFFSET " <> show_ℤ offset) out

  unfoldable pub order_terms : String → List Order → Out X P → Out X P
  order_terms sep [] out = out
  order_terms sep (o ∷ order) out =
      order_terms ", " order
        (emit (sep <> quote_reserved_word X o.column <> " " <> sql_dir o.direction) out)

  unfoldable pub sql_order : List Order → Out X P → Out X P
  unfolding order_terms
  sql_order order out = order_terms "" order (emit " ORDER BY " out)
