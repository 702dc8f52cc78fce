-- ===== src/Sql/Expr.antt =====
-- `sql_for_expr`, tied to itself as each backend ties it, `sql_joins` and `sql_column`.
use butane.Prelude.{
  ℕ, suc, ◌-◌, show_ℤ, Bool, true, false, none, some, List, [], ◌∷◌, ltb, length, if◌then◌else◌,
  ◌<>◌,
}
use butane.Value.{Externals, SqlVal}
use butane.Query.Types.{Column, Join, Expr, BoolExpr, BoolExprs}
use butane.Sql.Writer.{
  PlaceholderSource, Out, quote_reserved_word, emit, next_placeholder, push_value,
}

module _ {X : Externals} where
  unfoldable pub is_null : Expr X → Bool
  is_null (Expr.val SqlVal.null) = true
  is_null _ = false

  unfoldable pub count_conds : BoolExprs X → ℕ
  count_conds BoolExprs.nil = 0
  count_conds (BoolExprs.cons c cs) = suc (count_conds cs)

module _ {X : Externals} {P : PlaceholderSource} where
  unfoldable pub sql_column : Column → Out X P → Out X P
  sql_column col out = elim col.table [
    | none ↦ emit col.name out
    | some table ↦ emit (quote_reserved_word X table <> "." <> quote_reserved_word X col.name) out
  ]

  unfoldable pub sql_joins : List Join → Out X P → Out X P
  unfolding sql_column
  sql_joins [] out = out
  sql_joins (Join.inner join_table col1 col2 ∷ joins) out = sql_joins joins (
      sql_column col2 (
        emit " = " (
          sql_column col1
            (emit ("INNER JOIN " <> quote_reserved_word X join_table <> " ON ") out))))

  -- The `Val` arm: integers stand in the text, other values behind a placeholder.
  unfoldable pub sql_val : SqlVal X → Out X P → Out X P
  sql_val (SqlVal.int i) out = emit (show_ℤ i) out
  sql_val (SqlVal.big_int i) out = emit (show_ℤ i) out
  sql_val v out = next_placeholder (push_value v out)

  -- The loop of the `In` arm; `remaining` is its counter.
  unfoldable pub sql_vals : ℕ → List (SqlVal X) → Out X P → Out X P
  unfolding sql_val
  sql_vals remaining [] out = out
  sql_vals remaining (v ∷ vals) out =
      let out' = sql_val v out in
      sql_vals (if ltb 1 remaining then remaining - 1 else remaining) vals
        (if ltb 1 remaining then emit ", " out' else out')

  unfoldable mutual
    unfolding sql_val is_null sql_vals sql_joins sql_column count_conds

    pub sql_for_expr : Expr X → Out X P → Out X P
    sql_for_expr (Expr.column name) out = emit (quote_reserved_word X name) out
    sql_for_expr (Expr.val v) out = sql_val v out
    sql_for_expr Expr.placeholder out = next_placeholder out
    sql_for_expr (Expr.condition c) out = sql_for_cond c out

    pub sql_for_cond : BoolExpr X → Out X P → Out X P
    sql_for_cond BoolExpr.true out = emit "TRUE" out
    sql_for_cond (BoolExpr.eq col ex) out =
        let rest = sql_for_expr ex (emit (col <> " = ") out) in
        if is_null ex then emit (col <> " IS NULL") out else rest
    sql_for_cond (BoolExpr.ne col ex) out =
        let rest = sql_for_expr ex (emit (col <> " <> ") out) in
        if is_null ex then emit (col <> " IS NOT NULL") out else rest
    sql_for_cond (BoolExpr.lt col ex) out = sql_for_expr ex (emit (col <> " < ") out)
    sql_for_cond (BoolExpr.gt col ex) out = sql_for_expr ex (emit (col <> " > ") out)
    sql_for_cond (BoolExpr.le col ex) out = sql_for_expr ex (emit (col <> " <= ") out)
    sql_for_cond (BoolExpr.ge col ex) out = sql_for_expr ex (emit (col <> " >= ") out)
    sql_for_cond (BoolExpr.like col ex) out = sql_for_expr ex (emit (col <> " like ") out)
    sql_for_cond (BoolExpr.all_of conds) out = sql_for_conds conds (count_conds conds) out
    sql_for_cond (BoolExpr.and a b) out = sql_for_cond b (emit " AND " (sql_for_cond a out))
    sql_for_cond (BoolExpr.or a b) out = sql_for_cond b (emit " OR " (sql_for_cond a out))
    sql_for_cond (BoolExpr.not a) out = sql_for_cond a (emit "NOT " out)
    sql_for_cond (BoolExpr.subquery col tbl2 tbl2_col expr) out = emit ")" (
        sql_for_cond expr (
          emit
            (quote_reserved_word X col
              <> " IN (SELECT "
              <> quote_reserved_word X tbl2_col
              <> " FROM "
              <> quote_reserved_word X tbl2
              <> " WHERE ")
            out))
    sql_for_cond (BoolExpr.subquery_join col tbl2 col2 joins expr) out = emit ")" (
        sql_for_cond expr (
          emit " WHERE " (
            sql_joins joins (
              emit (" FROM " <> quote_reserved_word X tbl2 <> " ")
                (sql_column col2 (emit (quote_reserved_word X col <> " IN (SELECT ") out))))))
    sql_for_cond (BoolExpr.in_ col vals) out =
        emit ")" (sql_vals (length vals) vals (emit (quote_reserved_word X col <> " IN (") out))

    -- The loop of the `AllOf` arm; `remaining` is its counter.
    pub sql_for_conds : BoolExprs X → ℕ → Out X P → Out X P
    sql_for_conds BoolExprs.nil remaining out = out
    sql_for_conds (BoolExprs.cons c cs) remaining out =
        let out' = sql_for_cond c out in
        sql_for_conds cs (if ltb 1 remaining then remaining - 1 else remaining)
          (if ltb 1 remaining then emit " AND " out' else out')
