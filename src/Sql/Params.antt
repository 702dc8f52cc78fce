-- ===== src/Sql/Params.antt =====
-- The placeholders of a rendered expression against the values that are handed over beside it.
use mathlib.Core.List.{append-nil, append_assoc}
use butane.Prelude.{
  ℕ, ◌-◌, String, Option, none, some, List, [], ◌∷◌, ◌++◌, ltb, length, length-append,
  if◌then◌else◌, ◌≡◌, refl, sym, ap, Bool-cases, Option-cases, inl, inr,
}
use butane.Value.{Externals, SqlVal}
use butane.Query.Types.{Column, Join, Expr, BoolExpr, BoolExprs}
use butane.Sql.Writer.{PlaceholderSource, after, after-add, Out, emit}
use butane.Sql.Expr.{
  sql_column, sql_joins, sql_val, is_null, sql_vals, count_conds, sql_for_expr, sql_for_cond,
  sql_for_conds,
}

module _ {X : Externals} where
  -- The places of an expression that its text leaves open, in reading order: a value, or a place that
  -- the program fills later.
  unfoldable pub slots_val : SqlVal X → List (Option (SqlVal X))
  slots_val (SqlVal.int _) = []
  slots_val (SqlVal.big_int _) = []
  slots_val v = some v ∷ []

  unfoldable pub slots_vals : List (SqlVal X) → List (Option (SqlVal X))
  unfolding slots_val
  slots_vals [] = []
  slots_vals (v ∷ vals) = slots_val v ++ slots_vals vals

  unfoldable mutual
    unfolding slots_val slots_vals is_null

    pub slots : Expr X → List (Option (SqlVal X))
    slots (Expr.column _) = []
    slots (Expr.val v) = slots_val v
    slots Expr.placeholder = none ∷ []
    slots (Expr.condition c) = slots_cond c

    pub slots_cond : BoolExpr X → List (Option (SqlVal X))
    slots_cond BoolExpr.true = []
    slots_cond (BoolExpr.eq _ ex) = let rest = slots ex in if is_null ex then [] else rest
    slots_cond (BoolExpr.ne _ ex) = let rest = slots ex in if is_null ex then [] else rest
    slots_cond (BoolExpr.lt _ ex) = slots ex
    slots_cond (BoolExpr.gt _ ex) = slots ex
    slots_cond (BoolExpr.le _ ex) = slots ex
    slots_cond (BoolExpr.ge _ ex) = slots ex
    slots_cond (BoolExpr.like _ ex) = slots ex
    slots_cond (BoolExpr.all_of cs) = slots_conds cs
    slots_cond (BoolExpr.and a b) = slots_cond a ++ slots_cond b
    slots_cond (BoolExpr.or a b) = slots_cond a ++ slots_cond b
    slots_cond (BoolExpr.not a) = slots_cond a
    slots_cond (BoolExpr.subquery _ _ _ e) = slots_cond e
    slots_cond (BoolExpr.subquery_join _ _ _ _ e) = slots_cond e
    slots_cond (BoolExpr.in_ _ vals) = slots_vals vals

    pub slots_conds : BoolExprs X → List (Option (SqlVal X))
    slots_conds BoolExprs.nil = []
    slots_conds (BoolExprs.cons c cs) = slots_cond c ++ slots_conds cs

  -- The values among the places.
  unfoldable pub filled : List (Option (SqlVal X)) → List (SqlVal X)
  filled [] = []
  filled (none ∷ l) = filled l
  filled (some v ∷ l) = v ∷ filled l

  filled-append : (a b : List (Option (SqlVal X))) → filled (a ++ b) ≡ filled a ++ filled b
  unfolding filled
  filled-append [] b = refl
  filled-append (none ∷ a) b = filled-append a b
  filled-append (some v ∷ a) b = ap (◌∷◌ v) (filled-append a b)

  module _ {P : PlaceholderSource} where
    -- From `out` to `out'` the places `l` have been written: a value each, and a placeholder each.
    pub record Writes (l : List (Option (SqlVal X))) (out out' : Out X P) : Type 0 where
      pub values : out'.values ≡ out.values ++ filled l
      pub pls : out'.pls ≡ after P (length l) out.pls

    Writes-trans :
        (a b : List (Option (SqlVal X))) {s t u : Out X P}
        → Writes a s t
        → Writes b t u
        → Writes (a ++ b) s u
    Writes-trans a b {s} {t} {u} p q = record {
      values = rw (q.values, p.values, append_assoc, filled-append);
      pls = rw (q.pls, p.pls, length-append, after-add);
    }

    Writes-val : (v : SqlVal X) (out : Out X P) → Writes (slots_val v) out (sql_val v out)
    unfolding slots_val sql_val after filled
    Writes-val (SqlVal.int i) out = record { values = sym (append-nil _); pls = refl }
    Writes-val (SqlVal.big_int i) out = record { values = sym (append-nil _); pls = refl }
    Writes-val _ out = record { values = refl; pls = refl }

    Writes-emit_before :
        (s : String) (l : List (Option (SqlVal X))) {out out' : Out X P}
        → Writes l (emit s out) out'
        → Writes l out out'
    Writes-emit_before s l h = record { values = h.values; pls = h.pls }

    Writes-emit_after :
        (s : String) (l : List (Option (SqlVal X))) {out out' : Out X P}
        → Writes l out out'
        → Writes l out (emit s out')
    Writes-emit_after s l h = record { values = h.values; pls = h.pls }

    Writes-none : (out : Out X P) → Writes [] out out
    unfolding after filled
    Writes-none out = record { values = sym (append-nil _); pls = refl }

    Writes-column : (col : Column) (out : Out X P) → Writes [] out (sql_column col out)
    unfolding sql_column
    Writes-column col out = elim (Option-cases col.table) [
      | inl e ↦ rw (e, sql_column) (Writes-emit_after _ [] (Writes-none out))
      | inr (t, e) ↦ rw (e, sql_column) (Writes-emit_after _ [] (Writes-none out))
    ]

    Writes-joins : (joins : List Join) (out : Out X P) → Writes [] out (sql_joins joins out)
    unfolding sql_joins
    Writes-joins [] out = Writes-none out
    Writes-joins (Join.inner t c d ∷ joins) out = Writes-emit_before _ [] (
        Writes-trans [] [] (Writes-column c _) (
          Writes-emit_before " = " []
            (Writes-trans [] [] (Writes-column d _) (Writes-joins joins _))))

    Writes-vals :
        (n : ℕ) (vals : List (SqlVal X)) (out : Out X P)
        → Writes (slots_vals vals) out (sql_vals n vals out)
    unfolding slots_vals sql_vals
    Writes-vals n [] out = Writes-none out
    Writes-vals n (v ∷ vals) out =
        Writes-trans (slots_val v) (slots_vals vals) (Writes-val v out)
          (elim (Bool-cases (ltb 1 n)) [
            | inl more ↦ rw more (Writes-emit_before ", " _ (Writes-vals (n - 1) vals _))
            | inr last ↦ rw last (Writes-vals n vals _)
          ])

    mutual
      unfolding slots sql_for_expr filled after

      Writes-expr : (e : Expr X) (out : Out X P) → Writes (slots e) out (sql_for_expr e out)
      Writes-expr (Expr.column n) out = Writes-emit_after _ [] (Writes-none out)
      Writes-expr (Expr.val v) out = Writes-val v out
      Writes-expr Expr.placeholder out = record { values = sym (append-nil _); pls = refl }
      Writes-expr (Expr.condition c) out = Writes-cond c out

      Writes-cond :
          (c : BoolExpr X) (out : Out X P) → Writes (slots_cond c) out (sql_for_cond c out)
      Writes-cond BoolExpr.true out = Writes-emit_after _ [] (Writes-none out)
      Writes-cond (BoolExpr.eq col ex) out = elim (Bool-cases (is_null ex)) [
        | inl e ↦ rw e (Writes-emit_after _ [] (Writes-none out))
        | inr e ↦ rw e (Writes-emit_before _ (slots ex) (Writes-expr ex _))
      ]
      Writes-cond (BoolExpr.ne col ex) out = elim (Bool-cases (is_null ex)) [
        | inl e ↦ rw e (Writes-emit_after _ [] (Writes-none out))
        | inr e ↦ rw e (Writes-emit_before _ (slots ex) (Writes-expr ex _))
      ]
      Writes-cond (BoolExpr.lt col ex) out = Writes-emit_before _ (slots ex) (Writes-expr ex _)
      Writes-cond (BoolExpr.gt col ex) out = Writes-emit_before _ (slots ex) (Writes-expr ex _)
      Writes-cond (BoolExpr.le col ex) out = Writes-emit_before _ (slots ex) (Writes-expr ex _)
      Writes-cond (BoolExpr.ge col ex) out = Writes-emit_before _ (slots ex) (Writes-expr ex _)
      Writes-cond (BoolExpr.like col ex) out = Writes-emit_before _ (slots ex) (Writes-expr ex _)
      Writes-cond (BoolExpr.all_of cs) out = Writes-conds cs (count_conds cs) out
      Writes-cond (BoolExpr.and a b) out =
          Writes-trans (slots_cond a) (slots_cond b) (Writes-cond a out)
            (Writes-emit_before " AND " (slots_cond b) (Writes-cond b _))
      Writes-cond (BoolExpr.or a b) out =
          Writes-trans (slots_cond a) (slots_cond b) (Writes-cond a out)
            (Writes-emit_before " OR " (slots_cond b) (Writes-cond b _))
      Writes-cond (BoolExpr.not a) out = Writes-emit_before _ (slots_cond a) (Writes-cond a _)
      Writes-cond (BoolExpr.subquery c t d e) out =
          Writes-emit_before _ (slots_cond e)
            (Writes-emit_after ")" (slots_cond e) (Writes-cond e _))
      Writes-cond (BoolExpr.subquery_join c t d joins e) out =
          Writes-emit_after ")" (slots_cond e) (
            Writes-emit_before _ (slots_cond e) (
              Writes-trans [] (slots_cond e) (Writes-column d _) (
                Writes-emit_before _ (slots_cond e) (
                  Writes-trans [] (slots_cond e) (Writes-joins joins _)
                    (Writes-emit_before " WHERE " (slots_cond e) (Writes-cond e _))))))
      Writes-cond (BoolExpr.in_ c vals) out =
          Writes-emit_before _ (slots_vals vals)
            (Writes-emit_after ")" (slots_vals vals) (Writes-vals (length vals) vals _))

      Writes-conds :
          (cs : BoolExprs X) (n : ℕ) (out : Out X P)
          → Writes (slots_conds cs) out (sql_for_conds cs n out)
      Writes-conds BoolExprs.nil n out = Writes-none out
      Writes-conds (BoolExprs.cons c cs) n out =
          Writes-trans (slots_cond c) (slots_conds cs) (Writes-cond c out)
            (elim (Bool-cases (ltb 1 n)) [
              | inl more ↦ rw more (Writes-emit_before " AND " _ (Writes-conds cs (n - 1) _))
              | inr last ↦ rw last (Writes-conds cs n _)
            ])

    -- Rendering an expression hands over exactly the values of its open places, in reading order, and
    -- takes one placeholder for each open place.
    pub sql_for_expr_writes :
        (e : Expr X) (out : Out X P)
        → ((sql_for_expr e out).values ≡ out.values ++ filled (slots e))
          × ((sql_for_expr e out).pls ≡ after P (length (slots e)) out.pls)
    sql_for_expr_writes e out = let h = Writes-expr e out in (h.values, h.pls)
