-- ===== src/Sql/Grouping.antt =====
-- How the text of a condition groups its parts.
use butane.Prelude.{ℕ, suc, ◌-◌, true, ltb, ◌≡◌, refl, arith}
use butane.Value.{Externals}
use butane.Query.Types.{BoolExpr, BoolExprs}
use butane.Sql.Writer.{PlaceholderSource, Out, emit}
use butane.Sql.Expr.{sql_for_expr, sql_for_cond, sql_for_conds, count_conds}

more : (n : ℕ) → ltb 1 (suc (suc n)) ≡ true
more n = ground arith

less : (n : ℕ) → suc (suc n) - 1 ≡ suc n
less n = omega arith

module _ {X : Externals} where
  -- The conditions joined by nested `And`s, from the right.
  unfoldable pub nested : BoolExpr X → BoolExprs X → BoolExpr X
  nested c BoolExprs.nil = c
  nested c (BoolExprs.cons d ds) = BoolExpr.and c (nested d ds)

module _ {X : Externals} {P : PlaceholderSource} where
  sql_for_conds-nested :
      (c : BoolExpr X) (cs : BoolExprs X) (out : Out X P)
      → sql_for_conds (BoolExprs.cons c cs) (suc (count_conds cs)) out
        ≡ sql_for_cond (nested c cs) out
  unfolding sql_for_expr count_conds nested
  sql_for_conds-nested c BoolExprs.nil out = refl
  sql_for_conds-nested c (BoolExprs.cons d ds) out =
      rw (more (count_conds ds), less (count_conds ds))
        (sql_for_conds-nested d ds (emit " AND " (sql_for_cond c out)))

  -- `AllOf` has the text and the values of the `And`s of its conditions; of no conditions, none.
  pub sql_for_cond-all_of :
      (c : BoolExpr X) (cs : BoolExprs X) (out : Out X P)
      → (sql_for_cond (BoolExpr.all_of (BoolExprs.cons c cs)) out ≡ sql_for_cond (nested c cs) out)
        × (sql_for_cond (BoolExpr.all_of BoolExprs.nil) out ≡ out)
  unfolding sql_for_expr count_conds
  sql_for_cond-all_of c cs out = (sql_for_conds-nested c cs out, refl)

  -- No brackets are written round the parts of `And`, `Or` and `Not`: conditions that group their
  -- parts differently have one and the same text and values.
  pub sql_for_cond_ungrouped :
      (a b c : BoolExpr X) (out : Out X P)
      → (sql_for_cond (BoolExpr.and (BoolExpr.or a b) c) out
          ≡ sql_for_cond (BoolExpr.or a (BoolExpr.and b c)) out)
        × (sql_for_cond (BoolExpr.and a (BoolExpr.or b c)) out
            ≡ sql_for_cond (BoolExpr.or (BoolExpr.and a b) c) out)
        × (sql_for_cond (BoolExpr.not (BoolExpr.or a b)) out
            ≡ sql_for_cond (BoolExpr.or (BoolExpr.not a) b) out)
        × (sql_for_cond (BoolExpr.not (BoolExpr.and a b)) out
            ≡ sql_for_cond (BoolExpr.and (BoolExpr.not a) b) out)
  unfolding sql_for_expr
  sql_for_cond_ungrouped a b c out = (refl, refl, refl, refl)
