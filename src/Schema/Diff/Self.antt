-- ===== src/Schema/Diff/Self.antt =====
-- The difference of a schema and itself.
use butane.Prelude.{
  String, Bool, true, false, Option, some, List, [], ◌∷◌, contains, retain, ◌≡◌, refl, arith,
  eq_refl,
}
use butane.Prelude.Ord.{string_ord}
use butane.Prelude.Partial.{collect_ops, collect_ops-nil, collect_ops-cons}
use butane.Names.{difference}
use butane.Value.{Externals}
use butane.Schema.Types.{AColumn, ATable, Adb, Operation}
use butane.Schema.Table.{col_by_name}
use butane.Schema.Operations.{get_table}
use butane.Schema.Equality.{column_eq_refl, HasComparableDefault}
use butane.Schema.Diff.{
  diff, diff_table, changed_column, changed_table, added_column, added_table, removed_constraints,
  added_constraints,
}
use butane.Schema.Diff.Columns.{changed_column_inv}
use butane.Schema.Diff.Tables.{diff_table_inv, new_names}
use butane.Schema.Diff.Common.{changed_table_inv}
use butane.Schema.Diff.Correct.{diff-Parts, table_names}
use butane.Schema.Diff.Total.{diff_total}

retain_none :
    (p : String → Bool) (a : List String)
    → ((k : String) → contains k a ≡ true → p k ≡ false)
    → retain p a ≡ []
unfolding retain contains
retain_none p [] h = refl
retain_none p (x ∷ a) h =
    ground (arith, h x, eq_refl x, retain_none p a (λ k m. h k (ground arith)))

difference_self : (a : List String) → difference a a ≡ []
unfolding difference
difference_self a = retain_none _ a (λ k m. rw m)

collect_ops_none {ℓ} :
    {B : Type ℓ} (f : String → Option (List B)) (xs : List String) (ops : List B)
    → collect_ops f xs ≡ some ops
    → ((x : String) (front : List B) → f x ≡ some front → front ≡ [])
    → ops ≡ []
collect_ops_none f [] ops h none_of = collect_ops-nil f ops h
collect_ops_none f (x ∷ xs) ops h none_of =
    let (front, back, hx, hxs, e) = collect_ops-cons f x xs ops h in
    rw (e, none_of x front hx, collect_ops_none f xs back hxs none_of)

-- A loop over the names that a set lacks of itself.
collect_ops_self {ℓ} :
    {B : Type ℓ} (f : String → Option (List B)) (a : List String) (ops : List B)
    → collect_ops f (difference a a) ≡ some ops
    → ops ≡ []
collect_ops_self f a ops h = collect_ops-nil f ops (rw difference_self at h)

module _ {X : Externals} where
  -- No default of the table's columns is a NaN.
  abbrev pub AllComparable : ATable X → Type 0
  AllComparable t =
      (n : String) (c : AColumn X) → col_by_name t.columns n ≡ some c → HasComparableDefault c

  changed_column_self :
      (t : ATable X) (n : String) (front : List (Operation X))
      → AllComparable t
      → changed_column t t n ≡ some front
      → front ≡ []
  changed_column_self t n front h e =
      let (a, b, ha, hb, ef) = changed_column_inv t t n front e in
      rw ef (ground (arith, ha, hb, column_eq_refl a (h n a ha)))

  diff_table_self :
      (t : ATable X) (ops : List (Operation X))
      → AllComparable t
      → diff_table t t ≡ some ops
      → ops ≡ []
  diff_table_self t ops h e =
      let (added, changed, ha, hc, together) = diff_table_inv t t ops e in
      rw (
        together,
        collect_ops_self (added_column t) (new_names t t) added ha,
        difference_self,
        collect_ops_none (changed_column t t) _ changed hc
            (λ n front. changed_column_self t n front h),
      )

  changed_table_self :
      (db : Adb X) (t : String) (front : List (Operation X))
      → ((s : String) (table : ATable X) → get_table s db ≡ some table → AllComparable table)
      → changed_table db db t ≡ some front
      → front ≡ []
  changed_table_self db t front h e =
      let (o, n, ho, hn, d) = changed_table_inv db db t front e in
      diff_table_self o front (h t o ho) (ground (arith, d, ho, hn))

  -- Between a schema and itself there is nothing to do, if no column's default is a NaN.
  pub diff_self :
      (db : Adb X)
      → ((s : String) (table : ATable X) → get_table s db ≡ some table → AllComparable table)
      → diff db db ≡ some []
  diff_self db h =
      let (ops, e) = diff_total db db in
      let p = diff-Parts db db ops e in
      let together : ops ≡ [] =
        rw
          (
            p.together,
            collect_ops_self (added_table db) (table_names db) p.added p.is_added,
            collect_ops_self (removed_constraints db) (table_names db) p.unconstrained
                p.is_unconstrained,
            collect_ops_self (added_constraints db) (table_names db) p.constrained p.is_constrained,
            difference_self,
            collect_ops_none (changed_table db db) _ p.changed p.is_changed
                (λ t front. changed_table_self db t front h),
          )
          refl in
      rw (← together) e
