-- ===== src/Schema/Diff/Steps.antt =====
-- What each run of table operations in a difference does to the table that a name finds.
use mathlib.Core.List.{foldl-append}
use mathlib.Core.Option.{some-injective}
use butane.Prelude.{
  String, Option, none, some, List, [], ◌∷◌, map, foldl, any, contains, eq_iff, if◌then◌else◌, ◌≡◌,
  refl, sym, arith, Bool-cases, inl, inr,
}
use butane.Prelude.Ord.{same, same_iff, string_ord}
use butane.Prelude.Partial.{>>=-eq-some, collect_ops, collect_ops-nil, collect_ops-cons}
use butane.Map
use butane.Map.{get-insert, get-remove}
use butane.Value.{Externals}
use butane.Schema.Types.{ATable, Adb, Operation}
use butane.Schema.Operations.{transform_with, get_table}
use butane.Schema.Diff.{added_table, removed_constraints, added_constraints, has_reference}

module _ {X : Externals} where
  -- Each table stands under its own name.
  abbrev pub IsKeyed : Adb X → Type 0
  IsKeyed db = (t : String) (table : ATable X) → get_table t db ≡ some table → table.name ≡ t

  abbrev pub apply_ops : List (Operation X) → Adb X → Adb X
  apply_ops ops db = foldl transform_with db ops

  added_table_inv :
      (new : Adb X) (x : String) (front : List (Operation X))
      → added_table new x ≡ some front
      → (table : ATable X) × (get_table x new ≡ some table)
        × (front ≡ Operation.add_table table ∷ [])
  unfolding added_table get_table
  added_table_inv new x front h =
      let (table, found, e) = >>=-eq-some (Map.get x new.tables) _ h in
      (table, found, sym (some-injective _ _ e))

  pub get_table-add_table :
      (table : ATable X) (db : Adb X) (t : String)
      → get_table t (transform_with db (Operation.add_table table))
        ≡ (if same table.name t then some table else get_table t db)
  unfolding get_table transform_with
  get_table-add_table table db t = get-insert table.name t table db.tables

  pub get_table-remove_table :
      (name : String) (db : Adb X) (t : String)
      → get_table t (transform_with db (Operation.remove_table name))
        ≡ (if same name t then none else get_table t db)
  unfolding get_table transform_with
  get_table-remove_table name db t = get-remove name t db.tables

  pub get_table-added :
      (new : Adb X)
      → IsKeyed new
      → (xs : List String) (ops : List (Operation X)) (db : Adb X) (t : String)
      → collect_ops (added_table new) xs ≡ some ops
      → get_table t (apply_ops ops db) ≡ (if contains t xs then get_table t new else get_table t db)
  unfolding contains
  get_table-added new keyed [] ops db t h = rw (collect_ops-nil (added_table new) ops h)
  get_table-added new keyed (x ∷ xs) ops db t h =
      let (front, back, hx, hxs, e) = collect_ops-cons (added_table new) x xs ops h in
      let (table, found, ef) = added_table_inv new x front hx in
      rw (e, ef)
        (ground (
          arith,
          get_table-added new keyed xs back (transform_with db (Operation.add_table table)) t hxs,
          get_table-add_table table db t,
          keyed x table found,
          same_iff x t,
          eq_iff x t,
        ))

  -- A loop whose every round leaves the schema as it is leaves it as it is.
  apply_ops-inert :
      (f : String → Option (List (Operation X))) (db : Adb X)
      → ((x : String) (front : List (Operation X)) → f x ≡ some front → apply_ops front db ≡ db)
      → (xs : List String) (ops : List (Operation X)) → collect_ops f xs ≡ some ops
      → apply_ops ops db ≡ db
  apply_ops-inert f db keep [] ops h = rw (collect_ops-nil f ops h)
  apply_ops-inert f db keep (x ∷ xs) ops h =
      let (front, back, hx, hxs, e) = collect_ops-cons f x xs ops h in
      rw (e, foldl-append, keep x front hx) (apply_ops-inert f db keep xs back hxs)

  pub apply_ops-removed_constraints :
      (old db : Adb X) (xs : List String) (ops : List (Operation X))
      → collect_ops (removed_constraints old) xs ≡ some ops
      → apply_ops ops db ≡ db
  unfolding removed_constraints transform_with
  apply_ops-removed_constraints old db = apply_ops-inert (removed_constraints old) db λ x front h.
      let (table, found, e) = >>=-eq-some (Map.get x old.tables) _ h in rw (← some-injective _ _ e)

  pub apply_ops-added_constraints :
      (new db : Adb X) (xs : List String) (ops : List (Operation X))
      → collect_ops (added_constraints new) xs ≡ some ops
      → apply_ops ops db ≡ db
  unfolding added_constraints transform_with
  apply_ops-added_constraints new db = apply_ops-inert (added_constraints new) db λ x front h.
      let (table, found, e) = >>=-eq-some (Map.get x new.tables) _ h in
      elim (Bool-cases (any has_reference table.columns)) [
        | inl p ↦ rw (← some-injective _ _ (rw p at e))
        | inr p ↦ rw (← some-injective _ _ (rw p at e))
      ]

  pub get_table-removed :
      (xs : List String) (db : Adb X) (t : String)
      → get_table t (apply_ops (map Operation.remove_table xs) db)
        ≡ (if contains t xs then none else get_table t db)
  unfolding contains
  get_table-removed [] db t = refl
  get_table-removed (x ∷ xs) db t = ground (
    arith,
    get_table-removed xs (transform_with db (Operation.remove_table x)) t,
    get_table-remove_table x db t,
    same_iff x t,
    eq_iff x t,
  )
