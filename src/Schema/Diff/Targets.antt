-- ===== src/Schema/Diff/Targets.antt =====
-- Column operations change the one table that they name.
use mathlib.Core.Option
use butane.Prelude.{
  String, some, List, [], ◌∷◌, ◌++◌, map, foldl, if◌then◌else◌, ◌≡◌, arith, Bool-cases, inl, inr,
}
use butane.Prelude.Ord.{same, string_ord}
use butane.Prelude.Partial.{collect_ops, collect_ops-nil, collect_ops-cons}
use butane.Map
use butane.Map.{get-modify}
use butane.Value.{Externals}
use butane.Schema.Types.{AColumn, ATable, Adb, Operation}
use butane.Schema.Operations.{transform_with, get_table}
use butane.Schema.Table.{replace_column, add_column, remove_column}
use butane.Schema.Equality.{column_eq}
use butane.Schema.Diff.{added_column, removed_column, changed_column, diff_table}
use butane.Schema.Diff.Columns.{edit, change_ops, added_column_inv, changed_column_inv}
use butane.Schema.Diff.Tables.{diff_table_inv}

module _ {X : Externals} where
  -- Every operation is a column operation on the table.
  abbrev pub Targets : String → List (Operation X) → Type 0
  Targets t [] = Unit
  Targets t (Operation.add_column s _ ∷ ops) = (s ≡ t) × Targets t ops
  Targets t (Operation.remove_column s _ ∷ ops) = (s ≡ t) × Targets t ops
  Targets t (Operation.change_column s _ _ ∷ ops) = (s ≡ t) × Targets t ops
  Targets t (_ ∷ ops) = ⊥

  Targets-append :
      (t : String) (xs ys : List (Operation X)) → Targets t xs → Targets t ys → Targets t (xs ++ ys)
  Targets-append t [] ys h k = k
  Targets-append t (Operation.add_column s _ ∷ xs) ys h k = (h.0, Targets-append t xs ys h.1 k)
  Targets-append t (Operation.remove_column s _ ∷ xs) ys h k = (h.0, Targets-append t xs ys h.1 k)
  Targets-append t (Operation.change_column s _ _ ∷ xs) ys h k = (h.0, Targets-append t xs ys h.1 k)
  Targets-append t (Operation.add_table _ ∷ xs) ys h k = absurd h
  Targets-append t (Operation.add_table_if_not_exists _ ∷ xs) ys h k = absurd h
  Targets-append t (Operation.remove_table_constraints _ ∷ xs) ys h k = absurd h
  Targets-append t (Operation.remove_table _ ∷ xs) ys h k = absurd h
  Targets-append t (Operation.add_table_constraints _ ∷ xs) ys h k = absurd h

  Targets-added :
      (new : ATable X) (t : String)
      → new.name ≡ t
      → (xs : List String) (ops : List (Operation X)) → collect_ops (added_column new) xs ≡ some ops
      → Targets t ops
  Targets-added new t e [] ops h = rw (collect_ops-nil (added_column new) ops h) tt
  Targets-added new t e (x ∷ xs) ops h =
      let (front, back, hx, hxs, split) = collect_ops-cons (added_column new) x xs ops h in
      let (col, found, ef) = added_column_inv new x front hx in
      rw (split, ef) (e, Targets-added new t e xs back hxs)

  Targets-removed :
      (old : ATable X) (t : String)
      → old.name ≡ t
      → (xs : List String) → Targets t (map (removed_column old) xs)
  unfolding removed_column
  Targets-removed old t e [] = tt
  Targets-removed old t e (x ∷ xs) = (e, Targets-removed old t e xs)

  Targets-changed :
      (old new : ATable X) (t : String)
      → new.name ≡ t
      → (xs : List String) (ops : List (Operation X))
      → collect_ops (changed_column old new) xs ≡ some ops
      → Targets t ops
  Targets-changed old new t e [] ops h = rw (collect_ops-nil (changed_column old new) ops h) tt
  Targets-changed old new t e (x ∷ xs) ops h =
      let (front, back, hx, hxs, split) = collect_ops-cons (changed_column old new) x xs ops h in
      let (a, b, ha, hb, ef) = changed_column_inv old new x front hx in
      rw (split, ef)
        (Targets-append t (change_ops old new a b) back (Targets-change_ops a b)
          (Targets-changed old new t e xs back hxs))
    where
      Targets-change_ops : (a b : AColumn X) → Targets t (change_ops old new a b)
      Targets-change_ops a b = elim (Bool-cases (column_eq a b)) [
        | inl p ↦ rw p tt
        | inr p ↦ rw p (e, tt)
      ]

  pub diff_table-Targets :
      (old new : ATable X) (t : String) (ops : List (Operation X))
      → old.name ≡ t
      → new.name ≡ t
      → diff_table old new ≡ some ops
      → Targets t ops
  diff_table-Targets old new t ops ho hn h =
      let (added, changed, ha, hc, e) = diff_table_inv old new ops h in
      rw e (
        Targets-append t (added ++ _) changed
          (Targets-append t added _ (Targets-added new t hn _ added ha)
            (Targets-removed old t ho _))
          (Targets-changed old new t hn _ changed hc))

  get-transform_column :
      (t : String) (f : ATable X → ATable X) (db : Adb X) (j : String)
      → Map.get j (Map.modify t f db.tables)
        ≡ (if same t j then Option.map f (Map.get j db.tables) else Map.get j db.tables)
  get-transform_column t f db j = get-modify t j f db.tables

  -- Folded over a schema, such operations edit the table that they name, and no other.
  pub get_table-Targets :
      (t j : String) (ops : List (Operation X)) (db : Adb X)
      → Targets t ops
      → get_table j (foldl transform_with db ops) ≡ (
          if same t j
          then Option.map (λ table. foldl edit table ops) (get_table j db)
          else get_table j db)
  unfolding get_table transform_with
  get_table-Targets t j [] db h = ground arith
  get_table-Targets t j (Operation.add_column s c ∷ ops) db h = ground (
    arith,
    get_table-Targets t j ops (transform_with db (Operation.add_column s c)) h.1,
    get-transform_column s (add_column c) db j,
  )
  get_table-Targets t j (Operation.remove_column s c ∷ ops) db h = ground (
    arith,
    get_table-Targets t j ops (transform_with db (Operation.remove_column s c)) h.1,
    get-transform_column s (remove_column c) db j,
  )
  get_table-Targets t j (Operation.change_column s b c ∷ ops) db h = ground (
    arith,
    get_table-Targets t j ops (transform_with db (Operation.change_column s b c)) h.1,
    get-transform_column s (replace_column c) db j,
  )
  get_table-Targets t j (Operation.add_table _ ∷ xs) db h = absurd h
  get_table-Targets t j (Operation.add_table_if_not_exists _ ∷ xs) db h = absurd h
  get_table-Targets t j (Operation.remove_table_constraints _ ∷ xs) db h = absurd h
  get_table-Targets t j (Operation.remove_table _ ∷ xs) db h = absurd h
  get_table-Targets t j (Operation.add_table_constraints _ ∷ xs) db h = absurd h
