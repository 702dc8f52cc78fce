-- ===== src/Schema/Diff/Total.antt =====
-- The difference of two schemas never panics: each name that is looked up was taken from there.
use butane.Prelude.{
  String, true, false, not, ◌&&◌, Option, none, some, List, [], ◌∷◌, ◌++◌, map, contains, ◌≡◌, refl,
  arith, inl, inr, Bool-cases, any, sym, ◌∙◌,
}
use butane.Prelude.Ord.{string_ord}
use butane.Prelude.Partial.{collect_ops_total}
use butane.Map
use butane.Names.{
  difference, intersection, contains-collect, contains-difference, contains-intersection,
}
use butane.Value.{Externals}
use butane.Schema.Types.{AColumn, ATable, Adb, Operation}
use butane.Schema.Table.{col_by_name}
use butane.Schema.Operations.{get_table}
use butane.Schema.Diff.{
  column_names, added_column, removed_column, changed_column, diff_table, added_table,
  removed_constraints, changed_table, added_constraints, has_reference, diff,
}
use butane.Schema.Diff.Columns.{contains-column_names, change_ops}
use butane.Schema.Diff.Tables.{new_names, old_names}
use butane.Schema.Diff.Correct.{table_names, contains-table_names}

-- What a look-up that is known to succeed finds.
some_of {ℓ} :
    {A : Type ℓ} (o : Option A)
    → (elim o [ none ↦ false | some _ ↦ true ]) ≡ true
    → (a : A) × (o ≡ some a)
some_of none h = cc
some_of (some a) h = (a, refl)

-- A round of a loop does not panic.
abbrev Pushes : {X : Externals} → (String → Option (List (Operation X))) → String → Type 0
Pushes {X} f x = (front : List (Operation X)) × (f x ≡ some front)

module _ {X : Externals} (old new : ATable X) where
  found :
      (t : ATable X) (n : String)
      → contains n (column_names t.columns) ≡ true
      → (c : AColumn X) × (col_by_name t.columns n ≡ some c)
  found t n h = some_of (col_by_name t.columns n) (sym (contains-column_names t.columns n) ∙ h)

  added_column-Pushes :
      (n : String)
      → contains n (difference (new_names old new) (old_names old new)) ≡ true
      → Pushes (added_column new) n
  unfolding added_column
  added_column-Pushes n m =
      let (c, hc) = found new n (ground (arith, sets)) in
      (Operation.add_column new.name c ∷ [], rw hc)
    where
      sets :
          contains n (difference (new_names old new) (old_names old new))
          ≡ (contains n (column_names new.columns) && not (contains n (column_names old.columns)))
      sets = rw (contains-difference, contains-collect, contains-collect)

  changed_column-Pushes :
      (n : String)
      → contains n (intersection (new_names old new) (old_names old new)) ≡ true
      → Pushes (changed_column old new) n
  unfolding changed_column
  changed_column-Pushes n m =
      let (a, ha) = found new n (ground (arith, sets)) in
      let (b, hb) = found old n (ground (arith, sets)) in
      (change_ops old new a b, rw (ha, hb) (ground arith))
    where
      sets :
          contains n (intersection (new_names old new) (old_names old new))
          ≡ (contains n (column_names new.columns) && contains n (column_names old.columns))
      sets = rw (contains-intersection, contains-collect, contains-collect)

  pub diff_table_total : (ops : List (Operation X)) × (diff_table old new ≡ some ops)
  unfolding diff_table
  diff_table_total =
      let (added, ha) = collect_ops_total (added_column new) _ added_column-Pushes in
      let (changed, hc) = collect_ops_total (changed_column old new) _ changed_column-Pushes in
      (
        added
            ++ map (removed_column old) (difference (old_names old new) (new_names old new))
            ++ changed,
        rw (ha, hc),
      )

module _ {X : Externals} (old new : Adb X) where
  table_found :
      (db : Adb X) (t : String)
      → contains t (table_names db) ≡ true
      → (table : ATable X) × (Map.get t db.tables ≡ some table)
  unfolding get_table
  table_found db t h = some_of (Map.get t db.tables) (sym (contains-table_names t db) ∙ h)

  added_table-Pushes :
      (t : String)
      → contains t (difference (table_names new) (table_names old)) ≡ true
      → Pushes (added_table new) t
  unfolding added_table
  added_table-Pushes t m =
      let (table, h) =
        table_found new t
          (ground (arith, contains-difference t (table_names new) (table_names old))) in
      (Operation.add_table table ∷ [], rw h)

  removed_constraints-Pushes :
      (t : String)
      → contains t (difference (table_names old) (table_names new)) ≡ true
      → Pushes (removed_constraints old) t
  unfolding removed_constraints
  removed_constraints-Pushes t m =
      let (table, h) =
        table_found old t
          (ground (arith, contains-difference t (table_names old) (table_names new))) in
      (Operation.remove_table_constraints table ∷ [], rw h)

  changed_table-Pushes :
      (t : String)
      → contains t (intersection (table_names new) (table_names old)) ≡ true
      → Pushes (changed_table old new) t
  unfolding changed_table
  changed_table-Pushes t m =
      let facts = contains-intersection t (table_names new) (table_names old) in
      let (o, ho) = table_found old t (ground (arith, facts)) in
      let (n, hn) = table_found new t (ground (arith, facts)) in
      let (ops, h) = diff_table_total o n in (ops, rw (ho, hn) h)

  added_constraints-Pushes :
      (t : String)
      → contains t (difference (table_names new) (table_names old)) ≡ true
      → Pushes (added_constraints new) t
  unfolding added_constraints
  added_constraints-Pushes t m =
      let (table, h) =
        table_found new t
          (ground (arith, contains-difference t (table_names new) (table_names old))) in
      elim (Bool-cases (any has_reference table.columns)) [
        | inl p ↦ (Operation.add_table_constraints table ∷ [], rw (h, p))
        | inr p ↦ ([], rw (h, p))
      ]

  pub diff_total : (ops : List (Operation X)) × (diff old new ≡ some ops)
  unfolding diff
  diff_total =
      let (a, ha) = collect_ops_total (added_table new) _ added_table-Pushes in
      let (u, hu) = collect_ops_total (removed_constraints old) _ removed_constraints-Pushes in
      let (c, hc) = collect_ops_total (changed_table old new) _ changed_table-Pushes in
      let (k, hk) = collect_ops_total (added_constraints new) _ added_constraints-Pushes in
      (
        a
            ++ u
            ++ map Operation.remove_table (difference (table_names old) (table_names new))
            ++ c
            ++ k,
        rw (ha, hu, hc, hk),
      )
