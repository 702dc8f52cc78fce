-- ===== src/Schema/Diff/Columns.antt =====
-- What column operations do to the columns that a name finds.
use butane.Prelude.{
  String, Bool, true, false, not, ◌&&◌, none, some, List, [], ◌∷◌, map, foldl, find, retain,
  contains, ◌==◌, if◌then◌else◌, ◌≡◌, refl, arith, eq_iff,
}
use butane.Prelude.Partial.{>>=-eq-some, collect_ops, collect_ops-nil, collect_ops-cons}
use mathlib.Core.List.{foldl-append}
use butane.Value.{Externals}
use butane.Schema.Types.{AColumn, ATable, Operation}
use butane.Schema.Table.{col_by_name, column, replace_in, replace_column, add_column, remove_column}
use butane.Schema.Equality.{column_eq}
use butane.Schema.Diff.{column_names, added_column, removed_column, changed_column}

module _ {X : Externals} where
  -- The edit of a table that a column operation makes.
  abbrev pub edit : ATable X → Operation X → ATable X
  edit table (Operation.add_column _ col) = add_column col table
  edit table (Operation.remove_column _ name) = remove_column name table
  edit table (Operation.change_column _ _ new) = replace_column new table
  edit table _ = table

  pub name-col_by_name :
      (cs : List (AColumn X)) (n : String) (c : AColumn X) → col_by_name cs n ≡ some c → c.name ≡ n
  unfolding col_by_name find
  name-col_by_name [] n c h = cc
  name-col_by_name (d ∷ cs) n c h = ground (arith, name-col_by_name cs n c, eq_iff d.name n)

  col_by_name-replace_in :
      (col : AColumn X) (cs : List (AColumn X)) (n : String)
      → col_by_name (replace_in col cs) n ≡ (if col.name == n then some col else col_by_name cs n)
  unfolding col_by_name find replace_in
  col_by_name-replace_in col [] n = refl
  col_by_name-replace_in col (c ∷ cs) n = ground (
    arith,
    col_by_name-replace_in col cs n,
    eq_iff c.name col.name,
    eq_iff c.name n,
    eq_iff col.name n,
  )

  col_by_name-retain :
      (m : String) (cs : List (AColumn X)) (n : String)
      → col_by_name (retain (λ c. not (c.name == m)) cs) n
        ≡ (if m == n then none else col_by_name cs n)
  unfolding col_by_name find retain
  col_by_name-retain m [] n = ground arith
  col_by_name-retain m (c ∷ cs) n =
      ground (arith, col_by_name-retain m cs n, eq_iff c.name m, eq_iff c.name n, eq_iff m n)

  pub contains-column_names :
      (cs : List (AColumn X)) (n : String)
      → contains n (column_names cs) ≡ elim (col_by_name cs n) [ none ↦ false | some _ ↦ true ]
  unfolding contains col_by_name find
  contains-column_names [] n = refl
  contains-column_names (c ∷ cs) n = ground (arith, contains-column_names cs n)

  pub column-add_column :
      (col : AColumn X) (t : ATable X) (n : String)
      → column (add_column col t) n ≡ (if col.name == n then some col else column t n)
  unfolding column add_column
  column-add_column col t n = col_by_name-replace_in col t.columns n

  pub column-replace_column :
      (col : AColumn X) (t : ATable X) (n : String)
      → column (replace_column col t) n ≡ (if col.name == n then some col else column t n)
  unfolding column replace_column
  column-replace_column col t n = col_by_name-replace_in col t.columns n

  pub column-remove_column :
      (m : String) (t : ATable X) (n : String)
      → column (remove_column m t) n ≡ (if m == n then none else column t n)
  unfolding column remove_column
  column-remove_column m t n = col_by_name-retain m t.columns n

module _ {X : Externals} (new : ATable X) where
  pub added_column_inv :
      (x : String) (front : List (Operation X))
      → added_column new x ≡ some front
      → (col : AColumn X) × (col_by_name new.columns x ≡ some col)
        × (front ≡ Operation.add_column new.name col ∷ [])
  unfolding added_column
  added_column_inv x front h =
      let (col, found, e) = >>=-eq-some (col_by_name new.columns x) _ h in (col, found, cc)

  -- After the added columns, a name among them finds the new column.
  pub column-added :
      (xs : List String) (ops : List (Operation X)) (t : ATable X) (n : String)
      → collect_ops (added_column new) xs ≡ some ops
      → column (foldl edit t ops) n
        ≡ (if contains n xs then col_by_name new.columns n else column t n)
  unfolding collect_ops added_column contains
  column-added [] ops t n h = rw (collect_ops-nil (added_column new) ops h)
  column-added (x ∷ xs) ops t n h =
      let (front, back, hx, hxs, e) = collect_ops-cons (added_column new) x xs ops h in
      let (col, found, ef) = added_column_inv x front hx in
      rw (e, ef)
        (ground (
          arith,
          column-added xs back (add_column col t) n hxs,
          column-add_column col t n,
          name-col_by_name new.columns x col found,
          eq_iff x n,
        ))

module _ {X : Externals} (old : ATable X) where
  pub column-removed :
      (xs : List String) (t : ATable X) (n : String)
      → column (foldl edit t (map (removed_column old) xs)) n
        ≡ (if contains n xs then none else column t n)
  unfolding removed_column contains
  column-removed [] t n = refl
  column-removed (x ∷ xs) t n =
      ground
        (arith, column-removed xs (remove_column x t) n, column-remove_column x t n, eq_iff x n)

module _ {X : Externals} (old new : ATable X) where
  -- Both tables have the column, and the two differ.
  abbrev pub differs : String → Bool
  differs n = elim (col_by_name new.columns n) [
    | none ↦ false
    | some a ↦ elim (col_by_name old.columns n) [ none ↦ false | some b ↦ not (column_eq a b) ]
  ]

  abbrev pub change_ops : (a b : AColumn X) → List (Operation X)
  change_ops a b = if column_eq a b then [] else Operation.change_column new.name b a ∷ []

  pub changed_column_inv :
      (x : String) (front : List (Operation X))
      → changed_column old new x ≡ some front
      → (a : AColumn X) × (b : AColumn X) × (col_by_name new.columns x ≡ some a)
        × (col_by_name old.columns x ≡ some b)
        × (front ≡ change_ops a b)
  unfolding changed_column
  changed_column_inv x front h =
      let (a, ha, h') = >>=-eq-some (col_by_name new.columns x) _ h in
      let (b, hb, e) = >>=-eq-some (col_by_name old.columns x) _ h' in (a, b, ha, hb, ground arith)

  column-change_ops :
      (a b : AColumn X) (t : ATable X) (n : String)
      → column (foldl edit t (change_ops a b)) n
        ≡ (if a.name == n && not (column_eq a b) then some a else column t n)
  column-change_ops a b t n = ground (arith, column-replace_column a t n)

  pub column-changed :
      (xs : List String) (ops : List (Operation X)) (t : ATable X) (n : String)
      → collect_ops (changed_column old new) xs ≡ some ops
      → column (foldl edit t ops) n
        ≡ (if contains n xs && differs n then col_by_name new.columns n else column t n)
  unfolding contains
  column-changed [] ops t n h = rw (collect_ops-nil (changed_column old new) ops h)
  column-changed (x ∷ xs) ops t n h =
      let (front, back, hx, hxs, e) = collect_ops-cons (changed_column old new) x xs ops h in
      let (a, b, ha, hb, ef) = changed_column_inv x front hx in
      rw (e, foldl-append, ef)
        (ground (
          arith,
          column-changed xs back (foldl edit t (change_ops a b)) n hxs,
          column-change_ops a b t n,
          name-col_by_name new.columns x a ha,
          eq_iff x n,
        ))
