-- ===== src/Schema/Diff/Tables.antt =====
-- What the operations of `diff_table` do to a table.
use mathlib.Core.List.{foldl-append}
use butane.Prelude.{
  String, Bool, true, not, ◌&&◌, ◌⊎◌, Option, none, some, List, ◌++◌, map, foldl, contains,
  if◌then◌else◌, ◌≡◌, sym, arith,
}
use mathlib.Core.Option.{some-injective}
use butane.Prelude.Ord.{string_ord}
use butane.Prelude.Partial.{>>=-eq-some, collect_ops}
use butane.Names
use butane.Names.{
  difference, intersection, contains-collect, contains-difference, contains-intersection,
}
use butane.Value.{Externals}
use butane.Schema.Types.{AColumn, ATable, Operation}
use butane.Schema.Table.{col_by_name, column}
use butane.Schema.Equality.{column_eq}
use butane.Schema.Diff.{column_names, added_column, removed_column, changed_column, diff_table}
use butane.Schema.Diff.Columns.{
  edit, contains-column_names, column-added, column-removed, column-changed, differs,
}

module _ {X : Externals} where
  -- The column that was reached, against the one that was wanted: the same, or equal by the test
  -- that the source compares columns with.
  abbrev pub SameColumn : Option (AColumn X) → Option (AColumn X) → Type 0
  SameColumn none none = Unit
  SameColumn (some a) (some b) = (a ≡ b) ⊎ (column_eq b a ≡ true)
  SameColumn _ _ = ⊥

  abbrev pub SameColumns : ATable X → ATable X → Type 0
  SameColumns t new = (n : String) → SameColumn (column t n) (column new n)

  -- Each column is still the old one, or is done already.
  abbrev pub Between : ATable X → ATable X → ATable X → Type 0
  Between old new t =
      (n : String) → (column t n ≡ column old n) ⊎ SameColumn (column t n) (column new n)

  module _ (old new : ATable X) where
    abbrev pub new_names : List String
    new_names = Names.collect (column_names new.columns)

    abbrev pub old_names : List String
    old_names = Names.collect (column_names old.columns)

    pub diff_table_inv :
        (ops : List (Operation X))
        → diff_table old new ≡ some ops
        → (added : List (Operation X)) × (changed : List (Operation X)) × (collect_ops
              (added_column new)
              (difference new_names old_names)
            ≡ some added)
          × (collect_ops (changed_column old new) (intersection new_names old_names) ≡ some changed)
          × (ops ≡ added ++ map (removed_column old) (difference old_names new_names) ++ changed)
    unfolding diff_table
    diff_table_inv ops h =
        let (added, ha, h') =
          >>=-eq-some (collect_ops (added_column new) (difference new_names old_names)) _ h in
        let (changed, hc, e) =
          >>=-eq-some (collect_ops (changed_column old new) (intersection new_names old_names)) _
            h' in
        (added, changed, ha, hc, sym (some-injective _ _ e))

    -- Which column a name finds after the operations, from the two lists of columns alone.
    abbrev column_after : Bool → Bool → ATable X → String → Option (AColumn X)
    column_after o w t n =
        if w && o && differs old new n
        then col_by_name new.columns n
        else if o && not w
        then none
        else if w && not o
        then col_by_name new.columns n
        else column t n

    column-diff_table :
        (ops : List (Operation X)) (t : ATable X) (n : String)
        → diff_table old new ≡ some ops
        → column (foldl edit t ops) n
          ≡ column_after
              (contains n (column_names old.columns))
              (contains n (column_names new.columns))
              t
              n
    column-diff_table ops t n h =
        let (added, changed, ha, hc, e) = diff_table_inv ops h in
        let gone = difference old_names new_names in
        let t' = foldl edit t added in
        rw (e, foldl-append, foldl-append)
          (ground (
            arith,
            column-changed old new (intersection new_names old_names) changed
                (foldl edit t' (map (removed_column old) gone)) n hc,
            column-removed old gone t' n,
            column-added new (difference new_names old_names) added t n ha,
            contains-difference n new_names old_names,
            contains-difference n old_names new_names,
            contains-intersection n new_names old_names,
            contains-collect n (column_names new.columns),
            contains-collect n (column_names old.columns),
          ))

    -- From any table between the two, the operations reach the new columns.
    pub diff_table_reaches :
        (ops : List (Operation X)) (t : ATable X)
        → diff_table old new ≡ some ops
        → Between old new t
        → SameColumns (foldl edit t ops) new
    unfolding column
    diff_table_reaches ops t h near n = ground (
      arith,
      column-diff_table ops t n h,
      contains-column_names old.columns n,
      contains-column_names new.columns n,
      near n,
    )
