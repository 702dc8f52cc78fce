-- ===== src/Schema/Diff.antt =====
-- `diff` and `diff_table` of butane_core/src/migrations/adb.rs: the operations that lead from one
-- schema to another. A failed `unwrap` or `expect` is `none`.
pub mod Columns
pub mod Tables
pub mod Targets
pub mod Steps
pub mod Common
pub mod Correct
pub mod Total
pub mod Refinement
pub mod Self
use butane.Prelude.{
  String, Bool, true, false, Option, none, some, List, [], ◌∷◌, ◌++◌, map, any, if◌then◌else◌,
}
use butane.Prelude.Ord.{string_ord}
use butane.Prelude.Partial.{◌>>=◌, collect_ops}
use butane.Map
use butane.Names
use butane.Names.{difference, intersection}
use butane.Value.{Externals}
use butane.Schema.Types.{AColumn, ATable, Adb, Operation}
use butane.Schema.Table.{col_by_name}
use butane.Schema.Equality.{column_eq}

module _ {X : Externals} where
  abbrev pub column_names : List (AColumn X) → List String
  column_names columns = map (λ c. c.name) columns

  unfoldable pub added_column : ATable X → String → Option (List (Operation X))
  added_column new name = do
    col ← col_by_name new.columns name
    some (Operation.add_column new.name col ∷ [])

  unfoldable pub removed_column : ATable X → String → Operation X
  removed_column old name = Operation.remove_column old.name name

  unfoldable pub changed_column : ATable X → ATable X → String → Option (List (Operation X))
  changed_column old new name = do
    col ← col_by_name new.columns name
    old_col ← col_by_name old.columns name
    if column_eq col old_col
        then some []
        else some (Operation.change_column new.name old_col col ∷ [])

  unfoldable pub diff_table : ATable X → ATable X → Option (List (Operation X))
  unfolding added_column removed_column changed_column
  diff_table old new = do
    let new_names = Names.collect (column_names new.columns)
    let old_names = Names.collect (column_names old.columns)
    added ← collect_ops (added_column new) (difference new_names old_names)
    let removed = map (removed_column old) (difference old_names new_names)
    changed ← collect_ops (changed_column old new) (intersection new_names old_names)
    some (added ++ removed ++ changed)

  unfoldable pub added_table : Adb X → String → Option (List (Operation X))
  added_table new name = do table ← Map.get name new.tables; some (Operation.add_table table ∷ [])

  unfoldable pub removed_constraints : Adb X → String → Option (List (Operation X))
  removed_constraints old name = do
    table ← Map.get name old.tables
    some (Operation.remove_table_constraints table ∷ [])

  unfoldable pub changed_table : Adb X → Adb X → String → Option (List (Operation X))
  changed_table old new name = do
    old_table ← Map.get name old.tables
    new_table ← Map.get name new.tables
    diff_table old_table new_table

  unfoldable pub has_reference : AColumn X → Bool
  has_reference c = elim c.reference [ none ↦ false | some _ ↦ true ]

  unfoldable pub added_constraints : Adb X → String → Option (List (Operation X))
  unfolding has_reference
  added_constraints new name = do
    table ← Map.get name new.tables
    if any has_reference table.columns
        then some (Operation.add_table_constraints table ∷ [])
        else some []

  unfoldable pub diff : Adb X → Adb X → Option (List (Operation X))
  unfolding added_table removed_constraints changed_table added_constraints
  diff old new = do
    let new_names = Names.collect (Map.keys new.tables)
    let old_names = Names.collect (Map.keys old.tables)
    let new_tables = difference new_names old_names
    let removed_tables = difference old_names new_names
    added ← collect_ops (added_table new) new_tables
    unconstrained ← collect_ops (removed_constraints old) removed_tables
    let removed = map Operation.remove_table removed_tables
    changed ← collect_ops (changed_table old new) (intersection new_names old_names)
    constrained ← collect_ops (added_constraints new) new_tables
    some (added ++ unconstrained ++ removed ++ changed ++ constrained)
