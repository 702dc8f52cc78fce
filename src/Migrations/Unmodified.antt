-- ===== src/Migrations/Unmodified.antt =====
-- `modified_tables` of `create_migration_to`: what it leaves out has not changed.
use mathlib.Core.Path.{subst}
use butane.Prelude.{
  String, true, false, none, some, List, [], ◌∷◌, ◌++◌, any, contains, eq_iff, ◌||◌, Bool-cases,
  inl, inr, ◌⊎◌, ◌≡◌, refl, arith,
}
use butane.Prelude.Ord.{same_iff, string_ord}
use butane.Map
use butane.Map.{get-insert, get-remove, get-modify}
use butane.Value.{Externals}
use butane.Schema.Types.{ATable, Adb, Operation}
use butane.Schema.Table.{add_column, remove_column, replace_column}
use butane.Schema.Operations.{new_adb, get_table, transform_with}
use butane.Schema.Diff.{diff}
use butane.Schema.Diff.Steps.{IsKeyed, apply_ops}
use butane.Schema.Diff.Correct.{SameTable}
use butane.Schema.Diff.Refinement.{diff_reaches}
use butane.Migrations.Create.{modified, modified_tables}

contains-append :
    (k : String) (l r : List String) → contains k (l ++ r) ≡ (contains k l || contains k r)
unfolding contains any
contains-append k [] r = refl
contains-append k (j ∷ l) r = ground (arith, contains-append k l r)

module _ {X : Externals} where
  -- The table is as before, or gone.
  abbrev pub Stays : Adb X → Adb X → String → Type 0
  Stays db db' t = (get_table t db' ≡ get_table t db) ⊎ (get_table t db' ≡ none)

  edited-Stays :
      (n : String) (f : ATable X → ATable X) (db : Adb X) (t : String)
      → contains t (n ∷ []) ≡ false
      → Stays db (record db { tables = Map.modify n f db.tables }) t
  unfolding contains any get_table
  edited-Stays n f db t h =
      inl (ground (arith, get-modify n t f db.tables, same_iff n t, eq_iff n t))

  step-Stays :
      (o : Operation X) (db : Adb X) (t : String)
      → contains t (modified o) ≡ false
      → Stays db (transform_with db o) t
  unfolding contains any get_table transform_with
  step-Stays (Operation.add_table table) db t h =
      ground
        (arith, get-insert table.name t table db.tables, same_iff table.name t, eq_iff table.name t)
  step-Stays (Operation.add_table_constraints table) db t h = inl refl
  step-Stays (Operation.add_table_if_not_exists table) db t h =
      ground
        (arith, get-insert table.name t table db.tables, same_iff table.name t, eq_iff table.name t)
  step-Stays (Operation.remove_table name) db t h = ground (arith, get-remove name t db.tables)
  step-Stays (Operation.remove_table_constraints table) db t h = inl refl
  step-Stays (Operation.add_column table col) db t h = edited-Stays table (add_column col) db t h
  step-Stays (Operation.remove_column table col) db t h =
      edited-Stays table (remove_column col) db t h
  step-Stays (Operation.change_column table old new) db t h =
      edited-Stays table (replace_column new) db t h

  ops-Stays :
      (ops : List (Operation X)) (db : Adb X) (t : String)
      → contains t (modified_tables ops) ≡ false
      → Stays db (apply_ops ops db) t
  unfolding modified_tables
  ops-Stays [] db t h = inl refl
  ops-Stays (o ∷ ops) db t h =
      let now =
        step-Stays o db t (ground (arith, contains-append t (modified o) (modified_tables ops))) in
      let later =
        ops-Stays ops (transform_with db o) t
          (ground (arith, contains-append t (modified o) (modified_tables ops))) in
      ground (arith)

  -- A table of the new schema that is not among the modified ones stands in the old schema too, with
  -- the same column under every column name or one that the source's `==` finds equal to it, for two
  -- schemas whose tables stand under their own names.
  pub modified_tables-SameTable :
      (old new : Adb X) (ops : List (Operation X)) (t : String) (table : ATable X)
      → IsKeyed old
      → IsKeyed new
      → diff old new ≡ some ops
      → get_table t new ≡ some table
      → contains t (modified_tables ops) ≡ false
      → SameTable (get_table t old) (some table)
  modified_tables-SameTable old new ops t table keyed_old keyed_new h here unmodified =
      let (ops', h', reached, _) = diff_reaches old new keyed_old keyed_new in
      let same_ops : ops' ≡ ops = cc in
      let at_end = reached t in
      let wanted : SameTable (get_table t (apply_ops ops old)) (some table) =
        subst (λ o. SameTable (get_table t (apply_ops ops old)) o) here
          (subst (λ l. SameTable (get_table t (apply_ops l old)) (get_table t new)) same_ops
            at_end) in
      elim (ops-Stays ops old t unmodified) [
        | inl as_before ↦ subst (λ o. SameTable o (some table)) as_before wanted
        | inr gone ↦ absurd (subst (λ o. SameTable o (some table)) gone wanted)
      ]

  get_table-new_adb : (t : String) → get_table {X = X} t new_adb ≡ none
  unfolding get_table Map.get Map.find_entry
  get_table-new_adb t = refl

  empty_has : (t : String) (table : ATable X) → get_table t new_adb ≡ some table → ⊥
  empty_has t table h = let e = get_table-new_adb t in cc

  -- From no schema, every table of the new schema is among the modified ones, so that saving it asks for
  -- no migration that it comes from.
  pub modified_tables_first :
      (new : Adb X) (ops : List (Operation X)) (t : String) (table : ATable X)
      → IsKeyed new
      → diff new_adb new ≡ some ops
      → get_table t new ≡ some table
      → contains t (modified_tables ops) ≡ true
  modified_tables_first new ops t table keyed h here =
      elim (Bool-cases (contains t (modified_tables ops))) [
        | inl e ↦ e
        | inr e ↦
            let keyed_empty : IsKeyed new_adb = λ t table found. absurd (empty_has t table found) in
            absurd (
              subst (λ o. SameTable o (some table)) (get_table-new_adb t)
                (modified_tables-SameTable new_adb new ops t table keyed_empty keyed h here e))
      ]
