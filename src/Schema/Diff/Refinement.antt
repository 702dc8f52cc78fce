-- ===== src/Schema/Diff/Refinement.antt =====
-- The contract of `diff`: a list of operations that leads from the old schema to the new one, and no
-- operation where the two schemas are one.
use butane.Prelude.{String, some, List, [], ◌∷◌, foldl, ◌≡◌, refl, arith, inl, inr, Option-cases}
use butane.Value.{Externals}
use butane.Schema.Types.{ATable, Adb, Operation}
use butane.Schema.Table.{add_column, remove_column, replace_column}
use butane.Map
use butane.Map.{get-insert, get-remove, get-modify}
use butane.Prelude.Ord.{same_iff, string_ord}
use butane.Schema.Operations.{get_table, transform_with}
use butane.Schema.Diff.{diff}
use butane.Schema.Diff.Steps.{IsKeyed, apply_ops}
use butane.Schema.Diff.Correct.{SameTable, diff-Parts, reaches}
use butane.Schema.Diff.Total.{diff_total}

module _ {X : Externals} where
  extra_types-apply_ops :
      (ops : List (Operation X)) (db : Adb X) → (apply_ops ops db).extra_types ≡ db.extra_types
  unfolding transform_with
  extra_types-apply_ops [] db = refl
  extra_types-apply_ops (Operation.add_table t ∷ ops) db = extra_types-apply_ops ops _
  extra_types-apply_ops (Operation.add_table_if_not_exists t ∷ ops) db = extra_types-apply_ops ops _
  extra_types-apply_ops (Operation.remove_table t ∷ ops) db = extra_types-apply_ops ops _
  extra_types-apply_ops (Operation.add_column t c ∷ ops) db = extra_types-apply_ops ops _
  extra_types-apply_ops (Operation.remove_column t c ∷ ops) db = extra_types-apply_ops ops _
  extra_types-apply_ops (Operation.change_column t b c ∷ ops) db = extra_types-apply_ops ops _
  extra_types-apply_ops (_ ∷ ops) db = extra_types-apply_ops ops db

  -- For two schemas whose tables stand under their own names, `diff` does not panic, and its
  -- operations, applied in order to the old schema, give for every name a table exactly where the new
  -- schema has one, with the same column under every column name or one that the source's `==` finds
  -- equal to it. The extra types stay as they were.
  pub diff_reaches :
      (old new : Adb X)
      → IsKeyed old
      → IsKeyed new
      → (ops : List (Operation X)) × (diff old new ≡ some ops)
        × ((t : String) → SameTable (get_table t (foldl transform_with old ops)) (get_table t new))
        × ((foldl transform_with old ops).extra_types ≡ old.extra_types)
  diff_reaches old new keyed_old keyed_new =
      let (ops, h) = diff_total old new in
      (
        ops,
        h,
        λ t.
            reaches old new keyed_old keyed_new ops (diff-Parts old new ops h) t (get_table t old)
              (get_table t new) refl refl,
        extra_types-apply_ops ops old,
      )

  -- An edit that keeps a table's name keeps the tables under their names.
  edited-IsKeyed :
      (db : Adb X) (n : String) (f : ATable X → ATable X)
      → ((r : ATable X) → (f r).name ≡ r.name)
      → IsKeyed db
      → IsKeyed (record db { tables = Map.modify n f db.tables })
  unfolding get_table
  edited-IsKeyed db n f keeps h t table e = elim (Option-cases (Map.get t db.tables)) [
    | inl gone ↦ ground (arith, get-modify n t f db.tables)
    | inr (r, here) ↦ ground (arith, get-modify n t f db.tables, h t r here, keeps r, h t table)
  ]

  -- In a schema whose tables stand under their own names, every operation leaves each table under its
  -- own name.
  pub transform_with-IsKeyed :
      (db : Adb X) (op : Operation X) → IsKeyed db → IsKeyed (transform_with db op)
  unfolding transform_with get_table add_column replace_column remove_column
  transform_with-IsKeyed db (Operation.add_table n) h t table e =
      ground (arith, get-insert n.name t n db.tables, h t table, same_iff n.name t)
  transform_with-IsKeyed db (Operation.add_table_if_not_exists n) h t table e =
      ground (arith, get-insert n.name t n db.tables, h t table, same_iff n.name t)
  transform_with-IsKeyed db (Operation.remove_table n) h t table e =
      ground (arith, get-remove n t db.tables, h t table)
  transform_with-IsKeyed db (Operation.add_column n c) h t table e =
      edited-IsKeyed db n (add_column c) (λ r. refl) h t table e
  transform_with-IsKeyed db (Operation.remove_column n c) h t table e =
      edited-IsKeyed db n (remove_column c) (λ r. refl) h t table e
  transform_with-IsKeyed db (Operation.change_column n b c) h t table e =
      edited-IsKeyed db n (replace_column c) (λ r. refl) h t table e
  transform_with-IsKeyed db (Operation.add_table_constraints _) h t table e = h t table e
  transform_with-IsKeyed db (Operation.remove_table_constraints _) h t table e = h t table e
