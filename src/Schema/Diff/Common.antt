-- ===== src/Schema/Diff/Common.antt =====
-- The tables that both schemas have: the operations of `diff_table`, one table after another.
use mathlib.Core.List.{foldl-append}
use mathlib.Core.Option
use butane.Prelude.{
  String, true, false, inl, inr, some, List, [], ◌∷◌, foldl, contains, ◌==◌, eq_iff, if◌then◌else◌,
  ◌≡◌, arith, Bool-cases, ◌∙◌,
}
use butane.Prelude.Ord.{same, same_iff, string_ord}
use butane.Prelude.Partial.{>>=-eq-some, collect_ops, collect_ops-nil, collect_ops-cons}
use butane.Map
use butane.Value.{Externals}
use butane.Schema.Types.{ATable, Adb, Operation}
use butane.Schema.Operations.{get_table}
use butane.Schema.Diff.{changed_table, diff_table}
use butane.Schema.Diff.Columns.{edit}
use butane.Schema.Diff.Tables.{SameColumns, Between, diff_table_reaches}
use butane.Schema.Diff.Targets.{diff_table-Targets, get_table-Targets}
use butane.Schema.Diff.Steps.{IsKeyed, apply_ops}

module _ {X : Externals} (old new : Adb X) where
  pub changed_table_inv :
      (x : String) (front : List (Operation X))
      → changed_table old new x ≡ some front
      → (o : ATable X) × (n : ATable X) × (get_table x old ≡ some o)
        × (get_table x new ≡ some n)
        × (diff_table o n ≡ some front)
  unfolding changed_table get_table
  changed_table_inv x front h =
      let (o, ho, h') = >>=-eq-some (Map.get x old.tables) _ h in
      let (n, hn, d) = >>=-eq-some (Map.get x new.tables) _ h' in (o, n, ho, hn, d)

  module _ (keyed_old : IsKeyed old) (keyed_new : IsKeyed new) (t : String) where
    -- One round edits the table of its name alone.
    get_table-changed :
        (x : String) (front : List (Operation X)) (db : Adb X)
        → changed_table old new x ≡ some front
        → get_table t (apply_ops front db) ≡ (
            if same x t
            then Option.map (λ table. foldl edit table front) (get_table t db)
            else get_table t db)
    get_table-changed x front db h =
        let (o, n, ho, hn, d) = changed_table_inv x front h in
        get_table-Targets x t front db
          (diff_table-Targets o n x front (keyed_old x o ho) (keyed_new x n hn) d)

    module _ (o n : ATable X) (ho : get_table t old ≡ some o) (hn : get_table t new ≡ some n) where
      -- The table is there, and each of its columns is the old one or done.
      abbrev pub NearAt : Adb X → Type 0
      NearAt db = (r : ATable X) × (get_table t db ≡ some r) × Between o n r

      abbrev pub DoneAt : Adb X → Type 0
      DoneAt db = (r : ATable X) × (get_table t db ≡ some r) × SameColumns r n

      round-DoneAt :
          (front : List (Operation X)) (db : Adb X)
          → changed_table old new t ≡ some front
          → NearAt db
          → DoneAt (apply_ops front db)
      round-DoneAt front db h (r, hr, near) =
          let (o', n', ho', hn', d) = changed_table_inv t front h in
          let d' : diff_table o n ≡ some front = ground (arith, d, ho', hn', ho, hn) in
          (
            foldl edit r front,
            ground (arith, get_table-changed t front db h, same_iff t t),
            diff_table_reaches o n front r d' near,
          )

      round_keeps :
          (x : String) (front : List (Operation X)) (db : Adb X)
          → changed_table old new x ≡ some front
          → (x == t) ≡ false
          → get_table t (apply_ops front db) ≡ get_table t db
      round_keeps x front db h ne =
          ground (arith, get_table-changed x front db h, same_iff x t, eq_iff x t)

      common-DoneAt_keeps :
          (xs : List String) (ops : List (Operation X)) (db : Adb X)
          → collect_ops (changed_table old new) xs ≡ some ops
          → DoneAt db
          → DoneAt (apply_ops ops db)
      common-DoneAt_keeps [] ops db h done = rw (collect_ops-nil (changed_table old new) ops h) done
      common-DoneAt_keeps (x ∷ xs) ops db h (r, hr, done) =
          let (front, back, hx, hxs, e) = collect_ops-cons (changed_table old new) x xs ops h in
          rw (e, foldl-append)
            (common-DoneAt_keeps xs back (apply_ops front db) hxs (elim (Bool-cases (x == t)) [
              | inl eq ↦
                  round-DoneAt front db (rw ((eq_iff x t).0 eq) at hx) (r, hr, λ k. inr (done k))
              | inr ne ↦ (r, round_keeps x front db hx ne ∙ hr, done)
            ]))

      pub common-DoneAt :
          (xs : List String) (ops : List (Operation X)) (db : Adb X)
          → collect_ops (changed_table old new) xs ≡ some ops
          → contains t xs ≡ true
          → NearAt db
          → DoneAt (apply_ops ops db)
      unfolding contains
      common-DoneAt [] ops db h m near = cc
      common-DoneAt (x ∷ xs) ops db h m (r, hr, near) =
          let (front, back, hx, hxs, e) = collect_ops-cons (changed_table old new) x xs ops h in
          rw (e, foldl-append)
            (elim (Bool-cases (x == t)) [
              | inl eq ↦
                  common-DoneAt_keeps xs back (apply_ops front db) hxs
                    (round-DoneAt front db (rw ((eq_iff x t).0 eq) at hx) (r, hr, near))
              | inr ne ↦
                  common-DoneAt xs back (apply_ops front db) hxs (ground arith)
                    (r, round_keeps x front db hx ne ∙ hr, near)
            ])

    pub common_others :
        (xs : List String) (ops : List (Operation X)) (db : Adb X)
        → collect_ops (changed_table old new) xs ≡ some ops
        → contains t xs ≡ false
        → get_table t (apply_ops ops db) ≡ get_table t db
    unfolding contains
    common_others [] ops db h m = rw (collect_ops-nil (changed_table old new) ops h)
    common_others (x ∷ xs) ops db h m =
        let (front, back, hx, hxs, e) = collect_ops-cons (changed_table old new) x xs ops h in
        rw (e, foldl-append)
          (common_others xs back (apply_ops front db) hxs (ground arith)
            ∙ ground (arith, get_table-changed x front db hx, same_iff x t, eq_iff x t))
