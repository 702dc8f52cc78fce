-- ===== src/Schema/Diff/Correct.antt =====
-- Applying the difference of two schemas to the old one reaches the new one.
use mathlib.Core.List.{foldl-append}
use mathlib.Core.Option.{some-injective}
use butane.Prelude.{
  String, Bool, true, false, inl, Option, none, some, List, [], ◌∷◌, ◌++◌, map, contains, eq_iff,
  ◌≡◌, refl, sym, arith, ◌∙◌, not, ◌&&◌, if◌then◌else◌,
}
use butane.Prelude.Ord.{same_iff, string_ord}
use butane.Prelude.Partial.{>>=-eq-some, collect_ops}
use butane.Map
use butane.Map.{find_entry}
use butane.Names
use butane.Names.{
  difference, intersection, contains-collect, contains-difference, contains-intersection,
}
use butane.Value.{Externals}
use butane.Schema.Types.{AColumn, ATable, Adb, Operation}
use butane.Schema.Table.{column}
use butane.Schema.Operations.{get_table}
use butane.Schema.Diff.{added_table, removed_constraints, changed_table, added_constraints, diff}
use butane.Schema.Diff.Tables.{SameColumn, SameColumns}
use butane.Schema.Diff.Steps.{
  IsKeyed, apply_ops, get_table-added, apply_ops-removed_constraints, apply_ops-added_constraints,
  get_table-removed,
}
use butane.Schema.Diff.Common.{common-DoneAt, common_others}

contains-keys {ℓ} :
    {V : Type ℓ} (t : String) (l : List (String × V))
    → contains t (map (λ e. e.0) l) ≡ elim (find_entry t l) [ none ↦ false | some _ ↦ true ]
unfolding contains find_entry
contains-keys t [] = refl
contains-keys t ((k, v) ∷ l) = ground (arith, contains-keys t l, eq_iff k t, same_iff t k)

module _ {X : Externals} where
  -- The table that was reached, against the one that was wanted.
  abbrev pub SameTable : Option (ATable X) → Option (ATable X) → Type 0
  SameTable none none = Unit
  SameTable (some a) (some b) = SameColumns a b
  SameTable _ _ = ⊥

  abbrev pub table_names : Adb X → List String
  table_names db = Names.collect (Map.keys db.tables)

  abbrev has_table : Adb X → String → Bool
  has_table db t = elim (get_table t db) [ none ↦ false | some _ ↦ true ]

  pub contains-table_names :
      (t : String) (db : Adb X)
      → contains t (table_names db) ≡ elim (get_table t db) [ none ↦ false | some _ ↦ true ]
  unfolding get_table Map.get
  contains-table_names t db =
      contains-collect t (Map.keys db.tables) ∙ contains-keys t db.tables.entries

  -- The five runs of operations that make up a difference.
  pub record Parts (old new : Adb X) (ops : List (Operation X)) : Type 0 where
    pub added : List (Operation X)
    pub unconstrained : List (Operation X)
    pub changed : List (Operation X)
    pub constrained : List (Operation X)
    pub is_added :
        collect_ops (added_table new) (difference (table_names new) (table_names old)) ≡ some added
    pub is_unconstrained :
        collect_ops (removed_constraints old) (difference (table_names old) (table_names new))
        ≡ some unconstrained
    pub is_changed :
        collect_ops (changed_table old new) (intersection (table_names new) (table_names old))
        ≡ some changed
    pub is_constrained :
        collect_ops (added_constraints new) (difference (table_names new) (table_names old))
        ≡ some constrained
    pub together :
        ops
        ≡ added
          ++ unconstrained
          ++ map Operation.remove_table (difference (table_names old) (table_names new))
          ++ changed
          ++ constrained

  pub diff-Parts :
      (old new : Adb X) (ops : List (Operation X)) → diff old new ≡ some ops → Parts old new ops
  unfolding diff
  diff-Parts old new ops h =
      let news = difference (table_names new) (table_names old) in
      let olds = difference (table_names old) (table_names new) in
      let (a, ha, h₁) = >>=-eq-some (collect_ops (added_table new) news) _ h in
      let (u, hu, h₂) = >>=-eq-some (collect_ops (removed_constraints old) olds) _ h₁ in
      let (c, hc, h₃) =
        >>=-eq-some
          (collect_ops (changed_table old new) (intersection (table_names new) (table_names old))) _
          h₂ in
      let (k, hk, e) = >>=-eq-some (collect_ops (added_constraints new) news) _ h₃ in
      record {
        added = a;
        unconstrained = u;
        changed = c;
        constrained = k;
        is_added = ha;
        is_unconstrained = hu;
        is_changed = hc;
        is_constrained = hk;
        together = sym (some-injective _ _ e);
      }

  module _ (old new : Adb X) (keyed_old : IsKeyed old) (keyed_new : IsKeyed new) where
    SameColumn-refl : (c : Option (AColumn X)) → SameColumn c c
    SameColumn-refl none = tt
    SameColumn-refl (some c) = inl refl

    module _ (ops : List (Operation X)) (p : Parts old new ops) (t : String) where
      -- the schema before the run over the common tables
      abbrev before_common : Adb X
      before_common =
          apply_ops (map Operation.remove_table (difference (table_names old) (table_names new)))
            (apply_ops p.added old)

      get_table-parts :
          get_table t (apply_ops ops old) ≡ get_table t (apply_ops p.changed before_common)
      get_table-parts = rw (
        p.together,
        foldl-append,
        foldl-append,
        foldl-append,
        foldl-append,
        apply_ops-added_constraints new _ _ _ p.is_constrained,
        apply_ops-removed_constraints old _ _ _ p.is_unconstrained,
      )

      get_table-before_common : get_table t before_common ≡ (
          if contains t (difference (table_names old) (table_names new))
          then none
          else if contains t (difference (table_names new) (table_names old))
          then get_table t new
          else get_table t old)
      get_table-before_common = ground (
        arith,
        get_table-removed (difference (table_names old) (table_names new)) (apply_ops p.added old)
            t,
        get_table-added new keyed_new _ p.added old t p.is_added,
      )

      get_table-ops_others :
          contains t (intersection (table_names new) (table_names old)) ≡ false
          → get_table t (apply_ops ops old) ≡ get_table t before_common
      get_table-ops_others h =
          get_table-parts ∙ common_others old new keyed_old keyed_new t _ p.changed _ p.is_changed h

      -- The three sets of names, read off the two tables.
      membership :
          (contains t (intersection (table_names new) (table_names old))
            ≡ (has_table new t && has_table old t))
          × (contains t (difference (table_names new) (table_names old))
              ≡ (has_table new t && not (has_table old t)))
          × (contains t (difference (table_names old) (table_names new))
              ≡ (has_table old t && not (has_table new t)))
      membership = (
        rw (contains-intersection, contains-table_names, contains-table_names),
        rw (contains-difference, contains-table_names, contains-table_names),
        rw (contains-difference, contains-table_names, contains-table_names),
      )

      pub reaches :
          (o n : Option (ATable X))
          → get_table t old ≡ o
          → get_table t new ≡ n
          → SameTable (get_table t (apply_ops ops old)) n
      reaches (some o) (some n) ho hn =
          let (r, hr, done) =
            common-DoneAt old new keyed_old keyed_new t o n ho hn _ p.changed before_common
              p.is_changed (ground (arith, membership))
              (o, ground (arith, membership, get_table-before_common), λ k. inl refl) in
          rw (get_table-parts, hr) done
      reaches none none ho hn =
          let e : get_table t before_common ≡ none =
            ground (arith, membership, get_table-before_common) in
          rw (get_table-ops_others (ground (arith, membership)), e) tt
      reaches (some o) none ho hn =
          let e : get_table t before_common ≡ none =
            ground (arith, membership, get_table-before_common) in
          rw (get_table-ops_others (ground (arith, membership)), e) tt
      reaches none (some n) ho hn =
          let e : get_table t before_common ≡ some n =
            ground (arith, membership, get_table-before_common) in
          rw (get_table-ops_others (ground (arith, membership)), e)
            (λ k. SameColumn-refl (column n k))
