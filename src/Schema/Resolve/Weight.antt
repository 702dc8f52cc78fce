-- ===== src/Schema/Resolve/Weight.antt =====
-- What is left to find: keys that the resolver does not know and types that are not known. A visit
-- that changes something leaves less.
use butane.Prelude.{
  ℕ, ◌+◌, ◌≤◌, Bool, true, false, ◌||◌, Option, none, some, List, [], ◌∷◌, Option-cases, ◌≡◌, refl,
  arith, inl, inr,
}
use butane.Prelude.Ord.{same_iff}
use butane.Map
use butane.Map.{get-insert}
use butane.Value.{Externals}
use butane.Schema.Keys.{TypeKey, key_ord}
use butane.Schema.Types.{TypeIdentifier, DeferredSqlType, AColumn}
use butane.Schema.Resolve.Resolver.{
  TypeResolver, find_type, insert, resolve, is_known, resolved, resolve_type,
}
use butane.Schema.Resolve.Rounds.{resolve_columns}

abbrev pub one : Bool → ℕ
one true = 1
one false = 0

pub one-or : (a b : Bool) → one (a || b) ≤ one a + one b
one-or true true = omega arith
one-or true false = omega arith
one-or false b = omega arith

module _ {X : Externals} where
  abbrev pub absent : Option (TypeIdentifier X) → ℕ
  absent none = 1
  absent (some _) = 0

  abbrev pub missing : TypeKey → TypeResolver X → ℕ
  missing key r = absent (Map.get key r)

  -- The second resolver knows all the keys that the first knows.
  abbrev pub KnowsMore : TypeResolver X → TypeResolver X → Type 0
  KnowsMore r r' = (key : TypeKey) → missing key r' ≤ missing key r

  abbrev pub unknown : DeferredSqlType X → ℕ
  unknown (DeferredSqlType.deferred _) = 1
  unknown (DeferredSqlType.known _) = 0
  unknown (DeferredSqlType.known_id _) = 0

  abbrev pub unknowns : List (AColumn X) → ℕ
  unknowns [] = 0
  unknowns (c ∷ cs) = unknown c.sqltype + unknowns cs

  pub insert_weight :
      (key : TypeKey) (t : TypeIdentifier X) (r : TypeResolver X)
      → KnowsMore r (insert key t r).0
        × (one (insert key t r).1 + missing key (insert key t r).0 ≤ missing key r)
  unfolding insert
  insert_weight key t r = elim (Option-cases (Map.get key r)) [
    | inl new ↦
        rw (insert, new)
          (
            λ j. ground (arith, get-insert key j t r),
            ground (arith, get-insert key key t r, same_iff key key),
          )
    | inr (old, here) ↦
        let e : insert key t r ≡ (r, false) = rw (insert, here) refl in
        rw e (λ j. omega arith, omega arith)
  ]

  pub resolved_weight :
      (r : TypeResolver X) (old : DeferredSqlType X)
      → one (resolved r old).1 + unknown (resolved r old).0 ≤ unknown old
  unfolding resolved resolve is_known
  resolved_weight r (DeferredSqlType.known t) = omega arith
  resolved_weight r (DeferredSqlType.known_id t) = omega arith
  resolved_weight r (DeferredSqlType.deferred key) = elim (Option-cases (find_type key r)) [
    | inl e ↦ rw e (omega arith)
    | inr (t, e) ↦ rw e (omega arith)
  ]

  pub columns_weight :
      (r : TypeResolver X) (cs : List (AColumn X))
      → one (resolve_columns r cs).1 + unknowns (resolve_columns r cs).0 ≤ unknowns cs
  unfolding resolve_columns resolve_type
  columns_weight r [] = omega arith
  columns_weight r (c ∷ cs) = omega (
    arith,
    one-or (resolved r c.sqltype).1 (resolve_columns r cs).1,
    resolved_weight r c.sqltype,
    columns_weight r cs,
  )
