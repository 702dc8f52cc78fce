-- ===== src/Schema/Resolve/Ends.antt =====
-- The rounds of `resolve_types` end, for no round but the last leaves as much to find as there was.
use butane.Prelude.{
  ℕ, zero, suc, ◌+◌, ◌*◌, ◌≤◌, ◌<◌, String, true, false, some, List, [], ◌∷◌, length, Result, ok,
  err, both_ok, Result-cases, Option-cases, ◌≡◌, refl, ap, ◌∙◌, arith, inl, inr, traverse,
}
use butane.Map
use butane.Map.{Map}
use butane.Value.{Externals, Fault}
use butane.Schema.Keys.{TypeKey, key_ord}
use butane.Schema.Types.{DeferredSqlType, AColumn, ATable, Adb}
use butane.Schema.Resolve.Resolver.{TypeResolver, resolve_reference_target}
use butane.Schema.Resolve.Rounds.{
  Rounds, round, rounds, resolve_references, verify, first_state, ended, schema_of, resolve_from,
  resolve_types,
}
use butane.Schema.Resolve.Weight.{missing, unknown, unknowns}
use butane.Schema.Resolve.Lighter.{tables_weight, types_weight, rounds_weight, round_weight}

length-traverse {ℓ κ ι} :
    {F : Type ℓ} {A : Type κ} {B : Type ι} (f : A → Result F B) (l : List A) (l' : List B)
    → traverse f l ≡ ok l'
    → length l' ≡ length l
unfolding traverse
length-traverse f [] l' h = let e : [] ≡ l' = cc in rw (← e) refl
length-traverse f (a ∷ l) l' h =
    let (b, _, h1) = both_ok (f a) _ h in
    let (rest, h2, h3) = both_ok (traverse f l) _ h1 in
    let e : b ∷ rest ≡ l' = cc in rw (← e) (omega (arith, length-traverse f l rest h2))

module _ {X : Externals} where
  rounds_end :
      (fuel : ℕ) (s : Rounds X)
      → rounds_weight s < fuel
      → (out : Result (Fault X) (Rounds X)) × (rounds fuel s ≡ some out)
  unfolding rounds
  rounds_end zero s less = absurd (omega arith)
  rounds_end (suc fuel) s less = elim (Result-cases (round s)) [
    | inl (f, e) ↦ (err f, rw (rounds, e) refl)
    | inr ((s', true), e) ↦
        let (out, end) = rounds_end fuel s' (omega (arith, round_weight s (s', true) e)) in
        (out, rw (rounds, e) end)
    | inr ((s', false), e) ↦ (ok s', rw (rounds, e) refl)
  ]

  -- A key and the columns of each table.
  abbrev pub tables_bound : List (String × ATable X) → ℕ
  tables_bound [] = 0
  tables_bound ((k, table) ∷ l) = 1 + length table.columns + tables_bound l

  -- How many rounds are enough.
  abbrev pub rounds_bound : Adb X → ℕ
  rounds_bound db = tables_bound db.tables.entries + 2 * length db.extra_types.entries

  missing_bound : (key : TypeKey) (r : TypeResolver X) → missing key r ≤ 1
  missing_bound key r = elim (Option-cases (Map.get key r)) [
    | inl e ↦ rw e (omega arith)
    | inr (t, e) ↦ rw e (omega arith)
  ]

  unknown_bound : (ty : DeferredSqlType X) → unknown ty ≤ 1
  unknown_bound (DeferredSqlType.deferred key) = omega arith
  unknown_bound (DeferredSqlType.known t) = omega arith
  unknown_bound (DeferredSqlType.known_id t) = omega arith

  unknowns_bound : (cs : List (AColumn X)) → unknowns cs ≤ length cs
  unknowns_bound [] = omega arith
  unknowns_bound (c ∷ cs) = omega (arith, unknown_bound c.sqltype, unknowns_bound cs)

  tables_weight_bound :
      (r : TypeResolver X) (l : List (String × ATable X)) → tables_weight r l ≤ tables_bound l
  tables_weight_bound r [] = omega arith
  tables_weight_bound r ((k, table) ∷ l) = omega (
    arith,
    missing_bound (TypeKey.pk table.name) r,
    unknowns_bound table.columns,
    tables_weight_bound r l,
  )

  types_weight_bound :
      (r : TypeResolver X) (l : List (TypeKey × DeferredSqlType X))
      → types_weight r l ≤ 2 * length l
  types_weight_bound r [] = omega arith
  types_weight_bound r ((key, ty) ∷ l) =
      omega (arith, missing_bound key r, unknown_bound ty, types_weight_bound r l)

  tables_bound-resolve_references :
      (extra_types : Map TypeKey (DeferredSqlType X)) (current : Map String (ATable X))
      (l l' : List (String × ATable X))
      → resolve_references extra_types current l ≡ ok l'
      → tables_bound l' ≡ tables_bound l
  unfolding resolve_references
  tables_bound-resolve_references extra_types current [] l' h =
      let e : [] ≡ l' = cc in rw (← e) refl
  tables_bound-resolve_references extra_types current ((k, table) ∷ l) l' h =
      let (columns, h1, h2) =
        both_ok (traverse (resolve_reference_target extra_types current) table.columns) _ h in
      let (rest, h3, h4) = both_ok (resolve_references extra_types current l) _ h2 in
      let e : (k, record table { columns = columns }) ∷ rest ≡ l' = cc in
      rw (← e) (
        omega (
          arith,
          length-traverse (resolve_reference_target extra_types current) table.columns columns h1,
          tables_bound-resolve_references extra_types current l rest h3,
        ))

  pub first_weight_bound :
      (db : Adb X) (tables : List (String × ATable X))
      → resolve_references db.extra_types db.tables db.tables.entries ≡ ok tables
      → rounds_weight (first_state db tables) ≤ rounds_bound db
  first_weight_bound db tables e = omega (
    arith,
    tables_bound-resolve_references db.extra_types db.tables db.tables.entries tables e,
    tables_weight_bound Map.empty tables,
    types_weight_bound Map.empty db.extra_types.entries,
  )

  last_state :
      (db : Adb X) (out : Result (Fault X) (Rounds X))
      → (last : Adb X × Result (Fault X) (Unit {0})) × (ended db (some out) ≡ some last)
  last_state db (err f) = ((db, err f), refl)
  last_state db (ok s) = ((schema_of s, verify s.tables), refl)

  -- With fuel above the number of tables and of their columns and twice the number of declared types,
  -- `resolve_types` ends.
  pub resolve_types_ends :
      (fuel : ℕ) (db : Adb X)
      → rounds_bound db < fuel
      → (out : Adb X × Result (Fault X) (Unit {0})) × (resolve_types fuel db ≡ some out)
  unfolding resolve_types
  resolve_types_ends fuel db enough =
      let refs = resolve_references db.extra_types db.tables db.tables.entries in
      elim (Result-cases refs) [
        | inl (f, e) ↦ ((db, err f), ap (resolve_from fuel db) e)
        | inr (tables, e) ↦
            let s = first_state db tables in
            let (out, end) = rounds_end fuel s (omega (arith, first_weight_bound db tables e)) in
            let (last, known) = last_state db out in
            (last, ap (resolve_from fuel db) e ∙ ap (ended db) end ∙ known)
      ]
