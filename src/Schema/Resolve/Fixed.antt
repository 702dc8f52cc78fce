-- ===== src/Schema/Resolve/Fixed.antt =====
-- A schema in which everything is known is left as it is by `resolve_types`.
use butane.Prelude.{
  ℕ, zero, suc, ◌<◌, String, Bool, true, false, ◌||◌, Option, none, some, List, [], ◌∷◌, Result, ok,
  Result-cases, Option-cases, Bool-cases, ◌≡◌, refl, ap, ◌∙◌, arith, inl, inr, traverse,
}
use butane.Map.{Map}
use butane.Value.{Externals, Fault}
use butane.Schema.Keys.{TypeKey, key_ord}
use butane.Schema.Types.{TypeIdentifier, DeferredSqlType, ARef, AColumn, ATable, Adb}
use butane.Schema.Table.{pk_of, typeid, many_suffix}
use butane.Schema.Resolve.Resolver.{
  ends_with, TypeResolver, insert, is_known, resolved, resolve_type, resolved_reference,
  resolve_reference_target,
}
use butane.Schema.Resolve.Rounds.{
  Visit, learn_pk, resolve_columns, visit_table, visit_type, visit_values, Rounds, round, rounds,
  resolve_references, first_deferred, verify, first_state, ended, resolve_from, resolve_types,
}
use butane.Schema.Resolve.Lighter.{rounds_weight, round_weight}
use butane.Schema.Resolve.Ends.{rounds_bound, first_weight_bound}

module _ {X : Externals} where
  -- The reference does not wait for its table.
  abbrev pub HasTarget : Option (ARef X) → Type 0
  HasTarget none = Unit
  HasTarget (some (ARef.literal _)) = Unit
  HasTarget (some (ARef.deferred _)) = ⊥

  abbrev pub AllKnown : List (AColumn X) → Type 0
  AllKnown [] = Unit
  AllKnown (c ∷ cs) = (is_known c.sqltype ≡ true) × HasTarget c.reference × AllKnown cs

  -- The columns are known, and there is a key but in a table of links.
  abbrev pub IsSettled : ATable X → Type 0
  IsSettled table =
      AllKnown table.columns × (pk_of table ≡ none → ends_with table.name many_suffix ≡ true)

  abbrev pub AllSettled : List (String × ATable X) → Type 0
  AllSettled [] = Unit
  AllSettled ((k, table) ∷ l) = IsSettled table × AllSettled l

  abbrev pub AllTypesKnown : List (TypeKey × DeferredSqlType X) → Type 0
  AllTypesKnown [] = Unit
  AllTypesKnown ((k, t) ∷ l) = (is_known t ≡ true) × AllTypesKnown l

  module _ (extra_types : Map TypeKey (DeferredSqlType X)) (current : Map String (ATable X)) where
    settled_reference :
        (reference : Option (ARef X))
        → HasTarget reference
        → resolved_reference extra_types current reference ≡ ok reference
    unfolding resolved_reference
    settled_reference none h = refl
    settled_reference (some (ARef.literal l)) h = refl
    settled_reference (some (ARef.deferred t)) h = elim h [ ]

    settled_columns :
        (cs : List (AColumn X))
        → AllKnown cs
        → traverse (resolve_reference_target extra_types current) cs ≡ ok cs
    unfolding traverse resolve_reference_target
    settled_columns [] h = refl
    settled_columns (c ∷ cs) (known, target, h) =
        rw (settled_reference c.reference target, settled_columns cs h) refl

    settled_references :
        (l : List (String × ATable X))
        → AllSettled l
        → resolve_references extra_types current l ≡ ok l
    unfolding resolve_references
    settled_references [] h = refl
    settled_references ((k, table) ∷ l) ((known, keyed), h) =
        rw (settled_columns table.columns known, settled_references l h) refl

  known_stays :
      (r : TypeResolver X) (t : DeferredSqlType X) → is_known t ≡ true → resolved r t ≡ (t, false)
  unfolding resolved
  known_stays r t h = rw h refl

  columns_stay :
      (r : TypeResolver X) (cs : List (AColumn X))
      → AllKnown cs
      → resolve_columns r cs ≡ (cs, false)
  unfolding resolve_columns resolve_type
  columns_stay r [] h = refl
  columns_stay r (c ∷ cs) (known, target, h) =
      rw (known_stays r c.sqltype known, columns_stay r cs h) refl

  -- A visit that leaves the item as it is.
  abbrev pub Passes {ℓ} : {A : Type ℓ} → A → Result (Fault X) (Visit X A) → Type ℓ
  Passes a call = (r : TypeResolver X) × (b : Bool) × (call ≡ ok (r, a, b))

  learn_pk_goes :
      (table : ATable X) (r : TypeResolver X)
      → (pk_of table ≡ none → ends_with table.name many_suffix ≡ true)
      → (out : TypeResolver X × Bool) × (learn_pk table r ≡ ok out)
  unfolding learn_pk
  learn_pk_goes table r keyed = elim (Option-cases (pk_of table)) [
    | inl e ↦ ((r, false), rw (learn_pk, e, keyed e) refl)
    | inr (col, e) ↦ elim (Result-cases (typeid col)) [
      | inl (f, e') ↦ ((r, false), rw (learn_pk, e, e') refl)
      | inr (t, e') ↦ (insert (TypeKey.pk table.name) t r, rw (learn_pk, e, e') refl)
    ]
  ]

  visit_table-Passes :
      (table : ATable X)
      → IsSettled table
      → (r : TypeResolver X) → Passes table (visit_table r table)
  unfolding visit_table
  visit_table-Passes table (known, keyed) r =
      let (learnt, e) = learn_pk_goes table r keyed in
      (
        learnt.0,
        learnt.1 || false,
        rw (visit_table, e, columns_stay learnt.0 table.columns known) refl,
      )

  visit_type-Passes :
      (t : DeferredSqlType X) (key : TypeKey)
      → is_known t ≡ true
      → (r : TypeResolver X) → Passes t (ok (visit_type r t key))
  unfolding visit_type is_known
  visit_type-Passes (DeferredSqlType.known t) key h r =
      ((insert key (TypeIdentifier.ty t) r).0, (insert key (TypeIdentifier.ty t) r).1, refl)
  visit_type-Passes (DeferredSqlType.known_id t) key h r =
      ((insert key t r).0, (insert key t r).1, refl)
  visit_type-Passes (DeferredSqlType.deferred k) key h r = absurd (cc)

  tables_pass :
      (l : List (String × ATable X))
      → AllSettled l
      → (r : TypeResolver X) → Passes l (visit_values (λ r table _. visit_table r table) r l)
  unfolding visit_values
  tables_pass [] h r = (r, false, refl)
  tables_pass ((k, table) ∷ l) (settled, h) r =
      let (r1, b1, e1) = visit_table-Passes table settled r in
      let (r2, b2, e2) = tables_pass l h r1 in (r2, b1 || b2, rw (e1, e2) refl)

  types_pass :
      (l : List (TypeKey × DeferredSqlType X))
      → AllTypesKnown l
      → (r : TypeResolver X) → Passes l (visit_values (λ r ty key. ok (visit_type r ty key)) r l)
  unfolding visit_values
  types_pass [] h r = (r, false, refl)
  types_pass ((key, t) ∷ l) (known, h) r =
      let (r1, b1, e1) = visit_type-Passes t key known r in
      let (r2, b2, e2) = types_pass l h r1 in
      let same_out : visit_type r t key ≡ (r1, t, b1) = cc in (r2, b1 || b2, rw (same_out, e2) refl)

  abbrev pub StateSettled : Rounds X → Type 0
  StateSettled s = AllSettled s.tables × AllTypesKnown s.types

  -- A round over what is settled changes the resolver alone.
  round_passes :
      (s : Rounds X)
      → StateSettled s
      → (r : TypeResolver X) × (b : Bool) × (round s ≡ ok (record s { resolver = r }, b))
  unfolding round
  round_passes s (tables, types) =
      let (r1, b1, e1) = tables_pass s.tables tables s.resolver in
      let (r2, b2, e2) = types_pass s.types types r1 in (r2, b1 || b2, rw (round, e1, e2) refl)

  rounds_pass :
      (fuel : ℕ) (s : Rounds X)
      → StateSettled s
      → rounds_weight s < fuel
      → (r : TypeResolver X) × (rounds fuel s ≡ some (ok (record s { resolver = r })))
  unfolding rounds
  rounds_pass zero s settled less = absurd (omega arith)
  rounds_pass (suc fuel) s settled less =
      let (r, b, e) = round_passes s settled in
      elim (Bool-cases b) [
        | inl more ↦
            let e' : round s ≡ ok (record s { resolver = r }, true) = cc in
            let less' = round_weight s (record s { resolver = r }, true) e' in
            let (r', end) = rounds_pass fuel (record s { resolver = r }) settled (omega arith) in
            (r', rw (rounds, e') end)
        | inr done ↦
            let e' : round s ≡ ok (record s { resolver = r }, false) = cc in
            (r, rw (rounds, e') refl)
      ]

  known_first :
      (ty : DeferredSqlType X) (c : AColumn X) (cs : List (AColumn X))
      → c.sqltype ≡ ty
      → is_known ty ≡ true
      → first_deferred (c ∷ cs) ≡ first_deferred cs
  unfolding first_deferred is_known
  known_first (DeferredSqlType.known t) c cs e h = rw (first_deferred, e) refl
  known_first (DeferredSqlType.known_id t) c cs e h = rw (first_deferred, e) refl
  known_first (DeferredSqlType.deferred k) c cs e h = absurd (cc)

  none_deferred : (cs : List (AColumn X)) → AllKnown cs → first_deferred cs ≡ none
  unfolding first_deferred
  none_deferred [] h = refl
  none_deferred (c ∷ cs) (known, target, h) =
      known_first c.sqltype c cs refl known ∙ none_deferred cs h

  verify_settled : (l : List (String × ATable X)) → AllSettled l → verify l ≡ ok tt
  unfolding verify
  verify_settled [] h = refl
  verify_settled ((k, table) ∷ l) ((known, keyed), h) =
      rw (verify, none_deferred table.columns known) (verify_settled l h)

  -- A schema whose columns, references and declared types are all known, with a key in every table but
  -- those of links, is left as it is, with fuel above the number of tables and of their columns and twice
  -- the number of declared types.
  pub resolve_types-AllSettled :
      (fuel : ℕ) (db : Adb X)
      → AllSettled db.tables.entries
      → AllTypesKnown db.extra_types.entries
      → rounds_bound db < fuel
      → resolve_types fuel db ≡ some (db, ok tt)
  unfolding resolve_types
  resolve_types-AllSettled fuel db tables types enough =
      let e = settled_references db.extra_types db.tables db.tables.entries tables in
      let s = first_state db db.tables.entries in
      let (r, end) =
        rounds_pass fuel s (tables, types)
          (omega (arith, first_weight_bound db db.tables.entries e)) in
      ap (resolve_from fuel db) e
      ∙ ap (ended db) end
      ∙ ap (λ out. some (db, out)) (verify_settled db.tables.entries tables)
