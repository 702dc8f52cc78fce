-- ===== src/Schema/Resolve/Lighter.antt =====
-- A visit, and a round, that changes something leaves less to find.
use butane.Prelude.{
  ℕ, ◌+◌, ◌≤◌, String, Bool, false, ◌||◌, List, [], ◌∷◌, Result, ok, err, both_ok, Result-cases,
  Option-cases, Bool-cases, ◌≡◌, refl, arith, inl, inr,
}
use butane.Value.{Externals, Fault}
use butane.Schema.Keys.{TypeKey, key_ord}
use butane.Schema.Types.{TypeIdentifier, DeferredSqlType, ATable}
use butane.Schema.Table.{pk_of, typeid, many_suffix}
use butane.Schema.Resolve.Resolver.{ends_with, TypeResolver, find_type, insert}
use butane.Schema.Resolve.Rounds.{
  Visit, learn_pk, resolve_columns, visit_table, visit_type, visit_values, Rounds, round,
}
use butane.Schema.Resolve.Weight.{
  one, one-or, missing, KnowsMore, unknown, unknowns, insert_weight, columns_weight,
}

module _ {X : Externals} where
  -- A visit that changes something makes the weight of its item less, and none makes it more.
  abbrev pub IsLighter {ℓ} :
      {A : Type ℓ} → (TypeResolver X → A → ℕ) → TypeResolver X → A → Visit X A → Type 0
  IsLighter weight r a out = KnowsMore r out.0 × (one out.2 + weight out.0 out.1 ≤ weight r a)

  abbrev pub table_weight : TypeResolver X → ATable X → ℕ
  table_weight r table = missing (TypeKey.pk table.name) r + unknowns table.columns

  abbrev pub type_weight : TypeKey → TypeResolver X → DeferredSqlType X → ℕ
  type_weight key r ty = missing key r + unknown ty

  learn_pk_weight :
      (table : ATable X) (r : TypeResolver X) (out : TypeResolver X × Bool)
      → learn_pk table r ≡ ok out
      → KnowsMore r out.0
        × (one out.1 + missing (TypeKey.pk table.name) out.0 ≤ missing (TypeKey.pk table.name) r)
  unfolding learn_pk
  learn_pk_weight table r out h = elim (Option-cases (pk_of table)) [
    | inl nothing ↦ elim (Bool-cases (ends_with table.name many_suffix)) [
      | inl many ↦
          let e : learn_pk table r ≡ ok (r, false) = rw (learn_pk, nothing, many) refl in
          let same_out : (r, false) ≡ out = cc in rw (← same_out) (λ key. omega arith, omega arith)
      | inr plain ↦
          let e : learn_pk table r ≡ err Fault.panicked = rw (learn_pk, nothing, plain) refl in
          absurd (cc)
    ]
    | inr (col, here) ↦ elim (Result-cases (typeid col)) [
      | inl (f, failed) ↦
          let e : learn_pk table r ≡ ok (r, false) = rw (learn_pk, here, failed) refl in
          let same_out : (r, false) ≡ out = cc in rw (← same_out) (λ key. omega arith, omega arith)
      | inr (t, known) ↦
          let e : learn_pk table r ≡ ok (insert (TypeKey.pk table.name) t r) =
            rw (learn_pk, here, known) refl in
          let same_out : insert (TypeKey.pk table.name) t r ≡ out = cc in
          rw (← same_out) (insert_weight (TypeKey.pk table.name) t r)
    ]
  ]

  visit_table-IsLighter :
      (r : TypeResolver X) (table : ATable X) (out : Visit X (ATable X))
      → visit_table r table ≡ ok out
      → IsLighter table_weight r table out
  unfolding visit_table
  visit_table-IsLighter r table out h =
      let (learnt, e, done) = both_ok (learn_pk table r) _ h in
      let (more, less) = learn_pk_weight table r learnt e in
      let columns = columns_weight learnt.0 table.columns in
      let found = resolve_columns learnt.0 table.columns in
      let same_out : (learnt.0, record table { columns = found.0 }, learnt.1 || found.1) ≡ out =
        cc in
      rw (← same_out) (more, omega (arith, one-or learnt.1 found.1))

  visit_type-IsLighter :
      (r : TypeResolver X) (ty : DeferredSqlType X) (key : TypeKey)
      → IsLighter (type_weight key) r ty (visit_type r ty key)
  unfolding visit_type
  visit_type-IsLighter r (DeferredSqlType.known t) key =
      let w = insert_weight key (TypeIdentifier.ty t) r in (w.0, omega (arith, w.1))
  visit_type-IsLighter r (DeferredSqlType.known_id t) key =
      let w = insert_weight key t r in (w.0, omega (arith, w.1))
  visit_type-IsLighter r (DeferredSqlType.deferred tykey) key =
      elim (Option-cases (find_type tykey r)) [
        | inl e ↦ rw (visit_type, e) (λ j. omega arith, omega arith)
        | inr (t, e) ↦ rw (visit_type, e) (λ j. omega arith, omega arith)
      ]

  abbrev pub total {ℓ κ} :
      {K : Type ℓ} {A : Type κ} → (TypeResolver X → A → K → ℕ) → TypeResolver X → List (K × A) → ℕ
  total weight r [] = 0
  total weight r ((k, a) ∷ l) = weight r a k + total weight r l

  module _ {ℓ κ} {K : Type ℓ} {A : Type κ} (weight : TypeResolver X → A → K → ℕ)
      (antitone : (r r' : TypeResolver X) (a : A) (k : K)
        → KnowsMore r r'
        → weight r' a k ≤ weight r a k) where
    total_antitone :
        (r r' : TypeResolver X) (l : List (K × A))
        → KnowsMore r r'
        → total weight r' l ≤ total weight r l
    total_antitone r r' [] more = omega arith
    total_antitone r r' ((k, a) ∷ l) more =
        omega (arith, antitone r r' a k more, total_antitone r r' l more)

  module _ {ℓ κ} {K : Type ℓ} {A : Type κ} (weight : TypeResolver X → A → K → ℕ)
      (visit : TypeResolver X → A → K → Result (Fault X) (Visit X A))
      (antitone : (r r' : TypeResolver X) (a : A) (k : K)
        → KnowsMore r r'
        → weight r' a k ≤ weight r a k)
      (lighter : (r : TypeResolver X) (a : A) (k : K) (out : Visit X A)
        → visit r a k ≡ ok out
        → IsLighter (λ r a. weight r a k) r a out) where
    visit_values-IsLighter :
        (r : TypeResolver X) (l : List (K × A)) (out : Visit X (List (K × A)))
        → visit_values visit r l ≡ ok out
        → IsLighter (total weight) r l out
    unfolding visit_values
    visit_values-IsLighter r [] out h =
        let same_out : (r, [], false) ≡ out = cc in
        rw (← same_out) (λ key. omega arith, omega arith)
    visit_values-IsLighter r ((k, a) ∷ l) out h =
        let (now, e1, h1) = both_ok (visit r a k) _ h in
        let (later, e2, h2) = both_ok (visit_values visit now.0 l) _ h1 in
        let (more1, less1) = lighter r a k now e1 in
        let (more2, less2) = visit_values-IsLighter now.0 l later e2 in
        let same_out : (later.0, (k, now.1) ∷ later.1, now.2 || later.2) ≡ out = cc in
        rw (← same_out) (
          λ key. omega (arith, more1 key, more2 key),
          omega (
            arith,
            one-or now.2 later.2,
            antitone now.0 later.0 now.1 k more2,
            total_antitone weight antitone r now.0 l more1,
          ),
        )

  abbrev pub tables_weight : TypeResolver X → List (String × ATable X) → ℕ
  tables_weight = total (λ r table _. table_weight r table)

  abbrev pub types_weight : TypeResolver X → List (TypeKey × DeferredSqlType X) → ℕ
  types_weight = total (λ r ty key. type_weight key r ty)

  abbrev pub rounds_weight : Rounds X → ℕ
  rounds_weight s = tables_weight s.resolver s.tables + types_weight s.resolver s.types

  missing_antitone :
      (key : TypeKey) (r r' : TypeResolver X) (ty : DeferredSqlType X)
      → KnowsMore r r'
      → type_weight key r' ty ≤ type_weight key r ty
  missing_antitone key r r' ty more = omega (arith, more key)

  tables_antitone :
      (r r' : TypeResolver X) (table : ATable X) (name : String)
      → KnowsMore r r'
      → table_weight r' table ≤ table_weight r table
  tables_antitone r r' table name more = omega (arith, more (TypeKey.pk table.name))

  visit_tables-IsLighter :
      (r : TypeResolver X) (l : List (String × ATable X)) (out : Visit X (List (String × ATable X)))
      → visit_values (λ r table _. visit_table r table) r l ≡ ok out
      → IsLighter tables_weight r l out
  visit_tables-IsLighter =
      visit_values-IsLighter (λ r table _. table_weight r table) (λ r table _. visit_table r table)
        tables_antitone (λ r table _ out h. visit_table-IsLighter r table out h)

  visit_types-IsLighter :
      (r : TypeResolver X) (l : List (TypeKey × DeferredSqlType X))
      (out : Visit X (List (TypeKey × DeferredSqlType X)))
      → visit_values (λ r ty key. ok (visit_type r ty key)) r l ≡ ok out
      → IsLighter types_weight r l out
  visit_types-IsLighter =
      visit_values-IsLighter (λ r ty key. type_weight key r ty)
        (λ r ty key. ok (visit_type r ty key)) (λ r r' ty key. missing_antitone key r r' ty)
        (λ r ty key out h.
          let same_out : visit_type r ty key ≡ out = cc in
          rw (← same_out) (visit_type-IsLighter r ty key))

  -- A round that changes something leaves less to find.
  pub round_weight :
      (s : Rounds X) (out : Rounds X × Bool)
      → round s ≡ ok out
      → one out.1 + rounds_weight out.0 ≤ rounds_weight s
  unfolding round
  round_weight s out h =
      let (t, e1, h1) =
        both_ok (visit_values (λ r table _. visit_table r table) s.resolver s.tables) _ h in
      let (e, e2, h2) =
        both_ok (visit_values (λ r ty key. ok (visit_type r ty key)) t.0 s.types) _ h1 in
      let (more1, less1) = visit_tables-IsLighter s.resolver s.tables t e1 in
      let (more2, less2) = visit_types-IsLighter t.0 s.types e e2 in
      let same_out : (record { resolver = e.0; tables = t.1; types = e.1 }, t.2 || e.2) ≡ out =
        cc in
      let types =
        total_antitone (λ r ty key. type_weight key r ty)
          (λ r r' ty key. missing_antitone key r r' ty) s.resolver t.0 s.types more1 in
      let tables =
        total_antitone (λ r table _. table_weight r table) tables_antitone t.0 e.0 t.1 more2 in
      rw (← same_out) (omega (arith, one-or t.2 e.2))
