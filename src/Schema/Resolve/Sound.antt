-- ===== src/Schema/Resolve/Sound.antt =====
-- The types that `resolve_types` finds are those that the tables and the declared types give.
use mathlib.Core.List.{Memᴰ}
use mathlib.Core.Path.{subst}
use butane.Prelude.{
  ℕ, zero, suc, String, Bool, true, false, ◌||◌, none, some, List, [], ◌∷◌, ok, err, both_ok,
  Result-cases, Option-cases, Bool-cases, ◌≡◌, refl, sym, ap, ◌∙◌, inl, inr, traverse,
}
use butane.Prelude.Ord.{string_ord}
use butane.Map
use butane.Map.{Map, get-insert}
use butane.Value.{Externals, Fault, Loop}
use butane.Schema.Keys.{TypeKey, key_ord}
use butane.Schema.Types.{TypeIdentifier, DeferredSqlType, AColumn, ATable, Adb}
use butane.Schema.Table.{pk_of, typeid, many_suffix}
use butane.Schema.Resolve.Resolver.{
  ends_with, TypeResolver, find_type, insert, resolved_reference, resolve_reference_target,
}
use butane.Schema.Resolve.Rounds.{
  Visit, learn_pk, resolve_columns, visit_table, visit_type, visit_values, Rounds, round, rounds,
  resolve_references, first_state, ended, resolve_from, resolve_types, schema_of,
}
use butane.Schema.Resolve.Denotes.{
  Denotes, Refines, IsSound, ColumnsRefine, TablesRefine, TypesRefine, of_id, find_type_sound,
  columns_refine, insert-IsSound, keys_refine, typeid-Denotes,
}

module _ {X : Externals} (db : Adb X) where
  key_found :
      (table0 table : ATable X) (col : AColumn X)
      → ColumnsRefine db table0.columns table.columns
      → pk_of table ≡ some col
      → (col0 : AColumn X) × (pk_of table0 ≡ some col0) × Refines db col0.sqltype col.sqltype
  unfolding pk_of
  key_found table0 table col h e = keys_refine db table0.columns table.columns col h e

  learn_pk-IsSound :
      (k : String) (table0 table : ATable X) (r : TypeResolver X) (out : TypeResolver X × Bool)
      → Memᴰ (k, table0) db.tables.entries
      → table.name ≡ table0.name
      → ColumnsRefine db table0.columns table.columns
      → IsSound db r
      → learn_pk table r ≡ ok out
      → IsSound db out.0
  unfolding learn_pk
  learn_pk-IsSound k table0 table r out mem named h sound done = elim (Option-cases (pk_of table)) [
    | inl nothing ↦ elim (Bool-cases (ends_with table.name many_suffix)) [
      | inl many ↦
          let e : learn_pk table r ≡ ok (r, false) = rw (learn_pk, nothing, many) refl in
          let same_out : (r, false) ≡ out = cc in subst (λ o. IsSound db o.0) same_out sound
      | inr plain ↦
          let e : learn_pk table r ≡ err Fault.panicked = rw (learn_pk, nothing, plain) refl in
          absurd (cc)
    ]
    | inr (col, here) ↦ elim (Result-cases (typeid col)) [
      | inl (f, failed) ↦
          let e : learn_pk table r ≡ ok (r, false) = rw (learn_pk, here, failed) refl in
          let same_out : (r, false) ≡ out = cc in subst (λ o. IsSound db o.0) same_out sound
      | inr (t, known) ↦
          let e : learn_pk table r ≡ ok (insert (TypeKey.pk table.name) t r) =
            rw (learn_pk, here, known) refl in
          let same_out : insert (TypeKey.pk table.name) t r ≡ out = cc in
          let (col0, found, same_type) = key_found table0 table col h here in
          let first = same_type t (typeid-Denotes db col col.sqltype t refl known) in
          let by_name : Denotes db (DeferredSqlType.deferred (TypeKey.pk table.name)) t =
            subst (λ n. Denotes db (DeferredSqlType.deferred (TypeKey.pk n)) t) (sym named)
              (Denotes.by_table mem found first) in
          subst (λ o. IsSound db o.0) same_out
            (insert-IsSound db (TypeKey.pk table.name) t r by_name sound)
    ]
  ]

  visit_table-IsSound :
      (k : String) (table0 table : ATable X) (r : TypeResolver X) (out : Visit X (ATable X))
      → Memᴰ (k, table0) db.tables.entries
      → table.name ≡ table0.name
      → ColumnsRefine db table0.columns table.columns
      → IsSound db r
      → visit_table r table ≡ ok out
      → IsSound db out.0
        × (out.1.name ≡ table0.name)
        × ColumnsRefine db table0.columns out.1.columns
  unfolding visit_table
  visit_table-IsSound k table0 table r out mem named h sound done =
      let (learnt, e, rest) = both_ok (learn_pk table r) _ done in
      let still = learn_pk-IsSound k table0 table r learnt mem named h sound e in
      let found = resolve_columns learnt.0 table.columns in
      let same_out : (learnt.0, record table { columns = found.0 }, learnt.1 || found.1) ≡ out =
        cc in
      subst
        (λ (o : Visit X (ATable X)).
          IsSound db o.0 × (o.1.name ≡ table0.name) × ColumnsRefine db table0.columns o.1.columns)
        same_out (still, named, columns_refine db learnt.0 table0.columns table.columns still h)

  tables-IsSound :
      (l0 l : List (String × ATable X)) (r : TypeResolver X)
      (out : Visit X (List (String × ATable X)))
      → ((k : String) (table : ATable X) → Memᴰ (k, table) l0 → Memᴰ (k, table) db.tables.entries)
      → TablesRefine db l0 l
      → IsSound db r
      → visit_values (λ r table _. visit_table r table) r l ≡ ok out
      → IsSound db out.0 × TablesRefine db l0 out.1
  unfolding visit_values
  tables-IsSound [] [] r out within h sound done =
      let same_out : (r, [], false) ≡ out = cc in
      subst (λ (o : Visit X (List (String × ATable X))). IsSound db o.0 × TablesRefine db [] o.1)
        same_out (sound, tt)
  tables-IsSound [] (b ∷ l) r out within h sound done = elim h [ ]
  tables-IsSound (a ∷ l0) [] r out within h sound done = elim h [ ]
  tables-IsSound ((k, a) ∷ l0) ((j, b) ∷ l) r out within (key, named, columns, h) sound done =
      let (now, e1, h1) = both_ok (visit_table r b) _ done in
      let (later, e2, h2) =
        both_ok (visit_values (λ r table _. visit_table r table) now.0 l) _ h1 in
      let (sound1, named1, columns1) =
        visit_table-IsSound k a b r now (within k a (Memᴰ.head refl)) named columns sound e1 in
      let (sound2, tables2) =
        tables-IsSound l0 l now.0 later (λ i c m. within i c (Memᴰ.tail m)) h sound1 e2 in
      let same_out : (later.0, (j, now.1) ∷ later.1, now.2 || later.2) ≡ out = cc in
      subst
        (λ (o : Visit X (List (String × ATable X))).
          IsSound db o.0 × TablesRefine db ((k, a) ∷ l0) o.1)
        same_out (sound2, (key, named1, columns1, tables2))

  visit_type-IsSound :
      (key : TypeKey) (ty0 ty : DeferredSqlType X) (r : TypeResolver X)
      → Memᴰ (key, ty0) db.extra_types.entries
      → Refines db ty0 ty
      → IsSound db r
      → IsSound db (visit_type r ty key).0 × Refines db ty0 (visit_type r ty key).1
  unfolding visit_type
  visit_type-IsSound key ty0 (DeferredSqlType.known t) r mem same_type sound = (
    insert-IsSound db key (TypeIdentifier.ty t) r
        (Denotes.by_type mem (same_type (TypeIdentifier.ty t) Denotes.is_type)) sound,
    same_type,
  )
  visit_type-IsSound key ty0 (DeferredSqlType.known_id t) r mem same_type sound =
      (insert-IsSound db key t r (Denotes.by_type mem (same_type t Denotes.is_id)) sound, same_type)
  visit_type-IsSound key ty0 (DeferredSqlType.deferred tykey) r mem same_type sound =
      elim (Option-cases (find_type tykey r)) [
        | inl e ↦
            let e' : visit_type r (DeferredSqlType.deferred tykey) key
                ≡ (r, DeferredSqlType.deferred tykey, false) =
              rw (visit_type, e) refl in
            subst (λ (o : Visit X (DeferredSqlType X)). IsSound db o.0 × Refines db ty0 o.1)
              (sym e') (sound, same_type)
        | inr (t, e) ↦
            let e' : visit_type r (DeferredSqlType.deferred tykey) key
                ≡ (r, DeferredSqlType.known_id t, true) =
              rw (visit_type, e) refl in
            let found = same_type t (find_type_sound db tykey r t sound e) in
            subst (λ (o : Visit X (DeferredSqlType X)). IsSound db o.0 × Refines db ty0 o.1)
              (sym e') (sound, λ u d. of_id db ty0 t u found d)
      ]

  types-IsSound :
      (l0 l : List (TypeKey × DeferredSqlType X)) (r : TypeResolver X)
      (out : Visit X (List (TypeKey × DeferredSqlType X)))
      → ((k : TypeKey) (ty : DeferredSqlType X)
          → Memᴰ (k, ty) l0
          → Memᴰ (k, ty) db.extra_types.entries)
      → TypesRefine db l0 l
      → IsSound db r
      → visit_values (λ r ty key. ok (visit_type r ty key)) r l ≡ ok out
      → IsSound db out.0 × TypesRefine db l0 out.1
  unfolding visit_values
  types-IsSound [] [] r out within h sound done =
      let same_out : (r, [], false) ≡ out = cc in
      subst
        (λ (o : Visit X (List (TypeKey × DeferredSqlType X))).
          IsSound db o.0 × TypesRefine db [] o.1)
        same_out (sound, tt)
  types-IsSound [] (b ∷ l) r out within h sound done = elim h [ ]
  types-IsSound (a ∷ l0) [] r out within h sound done = elim h [ ]
  types-IsSound ((k, a) ∷ l0) ((j, b) ∷ l) r out within (key, same_type, h) sound done =
      let now = visit_type r b j in
      let (later, e2, h2) =
        both_ok (visit_values (λ r ty key. ok (visit_type r ty key)) now.0 l) _ done in
      let mem =
        subst (λ i. Memᴰ (i, a) db.extra_types.entries) (sym key) (within k a (Memᴰ.head refl)) in
      let (sound1, type1) = visit_type-IsSound j a b r mem same_type sound in
      let (sound2, types2) =
        types-IsSound l0 l now.0 later (λ i c m. within i c (Memᴰ.tail m)) h sound1 e2 in
      let same_out : (later.0, (j, now.1) ∷ later.1, now.2 || later.2) ≡ out = cc in
      subst
        (λ (o : Visit X (List (TypeKey × DeferredSqlType X))).
          IsSound db o.0 × TypesRefine db ((k, a) ∷ l0) o.1)
        same_out (sound2, (key, type1, types2))

  abbrev StateSound : Rounds X → Type 0
  StateSound s =
      IsSound db s.resolver
      × TablesRefine db db.tables.entries s.tables
      × TypesRefine db db.extra_types.entries s.types

  round-StateSound :
      (s : Rounds X) (out : Rounds X × Bool) → StateSound s → round s ≡ ok out → StateSound out.0
  unfolding round
  round-StateSound s out (sound, tables, types) h =
      let (t, e1, h1) =
        both_ok (visit_values (λ r table _. visit_table r table) s.resolver s.tables) _ h in
      let (e, e2, h2) =
        both_ok (visit_values (λ r ty key. ok (visit_type r ty key)) t.0 s.types) _ h1 in
      let (sound1, tables1) =
        tables-IsSound db.tables.entries s.tables s.resolver t (λ k a m. m) tables sound e1 in
      let (sound2, types1) =
        types-IsSound db.extra_types.entries s.types t.0 e (λ k a m. m) types sound1 e2 in
      let same_out : (record { resolver = e.0; tables = t.1; types = e.1 }, t.2 || e.2) ≡ out =
        cc in
      subst (λ (o : Rounds X × Bool). StateSound o.0) same_out (sound2, tables1, types1)

  rounds-StateSound :
      (fuel : ℕ) (s s' : Rounds X) → StateSound s → rounds fuel s ≡ some (ok s') → StateSound s'
  unfolding rounds
  rounds-StateSound zero s s' sound h = absurd (cc)
  rounds-StateSound (suc fuel) s s' sound h = elim (Result-cases (round s)) [
    | inl (f, e) ↦ let e' : rounds (suc fuel) s ≡ some (err f) = rw (rounds, e) refl in absurd (cc)
    | inr ((n, true), e) ↦
        let e' : rounds (suc fuel) s ≡ rounds fuel n = rw (rounds, e) refl in
        rounds-StateSound fuel n s' (round-StateSound s (n, true) sound e) (sym e' ∙ h)
    | inr ((n, false), e) ↦
        let e' : rounds (suc fuel) s ≡ some (ok n) = rw (rounds, e) refl in
        let last : n ≡ s' = cc in subst StateSound last (round-StateSound s (n, false) sound e)
  ]

  module _ (extra_types : Map TypeKey (DeferredSqlType X)) (current : Map String (ATable X)) where
    targets_refine :
        (cs ds : List (AColumn X))
        → traverse (resolve_reference_target extra_types current) cs ≡ ok ds
        → ColumnsRefine db cs ds
    unfolding traverse resolve_reference_target
    targets_refine [] ds h = let e : [] ≡ ds = cc in subst (ColumnsRefine db []) e tt
    targets_refine (c ∷ cs) ds h =
        let (d, h1, h2) = both_ok (resolve_reference_target extra_types current c) _ h in
        let (reference, h3, h4) =
          both_ok (resolved_reference extra_types current c.reference) _ h1 in
        let (rest, h5, h6) =
          both_ok (traverse (resolve_reference_target extra_types current) cs) _ h2 in
        let same_column : record c { reference = reference } ≡ d = cc in
        let e : d ∷ rest ≡ ds = cc in
        subst (ColumnsRefine db (c ∷ cs)) (ap (λ x. x ∷ rest) same_column ∙ e)
          (refl, refl, λ t known. known, targets_refine cs rest h5)

    references_refine :
        (l m : List (String × ATable X))
        → resolve_references extra_types current l ≡ ok m
        → TablesRefine db l m
    unfolding resolve_references
    references_refine [] m h = let e : [] ≡ m = cc in subst (TablesRefine db []) e tt
    references_refine ((k, table) ∷ l) m h =
        let (columns, h1, h2) =
          both_ok (traverse (resolve_reference_target extra_types current) table.columns) _ h in
        let (rest, h3, h4) = both_ok (resolve_references extra_types current l) _ h2 in
        let e : (k, record table { columns = columns }) ∷ rest ≡ m = cc in
        subst (TablesRefine db ((k, table) ∷ l)) e
          (refl, refl, targets_refine table.columns columns h1, references_refine l rest h3)

  types_refine : (l : List (TypeKey × DeferredSqlType X)) → TypesRefine db l l
  types_refine [] = tt
  types_refine ((k, t) ∷ l) = (refl, λ u known. known, types_refine l)

  none_known :
      (key : TypeKey) (t : TypeIdentifier X)
      → Map.get key (Map.empty {V = TypeIdentifier X}) ≡ some t
      → ⊥
  unfolding Map.get Map.find_entry
  none_known key t h = cc

  ended_sound :
      (loop : Loop X (Rounds X)) (db' : Adb X)
      → ((s : Rounds X) → loop ≡ some (ok s) → StateSound s)
      → ended db loop ≡ some (db', ok tt)
      → TablesRefine db db.tables.entries db'.tables.entries
        × TypesRefine db db.extra_types.entries db'.extra_types.entries
  ended_sound none db' sound h = absurd (cc)
  ended_sound (some (err f)) db' sound h = absurd (cc)
  ended_sound (some (ok s)) db' sound h =
      let same_db : schema_of s ≡ db' = cc in
      let (_, tables, types) = sound s refl in
      subst
        (λ (d : Adb X).
          TablesRefine db db.tables.entries d.tables.entries
          × TypesRefine db db.extra_types.entries d.extra_types.entries)
        same_db (tables, types)

  -- When `resolve_types` succeeds, the schema has the tables and columns that it had, under their names
  -- and with their keys, and the declared types, and a type that a column or a declared type has got is
  -- one that the old type stands for, by the keys of the tables and the declared types.
  pub resolve_types_sound :
      (fuel : ℕ) (db' : Adb X)
      → resolve_types fuel db ≡ some (db', ok tt)
      → TablesRefine db db.tables.entries db'.tables.entries
        × TypesRefine db db.extra_types.entries db'.extra_types.entries
  unfolding resolve_types
  resolve_types_sound fuel db' h =
      elim (Result-cases (resolve_references db.extra_types db.tables db.tables.entries)) [
        | inl (f, e) ↦
            let e' : resolve_types fuel db ≡ some (db, err f) = ap (resolve_from fuel db) e in
            absurd (cc)
        | inr (tables, e) ↦
            let s = first_state db tables in
            let e' : resolve_types fuel db ≡ ended db (rounds fuel s) =
              ap (resolve_from fuel db) e in
            let first : StateSound s = (
              λ key t found. absurd (none_known key t found),
              references_refine db.extra_types db.tables db.tables.entries tables e,
              types_refine db.extra_types.entries,
            ) in
            ended_sound (rounds fuel s) db' (λ s' went. rounds-StateSound fuel s s' first went)
              (sym e' ∙ h)
      ]
