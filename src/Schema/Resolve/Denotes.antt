-- ===== src/Schema/Resolve/Denotes.antt =====
-- What a type stands for in a schema, and that a resolver which knows that resolves nothing else.
use mathlib.Core.List.{Memᴰ}
use mathlib.Core.Path.{subst}
use butane.Prelude.{
  String, true, false, some, List, [], ◌∷◌, any, find, ok, err, Option-cases, Bool-cases, ◌≡◌, refl,
  sym, ◌∙◌, inl, inr,
}
use butane.Prelude.Ord.{same, same_iff, string_ord}
use text.Mathlib.Text.{starts_with}
use butane.Map
use butane.Map.{Map, get-insert}
use butane.Value.{Externals, SqlType, Error}
use butane.Schema.Keys.{TypeKey, key_ord, show_key}
use butane.Schema.Types.{TypeIdentifier, DeferredSqlType, AColumn, ATable, Adb}
use butane.Schema.Table.{pk_of, typeid}
use butane.Schema.Resolve.Resolver.{
  json_map_prefixes, TypeResolver, find_type, insert, resolve, is_known, resolved, resolve_type,
}
use butane.Schema.Resolve.Rounds.{resolve_columns}

-- What a type is, by the keys of the tables and the declared types of a schema.
pub data Denotes {X : Externals} (db : Adb X) : DeferredSqlType X → TypeIdentifier X → Type 0 where
  is_type : {t : SqlType X} → Denotes db (DeferredSqlType.known t) (TypeIdentifier.ty t)
  is_id : {t : TypeIdentifier X} → Denotes db (DeferredSqlType.known_id t) t
  json_map :
      {ct : String}
      → any (λ prefix. starts_with ct prefix) json_map_prefixes ≡ true
      → Denotes db
          (DeferredSqlType.deferred (TypeKey.custom_type ct))
          (TypeIdentifier.ty SqlType.json)
  by_table :
      {k : String} {table : ATable X} {col : AColumn X} {t : TypeIdentifier X}
      → Memᴰ (k, table) db.tables.entries
      → pk_of table ≡ some col
      → Denotes db col.sqltype t
      → Denotes db (DeferredSqlType.deferred (TypeKey.pk table.name)) t
  by_type :
      {key : TypeKey} {ty : DeferredSqlType X} {t : TypeIdentifier X}
      → Memᴰ (key, ty) db.extra_types.entries
      → Denotes db ty t
      → Denotes db (DeferredSqlType.deferred key) t

module _ {X : Externals} (db : Adb X) where
  -- The new type is nothing but what the old one is.
  abbrev pub Refines : DeferredSqlType X → DeferredSqlType X → Type 0
  Refines old new = (t : TypeIdentifier X) → Denotes db new t → Denotes db old t

  abbrev pub IsSound : TypeResolver X → Type 0
  IsSound r =
      (key : TypeKey) (t : TypeIdentifier X)
      → Map.get key r ≡ some t
      → Denotes db (DeferredSqlType.deferred key) t

  abbrev pub ColumnsRefine : List (AColumn X) → List (AColumn X) → Type 0
  ColumnsRefine [] [] = Unit
  ColumnsRefine (c ∷ cs) (d ∷ ds) =
      (d.name ≡ c.name) × (d.pk ≡ c.pk) × Refines c.sqltype d.sqltype × ColumnsRefine cs ds
  ColumnsRefine _ _ = ⊥

  abbrev pub TablesRefine : List (String × ATable X) → List (String × ATable X) → Type 0
  TablesRefine [] [] = Unit
  TablesRefine ((k, a) ∷ l) ((j, b) ∷ m) =
      (j ≡ k) × (b.name ≡ a.name) × ColumnsRefine a.columns b.columns × TablesRefine l m
  TablesRefine _ _ = ⊥

  abbrev pub TypesRefine :
      List (TypeKey × DeferredSqlType X) → List (TypeKey × DeferredSqlType X) → Type 0
  TypesRefine [] [] = Unit
  TypesRefine ((k, a) ∷ l) ((j, b) ∷ m) = (j ≡ k) × Refines a b × TypesRefine l m
  TypesRefine _ _ = ⊥

  -- A type with an identifier is that one.
  pub of_id :
      (old : DeferredSqlType X) (t u : TypeIdentifier X)
      → Denotes db old t
      → Denotes db (DeferredSqlType.known_id t) u
      → Denotes db old u
  of_id old t _ d Denotes.is_id = d

  pub find_type_sound :
      (key : TypeKey) (r : TypeResolver X) (t : TypeIdentifier X)
      → IsSound r
      → find_type key r ≡ some t
      → Denotes db (DeferredSqlType.deferred key) t
  unfolding find_type
  find_type_sound (TypeKey.pk name) r t sound h = sound (TypeKey.pk name) t h
  find_type_sound (TypeKey.custom_type ct) r t sound h =
      elim (Bool-cases (any (λ prefix. starts_with ct prefix) json_map_prefixes)) [
        | inl e ↦
            let e' : find_type (TypeKey.custom_type ct) r ≡ some (TypeIdentifier.ty SqlType.json) =
              rw (find_type, e) refl in
            let same_type : TypeIdentifier.ty SqlType.json ≡ t = cc in
            subst (Denotes db (DeferredSqlType.deferred (TypeKey.custom_type ct))) same_type
              (Denotes.json_map e)
        | inr e ↦
            let e' : find_type (TypeKey.custom_type ct) r ≡ Map.get (TypeKey.custom_type ct) r =
              rw (find_type, e) refl in
            sound (TypeKey.custom_type ct) t (sym e' ∙ h)
      ]

  -- Resolving a type keeps what it is.
  resolved-Refines :
      (r : TypeResolver X) (old : DeferredSqlType X) → IsSound r → Refines old (resolved r old).0
  unfolding resolved resolve is_known
  resolved-Refines r (DeferredSqlType.known t) sound u d = d
  resolved-Refines r (DeferredSqlType.known_id t) sound u d = d
  resolved-Refines r (DeferredSqlType.deferred key) sound u d =
      elim (Option-cases (find_type key r)) [
        | inl e ↦
            let e' : (resolved r (DeferredSqlType.deferred key)).0 ≡ DeferredSqlType.deferred key =
              rw (resolved, resolve, e) refl in
            subst (λ ty. Denotes db ty u) e' d
        | inr (t, e) ↦
            let e' : (resolved r (DeferredSqlType.deferred key)).0 ≡ DeferredSqlType.known_id t =
              rw (resolved, resolve, e) refl in
            of_id (DeferredSqlType.deferred key) t u (find_type_sound key r t sound e)
              (subst (λ ty. Denotes db ty u) e' d)
      ]

  pub columns_refine :
      (r : TypeResolver X) (cs ds : List (AColumn X))
      → IsSound r
      → ColumnsRefine cs ds
      → ColumnsRefine cs (resolve_columns r ds).0
  unfolding resolve_columns resolve_type
  columns_refine r [] [] sound h = tt
  columns_refine r [] (d ∷ ds) sound h = elim h [ ]
  columns_refine r (c ∷ cs) [] sound h = elim h [ ]
  columns_refine r (c ∷ cs) (d ∷ ds) sound (named, pk, same_type, h) = (
    named,
    pk,
    λ t known. same_type t (resolved-Refines r d.sqltype sound t known),
    columns_refine r cs ds sound h,
  )

  inserted-IsSound :
      (key : TypeKey) (t : TypeIdentifier X) (r : TypeResolver X)
      → Denotes db (DeferredSqlType.deferred key) t
      → IsSound r
      → IsSound (Map.insert key t r)
  inserted-IsSound key t r d sound j u h = elim (Bool-cases (same key j)) [
    | inl e ↦
        let found : Map.get j (Map.insert key t r) ≡ some t = get-insert key j t r ∙ rw e refl in
        let same_key : key ≡ j = (same_iff key j).0 e in
        let same_type : t ≡ u = cc in
        subst (λ k. Denotes db (DeferredSqlType.deferred k) u) same_key
          (subst (Denotes db (DeferredSqlType.deferred key)) same_type d)
    | inr e ↦ sound j u (sym (get-insert key j t r ∙ rw e refl) ∙ h)
  ]

  pub insert-IsSound :
      (key : TypeKey) (t : TypeIdentifier X) (r : TypeResolver X)
      → Denotes db (DeferredSqlType.deferred key) t
      → IsSound r
      → IsSound (insert key t r).0
  unfolding insert
  insert-IsSound key t r d sound = elim (Option-cases (Map.get key r)) [
    | inr (u, e) ↦
        let e' : (insert key t r).0 ≡ r = rw (insert, e) refl in subst IsSound (sym e') sound
    | inl e ↦
        let e' : (insert key t r).0 ≡ Map.insert key t r = rw (insert, e) refl in
        subst IsSound (sym e') (λ j u h. inserted-IsSound key t r d sound j u h)
  ]

  -- The keys of two tables, column for column.
  pub keys_refine :
      (cs ds : List (AColumn X)) (d : AColumn X)
      → ColumnsRefine cs ds
      → find (λ c. c.pk) ds ≡ some d
      → (c : AColumn X) × (find (λ c. c.pk) cs ≡ some c) × Refines c.sqltype d.sqltype
  unfolding find
  keys_refine [] [] d h e = absurd (cc)
  keys_refine [] (b ∷ bs) d h e = elim h [ ]
  keys_refine (a ∷ as_) [] d h e = elim h [ ]
  keys_refine (a ∷ as_) (b ∷ bs) d (named, pk, same_type, h) e = elim (Bool-cases b.pk) [
    | inl is_key ↦
        let e' : find (λ c. c.pk) (b ∷ bs) ≡ some b = rw (find, is_key) refl in
        let here : a.pk ≡ true = sym pk ∙ is_key in
        let same_column : b ≡ d = cc in
        (a, rw (find, here) refl, subst (λ x. Refines a.sqltype x.sqltype) same_column same_type)
    | inr no_key ↦
        let e' : find (λ c. c.pk) (b ∷ bs) ≡ find (λ c. c.pk) bs = rw (find, no_key) refl in
        let here : a.pk ≡ false = sym pk ∙ no_key in
        let (c, found, same_key) = keys_refine as_ bs d h (sym e' ∙ e) in
        (c, rw (find, here) found, same_key)
  ]

  pub typeid-Denotes :
      (col : AColumn X) (ty : DeferredSqlType X) (t : TypeIdentifier X)
      → col.sqltype ≡ ty
      → typeid col ≡ ok t
      → Denotes db col.sqltype t
  unfolding typeid
  typeid-Denotes col (DeferredSqlType.known u) t e h =
      let e' : typeid col ≡ ok (TypeIdentifier.ty u) = rw (typeid, e) refl in
      let same_type : TypeIdentifier.ty u ≡ t = cc in
      subst (λ x. Denotes db x t) (sym e)
        (subst (Denotes db (DeferredSqlType.known u)) same_type Denotes.is_type)
  typeid-Denotes col (DeferredSqlType.known_id u) t e h =
      let e' : typeid col ≡ ok u = rw (typeid, e) refl in
      let same_type : u ≡ t = cc in
      subst (λ x. Denotes db x t) (sym e)
        (subst (Denotes db (DeferredSqlType.known_id u)) same_type Denotes.is_id)
  typeid-Denotes col (DeferredSqlType.deferred key) t e h =
      let e' : typeid col ≡ err (Error.unknown_sql_type (show_key key)) = rw (typeid, e) refl in
      absurd (cc)
