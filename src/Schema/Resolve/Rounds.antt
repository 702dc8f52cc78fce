-- ===== src/Schema/Resolve/Rounds.antt =====
-- The rounds of `resolve_types`. A round visits every table and then every declared type; rounds go on
-- while one changes anything, so they run on fuel.
use butane.Prelude.{
  ℕ, zero, suc, String, Bool, true, false, ◌||◌, Option, none, some, List, [], ◌∷◌, Result, ok, err,
  ◌>>=◌, if◌then◌else◌, traverse,
}
use butane.Map
use butane.Map.{Map}
use butane.Value.{Externals, Error, Fault, Loop}
use butane.Schema.Keys.{TypeKey, key_ord, show_key}
use butane.Schema.Types.{TypeIdentifier, DeferredSqlType, AColumn, ATable, Adb}
use butane.Schema.Table.{pk_of, typeid, many_suffix}
use butane.Schema.Resolve.Resolver.{
  ends_with, TypeResolver, find_type, insert, resolve_type, resolve_reference_target,
}

-- What a visit leaves: the resolver, the item, and whether anything changed.
abbrev pub Visit {ℓ} : Externals → Type ℓ → Type ℓ
Visit X A = TypeResolver X × A × Bool

-- The state of the rounds.
pub record Rounds (X : Externals) : Type 0 where
  pub resolver : TypeResolver X
  pub tables : List (String × ATable X)
  pub types : List (TypeKey × DeferredSqlType X)

module _ {X : Externals} where
  -- The key of the table, if its type is known.
  unfoldable pub learn_pk : ATable X → TypeResolver X → Result (Fault X) (TypeResolver X × Bool)
  learn_pk table r = elim (pk_of table) [
    | some key ↦ elim (typeid key) [
      | ok t ↦ ok (insert (TypeKey.pk table.name) t r)
      | err _ ↦ ok (r, false)
    ]
    | none ↦ if ends_with table.name many_suffix then ok (r, false) else err Fault.panicked
  ]

  unfoldable pub resolve_columns : TypeResolver X → List (AColumn X) → List (AColumn X) × Bool
  resolve_columns r [] = ([], false)
  resolve_columns r (c ∷ cs) =
      let now = resolve_type r c in
      let later = resolve_columns r cs in (now.0 ∷ later.0, now.1 || later.1)

  unfoldable pub visit_table : TypeResolver X → ATable X → Result (Fault X) (Visit X (ATable X))
  visit_table r table = do
    learnt ← learn_pk table r
    let columns = resolve_columns learnt.0 table.columns
    ok (learnt.0, record table { columns = columns.0 }, learnt.1 || columns.1)

  unfoldable pub visit_type :
      TypeResolver X → DeferredSqlType X → TypeKey → Visit X (DeferredSqlType X)
  visit_type r (DeferredSqlType.known t) key =
      let learnt = insert key (TypeIdentifier.ty t) r in
      (learnt.0, DeferredSqlType.known t, learnt.1)
  visit_type r (DeferredSqlType.known_id t) key =
      let learnt = insert key t r in (learnt.0, DeferredSqlType.known_id t, learnt.1)
  visit_type r (DeferredSqlType.deferred tykey) key = elim (find_type tykey r) [
    | some t ↦ (r, DeferredSqlType.known_id t, true)
    | none ↦ (r, DeferredSqlType.deferred tykey, false)
  ]

  -- A loop over the values of a map, in the order of its keys.
  unfoldable pub visit_values {ℓ κ} :
      {K : Type ℓ} {A : Type κ}
      → (TypeResolver X → A → K → Result (Fault X) (Visit X A))
      → TypeResolver X
      → List (K × A)
      → Result (Fault X) (Visit X (List (K × A)))
  visit_values visit r [] = ok (r, [], false)
  visit_values visit r ((k, a) ∷ l) = do
    now ← visit r a k
    later ← visit_values visit now.0 l
    ok (later.0, (k, now.1) ∷ later.1, now.2 || later.2)

  unfoldable pub round : Rounds X → Result (Fault X) (Rounds X × Bool)
  round s = do
    t ← visit_values (λ r table _. visit_table r table) s.resolver s.tables
    e ← visit_values (λ r ty key. ok (visit_type r ty key)) t.0 s.types
    ok (record { resolver = e.0; tables = t.1; types = e.1 }, t.2 || e.2)

  -- `while changed`
  unfoldable pub rounds : ℕ → Rounds X → Loop X (Rounds X)
  rounds zero s = none
  rounds (suc fuel) s = elim (round s) [
    | err e ↦ some (err e)
    | ok (s', true) ↦ rounds fuel s'
    | ok (s', false) ↦ some (ok s')
  ]

  -- The loop over the columns that comes before the rounds.
  unfoldable pub resolve_references :
      Map.Map TypeKey (DeferredSqlType X)
      → Map.Map String (ATable X)
      → List (String × ATable X)
      → Result (Fault X) (List (String × ATable X))
  resolve_references extra_types current [] = ok []
  resolve_references extra_types current ((k, table) ∷ l) = do
    columns ← traverse (resolve_reference_target extra_types current) table.columns
    rest ← resolve_references extra_types current l
    ok ((k, record table { columns = columns }) ∷ rest)

  -- The first column that is deferred still.
  unfoldable pub first_deferred : List (AColumn X) → Option TypeKey
  first_deferred [] = none
  first_deferred (c ∷ cs) = elim c.sqltype [
    | DeferredSqlType.deferred key ↦ some key
    | _ ↦ first_deferred cs
  ]

  -- The verification pass.
  unfoldable pub verify : List (String × ATable X) → Result (Fault X) (Unit {0})
  verify [] = ok tt
  verify ((k, table) ∷ l) = elim (first_deferred table.columns) [
    | some key ↦ err (Fault.raised (Error.cannot_resolve_type (show_key key)))
    | none ↦ verify l
  ]

  abbrev pub first_state : Adb X → List (String × ATable X) → Rounds X
  first_state db tables = record {
    resolver = Map.empty;
    tables = tables;
    types = db.extra_types.entries;
  }

  abbrev pub schema_of : Rounds X → Adb X
  schema_of s = record {
    tables = record { entries = s.tables };
    extra_types = record { entries = s.types };
  }

  -- What the schema is after the call, and how the call ends.
  abbrev pub ended : Adb X → Loop X (Rounds X) → Option (Adb X × Result (Fault X) (Unit {0}))
  ended db none = none
  ended db (some (err e)) = some (db, err e)
  ended db (some (ok s)) = some (schema_of s, verify s.tables)

  abbrev pub resolve_from :
      ℕ
      → Adb X
      → Result (Fault X) (List (String × ATable X))
      → Option (Adb X × Result (Fault X) (Unit {0}))
  resolve_from fuel db (err e) = some (db, err e)
  resolve_from fuel db (ok tables) = ended db (rounds fuel (first_state db tables))

  -- `ADB::resolve_types`. Before the verification it can only panic, so what it leaves then is of no
  -- consequence.
  unfoldable pub resolve_types : ℕ → Adb X → Option (Adb X × Result (Fault X) (Unit {0}))
  resolve_types fuel db =
      resolve_from fuel db (resolve_references db.extra_types db.tables db.tables.entries)
