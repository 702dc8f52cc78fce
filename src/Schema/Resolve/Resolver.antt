-- ===== src/Schema/Resolve/Resolver.antt =====
-- `TypeResolver`, and what a column asks of it.
use Prim.Native.String.{len, slice}
use text.Mathlib.Text.{starts_with}
use butane.Prelude.{
  ◌-◌, String, Bool, true, false, ◌&&◌, not, Option, none, some, List, [], ◌∷◌, ◌++◌, map, any, ltb,
  ◌<>◌, ◌==◌, Result, ok, err, ◌>>=◌, if◌then◌else◌,
}
use butane.Prelude.Ord.{string_ord}
use butane.Map
use butane.Value.{Externals, SqlType, Error, Fault}
use butane.Schema.Keys.{TypeKey, key_ord, show_key}
use butane.Schema.Types.{TypeIdentifier, DeferredSqlType, ARef, AColumn, ATable}
use butane.Schema.Table.{pk_of}

-- `str::ends_with`
unfoldable pub ends_with : String → String → Bool
ends_with s t = not (ltb (len s) (len t)) && (slice s (len s - len t) (len s) == t)

abbrev map_type_names : List String
map_type_names =
    "HashMap" ∷ "collections::HashMap" ∷ "std::collections::HashMap" ∷ "BTreeMap"
    ∷ "collections::BTreeMap" ∷ "std::collections::BTreeMap" ∷ []

abbrev string_tynames : List String
string_tynames = "String" ∷ "string::String" ∷ "std::string::String" ∷ []

unfoldable pub prefixes_of : List String → List String
prefixes_of [] = []
prefixes_of (name ∷ names) = map (λ s. name <> "<" <> s <> ",") string_tynames ++ prefixes_of names

-- `JSON_MAP_PREFIXES`
unfoldable pub json_map_prefixes : List String
unfolding prefixes_of
json_map_prefixes = prefixes_of map_type_names

-- The types of keys that are known so far.
abbrev pub TypeResolver : Externals → Type 0
TypeResolver X = Map.Map TypeKey (TypeIdentifier X)

module _ {X : Externals} where
  unfoldable pub find_type : TypeKey → TypeResolver X → Option (TypeIdentifier X)
  find_type (TypeKey.pk name) r = Map.get (TypeKey.pk name) r
  find_type (TypeKey.custom_type ct) r =
      if any (λ prefix. starts_with ct prefix) json_map_prefixes
      then some (TypeIdentifier.ty SqlType.json)
      else Map.get (TypeKey.custom_type ct) r

  -- A key keeps its first type; whether the key is new is told.
  unfoldable pub insert : TypeKey → TypeIdentifier X → TypeResolver X → TypeResolver X × Bool
  insert key t r = elim (Map.get key r) [ some _ ↦ (r, false) | none ↦ (Map.insert key t r, true) ]

  -- `DeferredSqlType::resolve`
  unfoldable pub resolve : TypeResolver X → DeferredSqlType X → Result (Error X) (TypeIdentifier X)
  resolve r (DeferredSqlType.known_id t) = ok t
  resolve r (DeferredSqlType.known t) = ok (TypeIdentifier.ty t)
  resolve r (DeferredSqlType.deferred key) = elim (find_type key r) [
    | some t ↦ ok t
    | none ↦ err (Error.unknown_sql_type (show_key key))
  ]

  unfoldable pub is_known : DeferredSqlType X → Bool
  is_known (DeferredSqlType.known _) = true
  is_known (DeferredSqlType.known_id _) = true
  is_known (DeferredSqlType.deferred _) = false

  -- What the type becomes, and whether it was found now.
  unfoldable pub resolved : TypeResolver X → DeferredSqlType X → DeferredSqlType X × Bool
  resolved r old = if is_known old then (old, false) else (elim (resolve r old) [
    | ok t ↦ (DeferredSqlType.known_id t, true)
    | err _ ↦ (old, false)
  ])

  -- `AColumn::resolve_type`
  unfoldable pub resolve_type : TypeResolver X → AColumn X → AColumn X × Bool
  resolve_type r col =
      let found = resolved r col.sqltype in (record col { sqltype = found.0 }, found.1)

  abbrev key_name : TypeKey → Result (Fault X) String
  key_name (TypeKey.pk name) = ok name
  key_name (TypeKey.custom_type _) = err Fault.panicked

  -- The table that a deferred reference is to: what is declared of its key, or the key itself.
  abbrev referred_name : Option (DeferredSqlType X) → TypeKey → Result (Fault X) String
  referred_name (some (DeferredSqlType.deferred (TypeKey.pk name))) key = ok name
  referred_name (some (DeferredSqlType.deferred (TypeKey.custom_type _))) key = key_name key
  referred_name (some (DeferredSqlType.known _)) key = key_name key
  referred_name (some (DeferredSqlType.known_id _)) key = key_name key
  referred_name none key = key_name key

  -- A reference to the primary key of the table, if there is one.
  abbrev literal_to : ARef X → String → Option (ATable X) → ARef X
  literal_to old name none = old
  literal_to old name (some table) = elim (pk_of table) [
    | none ↦ old
    | some key ↦ ARef.literal (record { table_name = name; column_name = key.name })
  ]

  unfoldable pub resolved_reference :
      Map.Map TypeKey (DeferredSqlType X)
      → Map.Map String (ATable X)
      → Option (ARef X)
      → Result (Fault X) (Option (ARef X))
  resolved_reference extra_types tables none = ok none
  resolved_reference extra_types tables (some (ARef.literal l)) = ok (some (ARef.literal l))
  resolved_reference extra_types tables (some (ARef.deferred (DeferredSqlType.deferred key))) = do
    name ← referred_name (Map.get key extra_types) key
    let old : ARef X = ARef.deferred (DeferredSqlType.deferred key)
    ok (some (literal_to old name (Map.get name tables)))
  resolved_reference extra_types tables (some (ARef.deferred (DeferredSqlType.known _))) =
      err Fault.panicked
  resolved_reference extra_types tables (some (ARef.deferred (DeferredSqlType.known_id _))) =
      err Fault.panicked

  -- `AColumn::resolve_reference_target`
  unfoldable pub resolve_reference_target :
      Map.Map TypeKey (DeferredSqlType X)
      → Map.Map String (ATable X)
      → AColumn X
      → Result (Fault X) (AColumn X)
  resolve_reference_target extra_types tables col = do
    reference ← resolved_reference extra_types tables col.reference
    ok (record col { reference = reference })
