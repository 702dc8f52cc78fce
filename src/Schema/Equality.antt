-- ===== src/Schema/Equality.antt =====
-- `PartialEq` of columns and what they hold. A type that is `Known` equals a `KnownId` of that type.
use butane.Prelude.{
  Bool, true, false, ◌&&◌, Option, none, some, ◌==◌, bool_eq, ◌≡◌, refl, arith, eq_refl,
  bool_eq_refl,
}
use butane.Value.{Externals, SqlVal}
use butane.Value.Equality.{type_eq, val_eq, IsComparable, type_eq_refl, val_eq_refl}
use butane.Schema.Keys.{TypeKey}
use butane.Schema.Types.{TypeIdentifier, DeferredSqlType, ARef, AColumn}

abbrev pub key_eq : TypeKey → TypeKey → Bool
key_eq (TypeKey.pk s) (TypeKey.pk t) = s == t
key_eq (TypeKey.custom_type s) (TypeKey.custom_type t) = s == t
key_eq _ _ = false

abbrev pub option_eq {ℓ} : {A : Type ℓ} → (A → A → Bool) → Option A → Option A → Bool
option_eq eq none none = true
option_eq eq (some a) (some b) = eq a b
option_eq eq _ _ = false

module _ {X : Externals} where
  unfoldable pub id_eq : TypeIdentifier X → TypeIdentifier X → Bool
  id_eq (TypeIdentifier.ty s) (TypeIdentifier.ty t) = type_eq s t
  id_eq (TypeIdentifier.name s) (TypeIdentifier.name t) = s == t
  id_eq _ _ = false

  unfoldable pub deferred_eq : DeferredSqlType X → DeferredSqlType X → Bool
  deferred_eq (DeferredSqlType.known s) (DeferredSqlType.known t) = type_eq s t
  deferred_eq (DeferredSqlType.known_id s) (DeferredSqlType.known_id t) = id_eq s t
  deferred_eq (DeferredSqlType.known s) (DeferredSqlType.known_id t) = id_eq (TypeIdentifier.ty s) t
  deferred_eq (DeferredSqlType.known_id s) (DeferredSqlType.known t) = id_eq s (TypeIdentifier.ty t)
  deferred_eq (DeferredSqlType.deferred s) (DeferredSqlType.deferred t) = key_eq s t
  deferred_eq _ _ = false

  unfoldable pub ref_eq : ARef X → ARef X → Bool
  ref_eq (ARef.literal a) (ARef.literal b) =
      a.table_name == b.table_name && a.column_name == b.column_name
  ref_eq (ARef.deferred s) (ARef.deferred t) = deferred_eq s t
  ref_eq _ _ = false

  unfoldable pub column_eq : AColumn X → AColumn X → Bool
  column_eq a b =
      a.name == b.name
      && deferred_eq a.sqltype b.sqltype
      && bool_eq a.nullable b.nullable
      && bool_eq a.pk b.pk
      && bool_eq a.auto b.auto
      && bool_eq a.unique b.unique
      && option_eq val_eq a.default b.default
      && option_eq ref_eq a.reference b.reference

  id_eq_refl : (t : TypeIdentifier X) → id_eq t t ≡ true
  unfolding id_eq
  id_eq_refl (TypeIdentifier.ty s) = type_eq_refl s
  id_eq_refl (TypeIdentifier.name s) = eq_refl s

  deferred_eq_refl : (t : DeferredSqlType X) → deferred_eq t t ≡ true
  unfolding deferred_eq
  deferred_eq_refl (DeferredSqlType.known s) = type_eq_refl s
  deferred_eq_refl (DeferredSqlType.known_id s) = id_eq_refl s
  deferred_eq_refl (DeferredSqlType.deferred (TypeKey.pk s)) = eq_refl s
  deferred_eq_refl (DeferredSqlType.deferred (TypeKey.custom_type s)) = eq_refl s

  reference_eq_refl : (r : Option (ARef X)) → option_eq ref_eq r r ≡ true
  unfolding ref_eq
  reference_eq_refl none = refl
  reference_eq_refl (some (ARef.literal a)) =
      ground (arith, eq_refl a.table_name, eq_refl a.column_name)
  reference_eq_refl (some (ARef.deferred t)) = deferred_eq_refl t

  abbrev pub HasComparableDefault : AColumn X → Type 0
  HasComparableDefault c = (v : SqlVal X) → c.default ≡ some v → IsComparable v

  default_eq_refl :
      (d : Option (SqlVal X))
      → ((v : SqlVal X) → d ≡ some v → IsComparable v)
      → option_eq val_eq d d ≡ true
  default_eq_refl none h = refl
  default_eq_refl (some v) h = val_eq_refl v (h v refl)

  pub column_eq_refl : (c : AColumn X) → HasComparableDefault c → column_eq c c ≡ true
  unfolding column_eq
  column_eq_refl c h = ground (
    arith,
    eq_refl c.name,
    deferred_eq_refl c.sqltype,
    bool_eq_refl c.nullable,
    bool_eq_refl c.pk,
    bool_eq_refl c.auto,
    bool_eq_refl c.unique,
    default_eq_refl c.default h,
    reference_eq_refl c.reference,
  )
