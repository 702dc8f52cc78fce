-- ===== src/Schema/Keys.antt =====
-- `TypeKey` with its order and its text as a key of a JSON object.
use Prim.Native.Nat.{Ordering}
use Prim.Native.String.{compare}
use butane.Prelude.{String, ◌≡◌, ap, ◌<>◌}
use butane.Prelude.Ord.{Ord, string_ord}

pub data TypeKey : Type 0 where
  pk : String → TypeKey
  custom_type : String → TypeKey

unfoldable pub cmp : TypeKey → TypeKey → Ordering
cmp (TypeKey.pk s) (TypeKey.pk t) = compare s t
cmp (TypeKey.pk s) (TypeKey.custom_type t) = Ordering.lt
cmp (TypeKey.custom_type s) (TypeKey.pk t) = Ordering.gt
cmp (TypeKey.custom_type s) (TypeKey.custom_type t) = compare s t

pub cmp_refl : (a : TypeKey) → cmp a a ≡ Ordering.eq
unfolding cmp
cmp_refl (TypeKey.pk s) = string_ord.cmp_refl s
cmp_refl (TypeKey.custom_type s) = string_ord.cmp_refl s

pub eq_of_cmp : (a b : TypeKey) → cmp a b ≡ Ordering.eq → a ≡ b
unfolding cmp
eq_of_cmp (TypeKey.pk s) (TypeKey.pk t) h = ap TypeKey.pk (string_ord.eq_of_cmp s t h)
eq_of_cmp (TypeKey.pk s) (TypeKey.custom_type t) h = cc
eq_of_cmp (TypeKey.custom_type s) (TypeKey.pk t) h = cc
eq_of_cmp (TypeKey.custom_type s) (TypeKey.custom_type t) h =
    ap TypeKey.custom_type (string_ord.eq_of_cmp s t h)

instance unfoldable pub key_ord : Ord TypeKey
unfolding cmp
key_ord = record { cmp = cmp; cmp_refl = cmp_refl; eq_of_cmp = eq_of_cmp }

-- `Display`
unfoldable pub show_key : TypeKey → String
show_key (TypeKey.pk name) = "PK(" <> name <> ")"
show_key (TypeKey.custom_type name) = "CustomType(" <> name <> ")"
