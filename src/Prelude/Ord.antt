-- ===== src/Prelude/Ord.antt =====
-- The bound `K: Ord` of a map's keys. Maps need of the order only that equal answers mean equal keys.
use Prim.Native.Nat.{Ordering}
use Prim.Native.String.{String, compare}
use mathlib.Core.Path.{◌≡◌, ap, subst}
use mathlib.Core.Logic.{◌↔◌}
use mathlib.Core.Bool.{Bool, true, false}
use text.Mathlib.TextEquality.{path_by_compare}
use text.Mathlib.TextPositions.{compare_refl}
use native.Mathlib.Omega.{arith}

pub record Ord {ℓ} (K : Type ℓ) : Type ℓ where
  pub cmp : K → K → Ordering
  pub cmp_refl : (a : K) → cmp a a ≡ Ordering.eq
  pub eq_of_cmp : (a b : K) → cmp a b ≡ Ordering.eq → a ≡ b

abbrev pub is_eq : Ordering → Bool
is_eq Ordering.eq = true
is_eq Ordering.lt = false
is_eq Ordering.gt = false

abbrev pub same {ℓ} : {K : Type ℓ} ⦃o : Ord K⦄ → K → K → Bool
same ⦃o⦄ a b = is_eq (o.cmp a b)

pub same_iff {ℓ} : {K : Type ℓ} ⦃o : Ord K⦄ (a b : K) → (same a b ≡ true) ↔ (a ≡ b)
same_iff ⦃o⦄ a b = (
  λ h. o.eq_of_cmp a b (ground arith),
  λ e. subst (λ x. is_eq (o.cmp a x) ≡ true) e (ap is_eq (o.cmp_refl a)),
)

instance abbrev pub string_ord : Ord String
string_ord = record { cmp = compare; cmp_refl = compare_refl; eq_of_cmp = path_by_compare }
