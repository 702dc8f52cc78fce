-- ===== src/Prelude/Partial.antt =====
-- Code that may panic, as `Option`: `none` is the panic of a failed `unwrap` or `expect`.
use mathlib.Core.Path.{◌≡◌, refl}
use mathlib.Core.List.{List, [], ◌∷◌, ◌++◌}
use mathlib.Core.Option.{Option, none, some}
use mathlib.Core.Bool.{true}
use Prim.Native.String.{String}
use text.Mathlib.TextPositions.{eq_refl}
use native.Mathlib.Omega.{arith}
use butane.Prelude.Lists.{contains}

infixl 5 ◌>>=◌
abbrev pub ◌>>=◌ {ℓ κ} : {A : Type ℓ} {B : Type κ} → Option A → (A → Option B) → Option B
none >>= f = none
some a >>= f = f a

-- A loop that pushes what `f` gives for each element.
unfoldable pub collect_ops {ℓ κ} :
    {A : Type ℓ} {B : Type κ} → (A → Option (List B)) → List A → Option (List B)
collect_ops f [] = some []
collect_ops f (x ∷ xs) = do ys ← f x; zs ← collect_ops f xs; some (ys ++ zs)

pub >>=-eq-some {ℓ κ} :
    {A : Type ℓ} {B : Type κ} (m : Option A) (f : A → Option B) {b : B}
    → (m >>= f) ≡ some b
    → (a : A) × (m ≡ some a) × (f a ≡ some b)
>>=-eq-some none f h = cc
>>=-eq-some (some a) f h = (a, refl, h)

module _ {ℓ κ} {A : Type ℓ} {B : Type κ} (f : A → Option (List B)) where
  -- What a loop that did not panic has pushed.
  pub collect_ops-nil : (zs : List B) → collect_ops f [] ≡ some zs → zs ≡ []
  unfolding collect_ops
  collect_ops-nil zs h = cc

  pub collect_ops-cons :
      (x : A) (xs : List A) (zs : List B)
      → collect_ops f (x ∷ xs) ≡ some zs
      → (front : List B) × (back : List B) × (f x ≡ some front)
        × (collect_ops f xs ≡ some back)
        × (zs ≡ front ++ back)
  unfolding collect_ops
  collect_ops-cons x xs zs h =
      let (front, hf, h') = >>=-eq-some (f x) _ h in
      let (back, hb, e) = >>=-eq-some (collect_ops f xs) _ h' in (front, back, hf, hb, cc)

-- A loop over names does not panic if no round does.
pub collect_ops_total {ℓ} :
    {B : Type ℓ} (f : String → Option (List B)) (xs : List String)
    → ((x : String) → contains x xs ≡ true → (front : List B) × (f x ≡ some front))
    → (ops : List B) × (collect_ops f xs ≡ some ops)
unfolding collect_ops contains
collect_ops_total f [] h = ([], refl)
collect_ops_total f (x ∷ xs) h =
    let (front, hf) = h x (ground (arith, eq_refl x)) in
    let (back, hb) = collect_ops_total f xs (λ y m. h y (ground arith)) in
    (front ++ back, rw (hf, hb))
