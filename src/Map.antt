-- ===== src/Map.antt =====
-- `BTreeMap`, as the entries in the order of the keys.
use Prim.Native.Nat.{Ordering}
use butane.Prelude.{Option, none, some, List, [], ◌∷◌, map, if◌then◌else◌, ◌≡◌, arith}
use butane.Prelude.Ord.{Ord, same, same_iff}
use mathlib.Core.Option

pub record Map {ℓ κ} (K : Type ℓ) (V : Type κ) : Type (ℓ ⊔ κ) where
  pub entries : List (K × V)

abbrev pub empty {ℓ κ} : {K : Type ℓ} {V : Type κ} → Map K V
empty = record { entries = [] }

module _ {ℓ κ} {K : Type ℓ} {V : Type κ} where
  abbrev pub keys : Map K V → List K
  keys m = map (λ e. e.0) m.entries

  abbrev pub values : Map K V → List V
  values m = map (λ e. e.1) m.entries

module _ {ℓ κ} {K : Type ℓ} {V : Type κ} ⦃o : Ord K⦄ where
  unfoldable pub find_entry : K → List (K × V) → Option V
  find_entry k [] = none
  find_entry k ((j, v) ∷ l) = if same k j then some v else find_entry k l

  unfoldable pub insert_entry : K → V → List (K × V) → List (K × V)
  insert_entry k v [] = (k, v) ∷ []
  insert_entry k v ((j, w) ∷ l) =
      let rest = insert_entry k v l in
      elim (o.cmp k j) [
        | Ordering.lt ↦ (k, v) ∷ (j, w) ∷ l
        | Ordering.eq ↦ (k, v) ∷ l
        | Ordering.gt ↦ (j, w) ∷ rest
      ]

  unfoldable pub modify_entry : K → (V → V) → List (K × V) → List (K × V)
  modify_entry k f [] = []
  modify_entry k f ((j, w) ∷ l) =
      let rest = modify_entry k f l in if same k j then (j, f w) ∷ l else (j, w) ∷ rest

  unfoldable pub remove_entry : K → List (K × V) → List (K × V)
  remove_entry k [] = []
  remove_entry k ((j, w) ∷ l) =
      let rest = remove_entry k l in if same k j then rest else (j, w) ∷ rest

  unfoldable pub get : K → Map K V → Option V
  unfolding find_entry
  get k m = find_entry k m.entries

  unfoldable pub insert : K → V → Map K V → Map K V
  unfolding insert_entry
  insert k v m = record { entries = insert_entry k v m.entries }

  -- `if let Some(v) = m.get_mut(k) { *v = f(*v) }`
  unfoldable pub modify : K → (V → V) → Map K V → Map K V
  unfolding modify_entry
  modify k f m = record { entries = modify_entry k f m.entries }

  unfoldable pub remove : K → Map K V → Map K V
  unfolding remove_entry
  remove k m = record { entries = remove_entry k m.entries }

  find-insert_entry :
      (k j : K) (v : V) (l : List (K × V))
      → find_entry j (insert_entry k v l) ≡ (if same k j then some v else find_entry j l)
  unfolding find_entry insert_entry
  find-insert_entry k j v [] = ground (arith, same_iff k j, same_iff j k)
  find-insert_entry k j v ((i, w) ∷ l) = ground (
    arith,
    find-insert_entry k j v l,
    o.eq_of_cmp k i,
    same_iff k j,
    same_iff j k,
    same_iff j i,
    same_iff k i,
  )

  find-modify_entry :
      (k j : K) (f : V → V) (l : List (K × V))
      → find_entry j (modify_entry k f l)
        ≡ (if same k j then Option.map f (find_entry j l) else find_entry j l)
  unfolding find_entry modify_entry
  find-modify_entry k j f [] = ground arith
  find-modify_entry k j f ((i, w) ∷ l) =
      ground (arith, find-modify_entry k j f l, same_iff k j, same_iff j i, same_iff k i)

  find-remove_entry :
      (k j : K) (l : List (K × V))
      → find_entry j (remove_entry k l) ≡ (if same k j then none else find_entry j l)
  unfolding find_entry remove_entry
  find-remove_entry k j [] = ground arith
  find-remove_entry k j ((i, w) ∷ l) =
      ground (arith, find-remove_entry k j l, same_iff k j, same_iff j i, same_iff k i)

  pub get-insert :
      (k j : K) (v : V) (m : Map K V)
      → get j (insert k v m) ≡ (if same k j then some v else get j m)
  unfolding get insert
  get-insert k j v m = find-insert_entry k j v m.entries

  pub get-modify :
      (k j : K) (f : V → V) (m : Map K V)
      → get j (modify k f m) ≡ (if same k j then Option.map f (get j m) else get j m)
  unfolding get modify
  get-modify k j f m = find-modify_entry k j f m.entries

  pub get-remove :
      (k j : K) (m : Map K V) → get j (remove k m) ≡ (if same k j then none else get j m)
  unfolding get remove
  get-remove k j m = find-remove_entry k j m.entries

pub ruleset map_laws = (get-insert, get-modify, get-remove)
