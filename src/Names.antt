-- ===== src/Names.antt =====
-- `BTreeSet<&String>`: names, sorted, and each once.
use Prim.Native.Nat.{Ordering}
use butane.Prelude.{
  not, List, [], ◌∷◌, retain, String, contains, ◌≡◌, refl, arith, ◌&&◌, ◌||◌, eq_iff, ◌==◌,
}
use butane.Prelude.Ord.{string_ord}

unfoldable pub add : String → List String → List String
add k [] = k ∷ []
add k (j ∷ l) =
    let rest = add k l in
    elim (string_ord.cmp k j) [
      | Ordering.lt ↦ k ∷ j ∷ l
      | Ordering.eq ↦ j ∷ l
      | Ordering.gt ↦ j ∷ rest
    ]

unfoldable pub collect : List String → List String
unfolding add
collect [] = []
collect (k ∷ l) = add k (collect l)

unfoldable pub difference : List String → List String → List String
difference a b = retain (λ k. not (contains k b)) a

unfoldable pub intersection : List String → List String → List String
intersection a b = retain (λ k. contains k b) a

contains-add : (k j : String) (l : List String) → contains j (add k l) ≡ (k == j || contains j l)
unfolding add contains
contains-add k j [] = ground arith
contains-add k j (i ∷ l) =
    ground (arith, contains-add k j l, eq_iff k j, eq_iff i j, string_ord.eq_of_cmp k i)

pub contains-collect : (j : String) (l : List String) → contains j (collect l) ≡ contains j l
unfolding collect contains
contains-collect j [] = refl
contains-collect j (k ∷ l) = ground (arith, contains-collect j l, contains-add k j (collect l))

pub contains-difference :
    (k : String) (a b : List String)
    → contains k (difference a b) ≡ (contains k a && not (contains k b))
unfolding difference contains retain
contains-difference k [] b = ground arith
contains-difference k (i ∷ a) b = ground (arith, contains-difference k a b, eq_iff i k)

pub contains-intersection :
    (k : String) (a b : List String)
    → contains k (intersection a b) ≡ (contains k a && contains k b)
unfolding intersection contains retain
contains-intersection k [] b = ground arith
contains-intersection k (i ∷ a) b = ground (arith, contains-intersection k a b, eq_iff i k)
