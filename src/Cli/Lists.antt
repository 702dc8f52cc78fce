-- ===== src/Cli/Lists.antt =====
-- Lists of the names of migrations, as the commands cut them.
use mathlib.Core.List.{reverse, reverse-cons, reverse-append, append_assoc}
use mathlib.Core.Path.{subst}
use butane.Prelude.{
  ℕ, suc, String, true, false, ◌||◌, none, some, List, [], ◌∷◌, ◌++◌, length, any, find, contains,
  is_empty, ◌==◌, eq_iff, eq_refl, ◌≡◌, refl, sym, ap, arith, inl, inr, Bool-cases, ◌∙◌,
}
use butane.Prelude.Ord.{same, same_iff, string_ord}
use butane.Migrations.Listing.{before}
use butane.Migrations.Applied.{any-append}
use butane.Cli.Migrate.{position, split_at, last, is_last, keep_applied}

-- The first name that is applied, after some that are not.
pub find-ahead :
    (names ahead rest : List String) (latest : String)
    → any (λ m. contains m names) ahead ≡ false
    → contains latest names ≡ true
    → find (λ m. contains m names) (ahead ++ (latest ∷ rest)) ≡ some latest
unfolding find any
find-ahead names [] rest latest none_ahead applied = rw applied refl
find-ahead names (m ∷ ahead) rest latest none_ahead applied =
    ground (arith, none_ahead, find-ahead names ahead rest latest)

-- The names before one that is not among them.
pub before-append :
    (to : String) (newer older : List String)
    → contains to newer ≡ false
    → before (λ m. same m to) (newer ++ (to ∷ older)) ≡ some newer
unfolding before contains any
before-append to [] older h = rw ((same_iff to to).1 refl) refl
before-append to (m ∷ newer) older h =
    ground (arith, before-append to newer older, same_iff m to, eq_iff m to)

pub contains-append :
    (k : String) (a b : List String) → contains k (a ++ b) ≡ (contains k a || contains k b)
unfolding contains
contains-append k a b = any-append (λ x. x == k) a b

or_flip :
    (k x : String) (l : List String) → (contains k l || contains k (x ∷ [])) ≡ contains k (x ∷ l)
unfolding contains any
or_flip k x l = ground arith

pub contains-reverse : (k : String) (l : List String) → contains k (reverse l) ≡ contains k l
contains-reverse k [] = refl
contains-reverse k (x ∷ l) =
    rw (reverse-cons, contains-append, contains-reverse k l) (or_flip k x l)

last-append : (x : String) (l : List String) → last (l ++ (x ∷ [])) ≡ some x
unfolding last
last-append x [] = refl
last-append x (y ∷ []) = refl
last-append x (y ∷ z ∷ l) = last-append x (z ∷ l)

position-append :
    (k : String) (a b : List String)
    → contains k a ≡ false
    → position (λ m. m == k) (a ++ (k ∷ b)) ≡ some (length a)
unfolding position contains any
position-append k [] b h = rw (eq_refl k) refl
position-append k (x ∷ a) b h = elim (Bool-cases (x == k)) [
  | inl e ↦ absurd (ground (arith, h, e))
  | inr e ↦ let recur = position-append k a b (ground (arith, h, e)) in rw (e, recur) refl
]

split_at-append :
    (k : String) (a b : List String) → split_at (suc (length a)) (a ++ (k ∷ b)) ≡ a ++ (k ∷ [])
unfolding split_at
split_at-append k [] b = refl
split_at-append k (x ∷ a) b = ap (◌∷◌ x) (split_at-append k a b)

other_name : (a k : String) (l : List String) → contains k (a ∷ l) ≡ false → (a == k) ≡ false
unfolding contains any
other_name a k l h = ground (arith, h)

keep_cut :
    (l : List String) (a latest : String) (i : ℕ)
    → last l ≡ some a
    → (a == latest) ≡ false
    → position (λ m. m == latest) l ≡ some i
    → keep_applied l latest ≡ some (split_at (suc i) l)
unfolding keep_applied
keep_cut l a latest i ends other found = rw (ends, other, found) refl

-- Latest first or oldest first.
pub split_reverse :
    (ahead middle : List String) (latest : String)
    → reverse (ahead ++ (latest ∷ middle)) ≡ reverse middle ++ (latest ∷ reverse ahead)
split_reverse ahead middle latest =
    reverse-append ahead (latest ∷ middle)
    ∙ ap (λ l. l ++ reverse ahead) (reverse-cons latest middle)
    ∙ append_assoc (reverse middle) (latest ∷ []) (reverse ahead)

-- Of the names after one, oldest first, those up to the latest applied are kept, whichever are ahead.
pub keep_applied-reverse :
    (ahead middle : List String) (latest : String)
    → contains latest ahead ≡ false
    → contains latest middle ≡ false
    → keep_applied (reverse (ahead ++ (latest ∷ middle))) latest ≡ some (reverse (latest ∷ middle))
unfolding keep_applied
keep_applied-reverse [] middle latest h k =
    rw (reverse-cons, last-append latest (reverse middle), eq_refl latest) refl
keep_applied-reverse (a ∷ ahead) middle latest h k =
    let l : List String = reverse ((a ∷ ahead) ++ (latest ∷ middle)) in
    let ends : last l ≡ some a =
      ap last (reverse-cons a (ahead ++ (latest ∷ middle)))
      ∙ last-append a (reverse (ahead ++ (latest ∷ middle))) in
    let split : l ≡ reverse middle ++ (latest ∷ reverse (a ∷ ahead)) =
      split_reverse (a ∷ ahead) middle latest in
    let absent : contains latest (reverse middle) ≡ false = contains-reverse latest middle ∙ k in
    let found : position (λ m. m == latest) l ≡ some (length (reverse middle)) =
      ap (position (λ m. m == latest)) split
      ∙ position-append latest (reverse middle) (reverse (a ∷ ahead)) absent in
    keep_cut l a latest (length (reverse middle)) ends (other_name a latest ahead h) found
    ∙ ap (λ r. some (split_at (suc (length (reverse middle))) r)) split
    ∙ ap some (split_at-append latest (reverse middle) (reverse (a ∷ ahead)))
    ∙ ap some (sym (reverse-cons latest middle))

pub find-nothing : (l : List String) → find (λ m. contains m []) l ≡ none
unfolding find contains any
find-nothing [] = refl
find-nothing (m ∷ l) = find-nothing l

pub absent :
    (k a : String) (l m : List String) → contains k (l ++ (a ∷ m)) ≡ false → (k == a) ≡ false
unfolding contains any
absent k a [] m h = ground (arith, h, eq_iff k a, eq_iff a k)
absent k a (x ∷ l) m h = absent k a l m (ground (arith, h))

pub unapplied_absent :
    (names ahead : List String) (latest : String)
    → any (λ m. contains m names) ahead ≡ false
    → contains latest names ≡ true
    → contains latest ahead ≡ false
unfolding any contains
unapplied_absent names [] latest h k = refl
unapplied_absent names (a ∷ ahead) latest h k = elim (Bool-cases (a == latest)) [
  | inl e ↦
      let q : a ≡ latest = (eq_iff a latest).0 e in
      let k' : contains a names ≡ true = subst (λ m. contains m names ≡ true) (sym q) k in
      absurd (ground (arith, h, k'))
  | inr e ↦ rw e (unapplied_absent names ahead latest (ground (arith, h)) k)
]

pub is_empty-append : (x : String) (a b : List String) → is_empty (a ++ (x ∷ b)) ≡ false
is_empty-append x [] b = refl
is_empty-append x (y ∷ a) b = refl

not_last : (k : String) (l : List String) → contains k l ≡ false → is_last (last l) k ≡ false
unfolding last contains any
not_last k [] h = refl
not_last k (x ∷ []) h = ground (arith, h)
not_last k (x ∷ y ∷ l) h = not_last k (y ∷ l) (ground (arith, h))

no_position :
    (k : String) (l : List String) → contains k l ≡ false → position (λ m. m == k) l ≡ none
unfolding position contains any
no_position k [] h = refl
no_position k (x ∷ l) h = elim (Bool-cases (x == k)) [
  | inl e ↦ absurd (ground (arith, h, e))
  | inr e ↦ let recur = no_position k l (ground (arith, h, e)) in rw (e, recur) refl
]

-- Where the latest applied migration is not among the names, there is nothing to keep.
pub keep_applied-absent :
    (l : List String) (latest : String) → contains latest l ≡ false → keep_applied l latest ≡ none
unfolding keep_applied
keep_applied-absent l latest h = rw (not_last latest l h, no_position latest l h) refl

pub is_empty-reverse : (l : List String) → is_empty (reverse l) ≡ is_empty l
is_empty-reverse [] = refl
is_empty-reverse (x ∷ l) = ap is_empty (reverse-cons x l) ∙ is_empty-append x (reverse l) []

-- A name that is in none of several parts.
pub other_one :
    (k a : String) (l m : List String) → contains k (l ++ (a ∷ m)) ≡ false → (a == k) ≡ false
unfolding contains any
other_one k a [] m h = ground (arith, h)
other_one k a (x ∷ l) m h = other_one k a l m (ground (arith, h))

pub front_only :
    (k a : String) (l m : List String) → contains k (l ++ (a ∷ m)) ≡ false → contains k l ≡ false
unfolding contains any
front_only k a [] m h = refl
front_only k a (x ∷ l) m h = ground (arith, h, front_only k a l m)
