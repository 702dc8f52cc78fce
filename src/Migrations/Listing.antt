-- ===== src/Migrations/Listing.antt =====
-- The loops along a series of migrations against the chain as a list, newest first.
use mathlib.Core.List.{reverse, append_assoc, append-nil}
use mathlib.Core.Option
use butane.Prelude.{
  ℕ, zero, suc, ◌≤◌, String, Bool, Option, none, some, List, [], ◌∷◌, ◌++◌, length, find, contains,
  Result, ok, err, ◌≡◌, refl, arith, inl, inr, Bool-cases, if◌then◌else◌, ◌∙◌,
}
use butane.Value.{Externals, Fault}
use butane.Migrations.Types.{MemMigration, MemMigrations, migration_eq, get_named, latest}
use butane.Migrations.Series.{
  not_in_chain, previous, since_loop, migrations_since, all_loop, all_migrations, last_loop,
}
use butane.Migrations.Chain.{IsWalk, IsChain}

module _ {ℓ} {A : Type ℓ} where
  -- The elements before the first that passes the test, if one does.
  unfoldable pub before : (A → Bool) → List A → Option (List A)
  before p [] = none
  before p (x ∷ l) = if p x then some [] else Option.map (◌∷◌ x) (before p l)

  -- The elements up to the first that passes the test, or all.
  unfoldable pub up_to : (A → Bool) → List A → List A
  up_to p [] = []
  up_to p (x ∷ l) = if p x then [] else x ∷ up_to p l

  -- The elements from the first that passes the test on.
  unfoldable pub on_from : (A → Bool) → List A → List A
  on_from p [] = []
  on_from p (x ∷ l) = if p x then x ∷ l else on_from p l

module _ {X : Externals} where
  all_loop-IsWalk :
      (ms : MemMigrations X) (fuel : ℕ) (c : Option String) (l accum : List (MemMigration X))
      → IsWalk ms c l
      → length l ≤ fuel
      → all_loop fuel ms (get_named ms c) accum ≡ some (ok (reverse (accum ++ l)))
  unfolding IsWalk all_loop get_named previous
  all_loop-IsWalk ms fuel none [] accum h enough = rw append-nil refl
  all_loop-IsWalk ms fuel none (m ∷ l) accum h enough = elim h [ ]
  all_loop-IsWalk ms fuel (some n) [] accum h enough = elim h [ ]
  all_loop-IsWalk ms zero (some n) (m ∷ l) accum h enough = absurd (omega (arith, enough))
  all_loop-IsWalk ms (suc fuel) (some n) (m ∷ l) accum (here, named, rest) enough =
      rw (here, ← append_assoc accum (m ∷ []) l)
        (all_loop-IsWalk ms fuel m.from l (accum ++ (m ∷ [])) rest (omega (arith, enough)))

  -- With as much fuel as the chain is long, all migrations are listed, the oldest first.
  pub all_migrations-IsChain :
      (ms : MemMigrations X) (fuel : ℕ) (l : List (MemMigration X))
      → IsChain ms l
      → length l ≤ fuel
      → all_migrations fuel ms ≡ some (ok (reverse l))
  unfolding all_migrations latest
  all_migrations-IsChain ms fuel l h enough = all_loop-IsWalk ms fuel ms.latest l [] h enough

  -- What `migrations_since` should say, from the migrations after the given one, newest first.
  abbrev pub since_result :
      Option (List (MemMigration X)) → Result (Fault X) (List (MemMigration X))
  since_result none = err not_in_chain
  since_result (some newer) = ok (reverse newer)

  since_result-later :
      (accum : List (MemMigration X)) (m : MemMigration X) (o : Option (List (MemMigration X)))
      → some (since_result (Option.map (λ newer. (accum ++ (m ∷ [])) ++ newer) o))
        ≡ some (since_result (Option.map (λ newer. accum ++ newer) (Option.map (◌∷◌ m) o)))
  since_result-later accum m none = refl
  since_result-later accum m (some newer) = rw append_assoc refl

  since_result-all :
      (o : Option (List (MemMigration X)))
      → some (since_result (Option.map (λ newer. [] ++ newer) o)) ≡ some (since_result o)
  since_result-all none = refl
  since_result-all (some newer) = refl

  since_loop-IsWalk :
      (ms : MemMigrations X) (since : MemMigration X) (fuel : ℕ) (c : Option String)
      (l accum : List (MemMigration X))
      → IsWalk ms c l
      → length l ≤ fuel
      → since_loop fuel ms since (get_named ms c) accum
        ≡ some (
            since_result
              (Option.map (λ newer. accum ++ newer) (before (λ m. migration_eq m since) l)))
  unfolding IsWalk since_loop get_named previous before
  since_loop-IsWalk ms since fuel none [] accum h enough = refl
  since_loop-IsWalk ms since fuel none (m ∷ l) accum h enough = elim h [ ]
  since_loop-IsWalk ms since fuel (some n) [] accum h enough = elim h [ ]
  since_loop-IsWalk ms since zero (some n) (m ∷ l) accum h enough = absurd (omega (arith, enough))
  since_loop-IsWalk ms since (suc fuel) (some n) (m ∷ l) accum (here, named, rest) enough =
      let recur =
        since_loop-IsWalk ms since fuel m.from l (accum ++ (m ∷ [])) rest (omega (arith, enough)) in
      elim (Bool-cases (migration_eq m since)) [
        | inl e ↦ rw (here, e, append-nil) refl
        | inr e ↦ rw (here, e) (recur ∙ since_result-later accum m _)
      ]

  -- With as much fuel as the chain is long, the migrations after the given one are listed, the oldest
  -- first; it is an error if the given one is not in the chain.
  pub migrations_since-IsChain :
      (ms : MemMigrations X) (since : MemMigration X) (fuel : ℕ) (l : List (MemMigration X))
      → IsChain ms l
      → length l ≤ fuel
      → migrations_since fuel ms since ≡ some (since_result (before (λ m. migration_eq m since) l))
  unfolding migrations_since latest
  migrations_since-IsChain ms since fuel l h enough =
      since_loop-IsWalk ms since fuel ms.latest l [] h enough ∙ since_result-all _

  pub last_loop-IsWalk :
      (ms : MemMigrations X) (names : List String) (fuel : ℕ) (c : Option String)
      (l : List (MemMigration X))
      → IsWalk ms c l
      → length l ≤ fuel
      → last_loop fuel ms names (get_named ms c) ≡ some (ok (find (λ m. contains m.name names) l))
  unfolding IsWalk last_loop get_named previous find
  last_loop-IsWalk ms names fuel none [] h enough = refl
  last_loop-IsWalk ms names fuel none (m ∷ l) h enough = elim h [ ]
  last_loop-IsWalk ms names fuel (some n) [] h enough = elim h [ ]
  last_loop-IsWalk ms names zero (some n) (m ∷ l) h enough = absurd (omega (arith, enough))
  last_loop-IsWalk ms names (suc fuel) (some n) (m ∷ l) (here, named, rest) enough =
      let recur = last_loop-IsWalk ms names fuel m.from l rest (omega (arith, enough)) in
      elim (Bool-cases (contains m.name names)) [
        | inl e ↦ rw (here, e) refl
        | inr e ↦ rw (here, e) recur
      ]
