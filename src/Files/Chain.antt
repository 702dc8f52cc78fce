-- ===== src/Files/Chain.antt =====
-- The series of migrations on files, from the latest back, as a list of their names, and what the
-- loops of the trait `Migrations` make of it.
use mathlib.Core.List.{reverse, append_assoc, append-nil}
use mathlib.Core.Option
use butane.Prelude.{
  ℕ, zero, suc, ◌≤◌, String, Option, none, some, List, [], ◌∷◌, ◌++◌, length, find, contains,
  Result, ok, err, ◌≡◌, refl, arith, inl, inr, Bool-cases, ◌∙◌,
}
use butane.Prelude.Ord.{same, string_ord}
use butane.Value.{Externals, Fault}
use butane.Migrations.Listing.{before}
use butane.Files.Types.{MigrationsState, Formats, Root}
use butane.Files.Folder.{migration_from}
use butane.Files.Series.{
  in_chain_only, folder, get_migration, get_named, get_state, latest, previous, since_loop,
  migrations_since, all_loop, all_migrations, last_loop,
}

module _ {X : Externals} where
  -- What `migrations_since` should say, from the migrations after the given one, newest first.
  abbrev pub since_files : Option (List String) → Result (Fault X) (List String)
  since_files none = err in_chain_only
  since_files (some newer) = ok (reverse newer)

  since_files-later :
      (accum : List String) (m : String) (o : Option (List String))
      → some (since_files (Option.map (λ newer. (accum ++ (m ∷ [])) ++ newer) o))
        ≡ some (since_files (Option.map (λ newer. accum ++ newer) (Option.map (◌∷◌ m) o)))
  since_files-later accum m none = refl
  since_files-later accum m (some newer) = rw append_assoc refl

  since_files-all :
      (o : Option (List String))
      → some (since_files (Option.map (λ newer. [] ++ newer) o)) ≡ some (since_files o)
  since_files-all none = refl
  since_files-all (some newer) = refl

module _ {X : Externals} {F : Formats X} where
  -- Going back from a name meets the migrations of the list, and then one that has no predecessor.
  unfoldable pub IsWalk : Root F → Option String → List String → Type 0
  IsWalk root none [] = Unit
  IsWalk root none (m ∷ l) = ⊥
  IsWalk root (some n) [] = ⊥
  IsWalk root (some n) (m ∷ l) =
      (m ≡ n)
      × (get_migration root m ≡ some m)
      × (from : Option String) × (migration_from (folder root m) ≡ ok from)
      × IsWalk root from l

  -- The state can be read, and the walk from its latest migration meets the list.
  abbrev pub IsChain : Root F → List String → Type 0
  IsChain root l =
      (state : MigrationsState) × (get_state root ≡ ok state) × IsWalk root state.latest l

  -- A walk begins with the migration of its name.
  pub get_named-IsWalk :
      (root : Root F) (c : Option String) (m : String) (l : List String)
      → IsWalk root c (m ∷ l)
      → (get_named root c ≡ some m)
        × (c ≡ some m)
        × (from : Option String) × (migration_from (folder root m) ≡ ok from)
        × IsWalk root from l
  unfolding IsWalk get_named
  get_named-IsWalk root none m l h = elim h [ ]
  get_named-IsWalk root (some n) m l (named, here, from, read, rest) =
      (rw (← named) here, rw (← named) refl, from, read, rest)

  pub get_named-nil :
      (root : Root F) (c : Option String) → IsWalk root c [] → get_named root c ≡ none
  unfolding IsWalk get_named
  get_named-nil root none h = refl
  get_named-nil root (some n) h = elim h [ ]

  all_loop-IsWalk :
      (root : Root F) (fuel : ℕ) (c : Option String) (l accum : List String)
      → IsWalk root c l
      → length l ≤ fuel
      → all_loop fuel root (get_named root c) accum ≡ some (ok (reverse (accum ++ l)))
  unfolding all_loop previous
  all_loop-IsWalk root fuel c [] accum h enough = rw (get_named-nil root c h, append-nil) refl
  all_loop-IsWalk root zero c (m ∷ l) accum h enough = absurd (omega (arith, enough))
  all_loop-IsWalk root (suc fuel) c (m ∷ l) accum h enough =
      let (here, _, from, read, rest) = get_named-IsWalk root c m l h in
      rw (here, read, ← append_assoc accum (m ∷ []) l)
        (all_loop-IsWalk root fuel from l (accum ++ (m ∷ [])) rest (omega (arith, enough)))

  -- The latest migration of a readable state.
  pub latest-IsChain :
      (root : Root F) (state : MigrationsState)
      → get_state root ≡ ok state
      → latest root ≡ get_named root state.latest
  unfolding latest
  latest-IsChain root state h = rw h refl

  -- With as much fuel as the chain is long, all migrations are listed, the oldest first.
  pub all_migrations-lists :
      (root : Root F) (fuel : ℕ) (l : List String)
      → IsChain root l
      → length l ≤ fuel
      → all_migrations fuel root ≡ some (ok (reverse l))
  unfolding all_migrations
  all_migrations-lists root fuel l (state, known, h) enough =
      rw (latest-IsChain root state known) (all_loop-IsWalk root fuel state.latest l [] h enough)

  since_loop-IsWalk :
      (root : Root F) (since : String) (fuel : ℕ) (c : Option String) (l accum : List String)
      → IsWalk root c l
      → length l ≤ fuel
      → since_loop fuel root since (get_named root c) accum
        ≡ some (since_files (Option.map (λ newer. accum ++ newer) (before (λ m. same m since) l)))
  unfolding since_loop previous before
  since_loop-IsWalk root since fuel c [] accum h enough = rw (get_named-nil root c h) refl
  since_loop-IsWalk root since zero c (m ∷ l) accum h enough = absurd (omega (arith, enough))
  since_loop-IsWalk root since (suc fuel) c (m ∷ l) accum h enough =
      let (here, _, from, read, rest) = get_named-IsWalk root c m l h in
      let recur =
        since_loop-IsWalk root since fuel from l (accum ++ (m ∷ [])) rest (omega (arith, enough)) in
      elim (Bool-cases (same m since)) [
        | inl e ↦ rw (here, e, append-nil) refl
        | inr e ↦ rw (here, e, read) (recur ∙ since_files-later accum m _)
      ]

  -- With as much fuel as the chain is long, the migrations after the given one are listed, the oldest
  -- first; it is an error if the given one is not in the chain.
  pub migrations_since-lists :
      (root : Root F) (since : String) (fuel : ℕ) (l : List String)
      → IsChain root l
      → length l ≤ fuel
      → migrations_since fuel root since ≡ some (since_files (before (λ m. same m since) l))
  unfolding migrations_since
  migrations_since-lists root since fuel l (state, known, h) enough =
      rw (latest-IsChain root state known)
        (since_loop-IsWalk root since fuel state.latest l [] h enough ∙ since_files-all _)

  last_loop-IsWalk :
      (root : Root F) (names : List String) (fuel : ℕ) (c : Option String) (l : List String)
      → IsWalk root c l
      → length l ≤ fuel
      → last_loop fuel root names (get_named root c) ≡ some (ok (find (λ m. contains m names) l))
  unfolding last_loop previous find
  last_loop-IsWalk root names fuel c [] h enough = rw (get_named-nil root c h) refl
  last_loop-IsWalk root names zero c (m ∷ l) h enough = absurd (omega (arith, enough))
  last_loop-IsWalk root names (suc fuel) c (m ∷ l) h enough =
      let (here, _, from, read, rest) = get_named-IsWalk root c m l h in
      let recur = last_loop-IsWalk root names fuel from l rest (omega (arith, enough)) in
      elim (Bool-cases (contains m names)) [
        | inl e ↦ rw (here, e) refl
        | inr e ↦ rw (here, e, read) recur
      ]

  pub last_loop-latest :
      (root : Root F) (names : List String) (fuel : ℕ) (l : List String)
      → IsChain root l
      → length l ≤ fuel
      → last_loop fuel root names (latest root) ≡ some (ok (find (λ m. contains m names) l))
  last_loop-latest root names fuel l (state, known, h) enough =
      rw (latest-IsChain root state known)
        (last_loop-IsWalk root names fuel state.latest l h enough)
