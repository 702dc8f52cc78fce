-- ===== src/Migrations/Runs.antt =====
-- `migrate` and `unmigrate` against the chain as a list, newest first.
use mathlib.Core.List.{reverse}
use butane.Prelude.{
  ℕ, zero, suc, ◌≤◌, String, Option, none, some, List, [], ◌∷◌, length, find, ok, Result-cases, ◌≡◌,
  refl, arith, inl, inr, Bool-cases, Option-cases,
}
use butane.Prelude.Goes.{Goes}
use butane.Value.{Externals}
use butane.Migrations.Types.{MemMigration, MemMigrations}
use butane.Database.{Database}
use butane.Migrations.Run.{
  Run, and_then, apply, downgrade, apply_all, migrate, downgrade_loop, unmigrate,
}
use butane.Migrations.Chain.{IsWalk, IsChain}
use butane.Migrations.Listing.{up_to, on_from}
use butane.Migrations.Pending.{
  is_applied, recorded, last_applied_migration-IsChain, unapplied_migrations-IsChain,
}

module _ {X : Externals} (D : Database X) where
  -- Undoing the migrations of a list one after the other, to the first that fails.
  unfoldable pub downgrade_all : List (MemMigration X) → D.State → Run D
  downgrade_all [] s = (s, ok tt)
  downgrade_all (m ∷ l) s = and_then D (downgrade D m s) s (downgrade_all l)

  -- The loop of `migrate` is run over the migrations after the newest recorded one.
  pub migrate-apply_all :
      (ms : MemMigrations X) (fuel : ℕ) (l : List (MemMigration X)) (s : D.State)
      (names : List String)
      → IsChain ms l
      → length l ≤ fuel
      → recorded D s ≡ ok names
      → migrate D fuel ms s ≡ some (apply_all D (reverse (up_to (is_applied names) l)) s)
  unfolding migrate
  migrate-apply_all ms fuel l s names h enough known =
      rw (migrate, unapplied_migrations-IsChain D ms fuel l s names h enough known) refl

  apply_all-Goes :
      (l : List (MemMigration X)) (s : D.State) → Goes (apply D) (λ e. e) l s (apply_all D l s)
  unfolding apply_all
  apply_all-Goes [] s = Goes.done s
  apply_all-Goes (m ∷ l) s = elim (Result-cases (apply D m s)) [
    | inl (e, failed) ↦ rw (apply_all, failed) (Goes.fails m l s e failed)
    | inr (s', did) ↦
        rw (apply_all, did) (Goes.goes_on m l s s' (apply_all D l s') did (apply_all-Goes l s'))
  ]

  -- `migrate` applies the migrations that the chain has after the newest recorded one, the oldest
  -- first, up to the first that fails, given fuel for the length of the chain.
  pub migrate-IsChain :
      (ms : MemMigrations X) (fuel : ℕ) (l : List (MemMigration X)) (s : D.State)
      (names : List String)
      → IsChain ms l
      → length l ≤ fuel
      → recorded D s ≡ ok names
      → (end : Run D) × (migrate D fuel ms s ≡ some end)
        × Goes (apply D) (λ e. e) (reverse (up_to (is_applied names) l)) s end
  migrate-IsChain ms fuel l s names h enough known =
      let pending = reverse (up_to (is_applied names) l) in
      (
        apply_all D pending s,
        migrate-apply_all ms fuel l s names h enough known,
        apply_all-Goes pending s,
      )

  downgrade_loop-IsWalk :
      (ms : MemMigrations X) (fuel : ℕ) (c : Option String) (l : List (MemMigration X))
      (s : D.State)
      → IsWalk ms c l
      → length l ≤ fuel
      → downgrade_loop D fuel ms c s ≡ some (downgrade_all l s)
  unfolding IsWalk downgrade_loop downgrade_all
  downgrade_loop-IsWalk ms fuel none [] s h enough = refl
  downgrade_loop-IsWalk ms fuel none (m ∷ l) s h enough = elim h [ ]
  downgrade_loop-IsWalk ms fuel (some n) [] s h enough = elim h [ ]
  downgrade_loop-IsWalk ms zero (some n) (m ∷ l) s h enough = absurd (omega (arith, enough))
  downgrade_loop-IsWalk ms (suc fuel) (some n) (m ∷ l) s (here, named, rest) enough =
      elim (Result-cases (downgrade D m s)) [
        | inl (e, failed) ↦ rw (downgrade_loop, downgrade_all, here, failed) refl
        | inr (s', done) ↦
            rw (downgrade_loop, downgrade_all, here, done)
              (downgrade_loop-IsWalk ms fuel m.from l s' rest (omega (arith, enough)))
      ]

  -- From a migration of a walk on, the list is that migration and a walk from its predecessor.
  on_from-IsWalk :
      (ms : MemMigrations X) (names : List String) (c : Option String) (l : List (MemMigration X))
      (m : MemMigration X)
      → IsWalk ms c l
      → find (is_applied names) l ≡ some m
      → (older : List (MemMigration X)) × (on_from (is_applied names) l ≡ m ∷ older)
        × IsWalk ms m.from older
        × (length older ≤ length l)
  unfolding IsWalk find on_from
  on_from-IsWalk ms names none [] m h found = cc
  on_from-IsWalk ms names (some n) [] m h found = elim h [ ]
  on_from-IsWalk ms names none (k ∷ l) m h found = elim h [ ]
  on_from-IsWalk ms names (some n) (k ∷ l) m (here, named, rest) found =
      elim (Bool-cases (is_applied names k)) [
        | inl e ↦
            let same_one : k ≡ m = ground (arith, found, e) in
            rw (e, ← same_one) (l, refl, rest, omega arith)
        | inr e ↦
            let (older, split, walk, shorter) =
              on_from-IsWalk ms names k.from l m rest (ground (arith, found, e)) in
            rw e (older, split, walk, omega (arith, shorter))
      ]

  on_from-none :
      (names : List String) (l : List (MemMigration X))
      → find (is_applied names) l ≡ none
      → on_from (is_applied names) l ≡ []
  unfolding find on_from
  on_from-none names [] h = refl
  on_from-none names (k ∷ l) h = ground (arith, on_from-none names l)

  -- `unmigrate` undoes the newest recorded migration of the chain and all before it, the newest
  -- first, up to the first that fails, given fuel for the length of the chain.
  pub unmigrate-IsChain :
      (ms : MemMigrations X) (fuel : ℕ) (l : List (MemMigration X)) (s : D.State)
      (names : List String)
      → IsChain ms l
      → length l ≤ fuel
      → recorded D s ≡ ok names
      → unmigrate D fuel ms s ≡ some (downgrade_all (on_from (is_applied names) l) s)
  unfolding unmigrate downgrade_all
  unmigrate-IsChain ms fuel l s names h enough known =
      let last = last_applied_migration-IsChain D ms fuel l s names h enough known in
      elim (Option-cases (find (is_applied names) l)) [
        | inl e ↦ rw (unmigrate, last, e, on_from-none names l e) refl
        | inr (m, e) ↦
            let (older, split, walk, shorter) = on_from-IsWalk ms names ms.latest l m h e in
            rw (unmigrate, last, e, split)
              (elim (Result-cases (downgrade D m s)) [
                | inl (f, failed) ↦ rw failed refl
                | inr (s', done) ↦ rw done (
                    downgrade_loop-IsWalk ms fuel m.from older s' walk
                      (omega (arith, shorter, enough)))
              ])
      ]
