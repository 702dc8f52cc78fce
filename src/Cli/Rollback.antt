-- ===== src/Cli/Rollback.antt =====
-- `unmigrate_to` of butane_cli/src/lib.rs against the series of migrations as a list, newest first.
use mathlib.Core.List.{reverse, reverse-reverse, append_assoc}
use butane.Prelude.{
  ℕ, ◌≤◌, String, true, false, Option, none, some, List, [], ◌∷◌, ◌++◌, length, any, find, contains,
  is_empty, ok, err, ◌≡◌, refl, sym, ap, inl, inr, Bool-cases, ◌∙◌, if◌then◌else◌, Result-cases,
}
use butane.Prelude.Goes.{Goes}
use butane.Migrations.Run.{downgrade}
use butane.Prelude.Ord.{string_ord}
use butane.Value.{Externals, Fault}
use butane.Database.{Database}
use butane.Migrations.Pending.{recorded, recorded-cases}
use butane.Files.Types.{Formats, Root}
use butane.Files.Series.{get_migration, migrations_since}
use butane.Files.Chain.{IsWalk, IsChain, since_files, migrations_since-lists, last_loop-latest}
use butane.Cli.Types.{Stop, Project, get_migrations, last_applied_migration, loaded}
use butane.Cli.Migrate.{Ended, keep_applied, downgrade_each, unmigrate_to}
use butane.Cli.Lists.{
  find-ahead, before-append, keep_applied-reverse, keep_applied-absent, contains-reverse,
  is_empty-reverse, other_one, front_only, find-nothing, absent, unapplied_absent, split_reverse,
  is_empty-append,
}

module _ {X : Externals} {F : Formats X} (D : Database X) where
  -- The newest migration of the chain that is recorded as applied is the last applied one.
  pub last_applied-lists :
      (root : Root F) (fuel : ℕ) (l : List String) (s : D.State) (names : List String)
      → IsChain root l
      → length l ≤ fuel
      → recorded D s ≡ ok names
      → last_applied_migration D fuel root s ≡ some (ok (find (λ m. contains m names) l))
  unfolding last_applied_migration
  last_applied-lists root fuel l s names h enough known = elim (recorded-cases D s names known) [
    | inl (gone, e) ↦ rw (gone, e, find-nothing l) refl
    | inr (here, e) ↦ rw (here, e) (last_loop-latest root names fuel l h enough)
  ]

  there-IsWalk :
      (root : Root F) (c : Option String) (newer older : List String) (to : String)
      → IsWalk root c (newer ++ (to ∷ older))
      → get_migration root to ≡ some to
  unfolding IsWalk
  there-IsWalk root none [] older to h = elim h [ ]
  there-IsWalk root none (m ∷ newer) older to h = elim h [ ]
  there-IsWalk root (some n) [] older to (named, here, from, read, rest) = here
  there-IsWalk root (some n) (m ∷ newer) older to (named, here, from, read, rest) =
      there-IsWalk root from newer older to rest

  -- Rolling back is the loop over the newest that is recorded and those up to the one named.
  unmigrate_to-downgrade_each :
      (fuel : ℕ) (p : Project F) (root : Root F) (s : D.State)
      (names ahead middle older : List String) (latest to : String)
      → p.migrations ≡ some root
      → IsChain root ((ahead ++ (latest ∷ middle)) ++ (to ∷ older))
      → length ((ahead ++ (latest ∷ middle)) ++ (to ∷ older)) ≤ fuel
      → recorded D s ≡ ok names
      → any (λ m. contains m names) ahead ≡ false
      → contains latest names ≡ true
      → contains to (ahead ++ (latest ∷ middle)) ≡ false
      → contains latest middle ≡ false
      → unmigrate_to D fuel p to s ≡ some (downgrade_each D root (latest ∷ middle) s)
  unfolding unmigrate_to get_migrations
  unmigrate_to-downgrade_each fuel p root s names ahead middle older latest to here chain enough
        known none_ahead applied later once =
      let newer : List String = ahead ++ (latest ∷ middle) in
      let found : last_applied_migration D fuel root s ≡ some (ok (some latest)) =
        last_applied-lists root fuel (newer ++ (to ∷ older)) s names chain enough known
        ∙ ap (λ o. some (ok o))
            (ap (find (λ m. contains m names)) (append_assoc ahead (latest ∷ middle) (to ∷ older))
              ∙ find-ahead names ahead (middle ++ (to ∷ older)) latest none_ahead applied) in
      let since : migrations_since fuel root to ≡ some (ok (reverse newer)) =
        migrations_since-lists root to fuel (newer ++ (to ∷ older)) chain enough
        ∙ ap (λ o. some (since_files o)) (before-append to newer older later) in
      let kept =
        keep_applied-reverse ahead middle latest
          (unapplied_absent names ahead latest none_ahead applied) once in
      let there = there-IsWalk root chain.0.latest newer older to chain.2 in
      let filled : is_empty (reverse newer) ≡ false =
        ap is_empty (split_reverse ahead middle latest)
        ∙ is_empty-append latest (reverse middle) (reverse ahead) in
      let other = absent to latest ahead middle later in
      rw (here, there, found, other, since, filled, kept, reverse-reverse) refl

  downgrade_each-Goes :
      (root : Root F) (l : List String) (s : D.State)
      → Goes (λ m. downgrade D (loaded root m)) Stop.failed l s (downgrade_each D root l s)
  unfolding downgrade_each
  downgrade_each-Goes root [] s = Goes.done s
  downgrade_each-Goes root (m ∷ l) s = elim (Result-cases (downgrade D (loaded root m) s)) [
    | inl (e, failed) ↦ rw (downgrade_each, failed) (Goes.fails m l s e failed)
    | inr (s', did) ↦
        rw (downgrade_each, did)
          (Goes.goes_on m l s s' (downgrade_each D root l s') did (downgrade_each-Goes root l s'))
  ]

  -- Rolling back to a migration undoes the newest migration of the series that is recorded, and then
  -- every one between it and the one named, recorded or not, from the newer to the older, up to the
  -- first that fails: those after the newest that is recorded are passed over, and the one named and
  -- what comes before it stay. The newest that is recorded is after the one named, neither name is
  -- met twice on the way, and the fuel is the length of the series.
  pub unmigrate_to-IsChain :
      (fuel : ℕ) (p : Project F) (root : Root F) (s : D.State)
      (names ahead middle older : List String) (latest to : String)
      → p.migrations ≡ some root
      → IsChain root ((ahead ++ (latest ∷ middle)) ++ (to ∷ older))
      → length ((ahead ++ (latest ∷ middle)) ++ (to ∷ older)) ≤ fuel
      → recorded D s ≡ ok names
      → any (λ m. contains m names) ahead ≡ false
      → contains latest names ≡ true
      → contains to (ahead ++ (latest ∷ middle)) ≡ false
      → contains latest middle ≡ false
      → (end : Ended D) × (unmigrate_to D fuel p to s ≡ some end)
        × Goes (λ m. downgrade D (loaded root m)) Stop.failed (latest ∷ middle) s end
  unmigrate_to-IsChain fuel p root s names ahead middle older latest to here chain enough known
        none_ahead applied later once =
      (
        downgrade_each D root (latest ∷ middle) s,
        unmigrate_to-downgrade_each fuel p root s names ahead middle older latest to here chain
            enough known none_ahead applied later once,
        downgrade_each-Goes root (latest ∷ middle) s,
      )

  -- Where neither a migration nor any after it is recorded, but one before it is, rolling back to that
  -- migration changes nothing, but ends in a panic, unless it is the latest of the series, which is
  -- told by an error. Its name is not met among those after it, and the fuel is the length of the
  -- series.
  pub unmigrate_to-ahead :
      (fuel : ℕ) (p : Project F) (root : Root F) (s : D.State)
      (names front between older : List String) (latest to : String)
      → p.migrations ≡ some root
      → IsChain root (front ++ (to ∷ (between ++ (latest ∷ older))))
      → length (front ++ (to ∷ (between ++ (latest ∷ older)))) ≤ fuel
      → recorded D s ≡ ok names
      → any (λ m. contains m names) (front ++ (to ∷ between)) ≡ false
      → contains latest names ≡ true
      → contains to front ≡ false
      → unmigrate_to D fuel p to s
        ≡ some (
          s,
          err (
              if is_empty front
              then Stop.message "That is the latest migration. No schema change required."
              else Stop.failed Fault.panicked),
        )
  unfolding unmigrate_to get_migrations
  unmigrate_to-ahead fuel p root s names front between older latest to here chain enough known
        none_ahead applied later =
      let found : last_applied_migration D fuel root s ≡ some (ok (some latest)) =
        last_applied-lists root fuel (front ++ (to ∷ (between ++ (latest ∷ older)))) s names chain
          enough known
        ∙ ap (λ o. some (ok o))
            (ap (find (λ m. contains m names))
                (sym (append_assoc front (to ∷ between) (latest ∷ older)))
              ∙ find-ahead names (front ++ (to ∷ between)) older latest none_ahead applied) in
      let since : migrations_since fuel root to ≡ some (ok (reverse front)) =
        migrations_since-lists root to fuel (front ++ (to ∷ (between ++ (latest ∷ older)))) chain
          enough
        ∙ ap (λ o. some (since_files o))
            (before-append to front (between ++ (latest ∷ older)) later) in
      let missing = unapplied_absent names (front ++ (to ∷ between)) latest none_ahead applied in
      let there = there-IsWalk root chain.0.latest front (between ++ (latest ∷ older)) to chain.2 in
      let other = other_one latest to front between missing in
      let kept : keep_applied (reverse front) latest ≡ none =
        keep_applied-absent (reverse front) latest
          (contains-reverse latest front ∙ front_only latest to front between missing) in
      elim (Bool-cases (is_empty front)) [
        | inl e ↦ rw (here, there, found, other, since, is_empty-reverse, e) refl
        | inr e ↦ rw (here, there, found, other, since, is_empty-reverse, e, kept) refl
      ]
