-- ===== src/Cli/Migrate.antt =====
-- `migrate` and `unmigrate` of butane_cli/src/lib.rs. Each takes the state of the database that the
-- project connects to, and gives the state that it leaves and how it ended.
use mathlib.Core.List.{reverse}
use mathlib.Core.Option
use butane.Prelude.{
  ℕ, zero, suc, String, Bool, true, false, Option, none, some, List, [], ◌∷◌, is_empty, Result, ok,
  err, ◌==◌, if◌then◌else◌,
}
use butane.Value.{Externals}
use butane.Database.{Database}
use butane.Migrations.Run.{apply, downgrade}
use butane.Files.Types.{Formats, Root}
use butane.Files.Series.{get_migration, migrations_since}
use butane.Cli.Types.{
  Stop, Project, Backends, Play, tried, next, or_exit, or_panicked, exit_if, stop_if,
  get_migrations, load_connspec, loaded, last_applied_migration, unapplied_migrations,
}

module _ {ℓ} {A : Type ℓ} where
  -- `Iterator::position`
  unfoldable pub position : (A → Bool) → List A → Option ℕ
  position p [] = none
  position p (x ∷ l) = let rest = Option.map suc (position p l) in if p x then some 0 else rest

  -- `slice::split_at`, the first part
  unfoldable pub split_at : ℕ → List A → List A
  split_at zero l = []
  split_at (suc n) [] = []
  split_at (suc n) (x ∷ l) = x ∷ split_at n l

  -- `slice::last`
  unfoldable pub last : List A → Option A
  last [] = none
  last (x ∷ []) = some x
  last (x ∷ y ∷ l) = last (y ∷ l)

-- Whether this is the migration to finish at.
abbrev pub is_final : Option String → String → Bool
is_final none m = false
is_final (some name) m = name == m

-- The migrations up to the latest applied one.
abbrev pub is_last : Option String → String → Bool
is_last none latest = false
is_last (some m) latest = m == latest

unfoldable pub keep_applied : List String → String → Option (List String)
unfolding position split_at last
keep_applied to_unapply latest =
    if is_last (last to_unapply) latest
    then some to_unapply
    else Option.map (λ index. split_at (suc index) to_unapply)
        (position (λ m. m == latest) to_unapply)

module _ {X : Externals} where
  abbrev pub applied_or_exit : Play X (Option String) → Play X String
  applied_or_exit none = none
  applied_or_exit (some (err e)) = some (err (Stop.exited "Err"))
  applied_or_exit (some (ok o)) = or_exit "No migrations applied!" o

module _ {X : Externals} (D : Database X) where
  -- The state that a command leaves, and how it ended.
  abbrev pub Ended : Type 0
  Ended = D.State × Result (Stop X) (Unit {0})

  abbrev pub ended_by : D.State → Play X (D.State → Option Ended) → Option Ended
  ended_by s none = none
  ended_by s (some (err e)) = some (s, err e)
  ended_by s (some (ok f)) = f s

  -- The `break` of a loop.
  abbrev pub stop_or : Bool → D.State → (D.State → Ended) → Ended
  stop_or true s f = (s, ok tt)
  stop_or false s f = f s

module _ {X : Externals} (D : Database X) {F : Formats X} where
  -- The loop of `migrate`.
  unfoldable pub apply_until : Option String → Root F → List String → D.State → Ended D
  apply_until name root [] s = (s, ok tt)
  apply_until name root (m ∷ l) s = elim (apply D (loaded root m) s) [
    | err e ↦ (s, err (Stop.failed e))
    | ok s' ↦ stop_or D (is_final name m) s' (apply_until name root l)
  ]

  unfoldable pub migrate : ℕ → Backends X → Option String → Project F → D.State → Option (Ended D)
  migrate fuel B name p s = ended_by D s (
      next (load_connspec p) λ spec. next (tried (some (B.connect spec))) λ _.
        next (get_migrations p) λ root.
          next (tried (unapplied_migrations D fuel root s))
            λ to_apply. some (ok (λ t. some (apply_until name root to_apply t))))

  -- The loop of `unmigrate_to`.
  unfoldable pub downgrade_each : Root F → List String → D.State → Ended D
  downgrade_each root [] s = (s, ok tt)
  downgrade_each root (m ∷ l) s = elim (downgrade D (loaded root m) s) [
    | err e ↦ (s, err (Stop.failed e))
    | ok s' ↦ downgrade_each root l s'
  ]

  unfoldable pub unmigrate_to : ℕ → Project F → String → D.State → Option (Ended D)
  unmigrate_to fuel p to s = ended_by D s (
      next (get_migrations p) λ root.
        next (or_exit "No such migration!" (get_migration root to)) λ to_migration.
          next (applied_or_exit (tried (last_applied_migration D fuel root s))) λ latest.
            next
              (exit_if (to_migration == latest)
                "That is the latest migration. No schema change required.")
              λ _. next (tried (migrations_since fuel root to_migration)) λ to_unapply.
                next
                  (stop_if (is_empty to_unapply)
                    "That is the latest migration. No schema change required.")
                  λ _.
                    next (or_panicked (keep_applied to_unapply latest))
                      λ kept. some (ok (λ t. some (downgrade_each root (reverse kept) t))))

  unfoldable pub unmigrate_latest : ℕ → Project F → D.State → Option (Ended D)
  unfolding downgrade_each
  unmigrate_latest fuel p s = ended_by D s (
      next (get_migrations p) λ root. next (tried (last_applied_migration D fuel root s)) λ last.
        next (or_exit "No migrations applied!" last)
          λ m. some (ok (λ t. some (downgrade_each root (m ∷ []) t))))

  unfoldable pub unmigrate : ℕ → Backends X → Option String → Project F → D.State → Option (Ended D)
  unmigrate fuel B name p s = ended_by D s (
      next (load_connspec p) λ spec. next (tried (some (B.connect spec))) λ _. some (
        ok (λ t. elim name [
          | some to ↦ unmigrate_to fuel p to t
          | none ↦ unmigrate_latest fuel p t
        ])))
