-- ===== src/Cli/Connected.antt =====
-- The commands of butane_cli/src/lib.rs that look at the database to change the migrations, or the other
-- way round.
use butane.Prelude.{
  ℕ, String, Bool, false, not, Option, none, some, List, [], ◌∷◌, contains, map, Result, ok, err,
  ◌==◌,
}
use butane.Value.{Externals, Fault}
use butane.Database.{Database}
use butane.Query.Types.{BoolExpr}
use butane.Schema.Types.{ATable, Adb}
use butane.Migrations.Create.{Backend}
use butane.Migrations.Run.{mark_applied}
use butane.Migrations.Database.{migrations_table_name}
use butane.Files.Types.{Formats, Root}
use butane.Files.Series.{latest, all_migrations, detach_latest_migration, delete_migrations}
use butane.Files.Schema.{migration_db, create_migration_to}
use butane.Cli.Types.{
  Stop, SpecFile, Project, Backends, Play, tried, next, or_exit, or_panicked, exit_if,
  get_migrations, load_connspec, loaded, last_applied_migration, unapplied_migrations,
}
use butane.Cli.Migrate.{Ended, ended_by}
use butane.Cli.Edit.{full_name}
use butane.Cli.Embed.{saved, load_latest_migration_backends}

-- `slice::first`
abbrev pub first : List String → Option String
first [] = none
first (m ∷ l) = some m

-- `all_migrations[all_migrations.len() - 2]`, which panics where there is none.
unfoldable pub second_last : List String → Option String
second_last [] = none
second_last (m ∷ []) = none
second_last (m ∷ n ∷ []) = some m
second_last (m ∷ n ∷ k ∷ l) = second_last (n ∷ k ∷ l)

abbrev pub is_name : Option String → String → Bool
is_name none m = false
is_name (some k) m = k == m

module _ {X : Externals} where
  -- `unwrap_or_else` on an error, which leaves the process.
  abbrev pub or_leave {ℓ} : {A : Type ℓ} → Play X A → Play X A
  or_leave none = none
  or_leave (some (ok a)) = some (ok a)
  or_leave (some (err (Stop.failed Fault.panicked))) = some (err (Stop.failed Fault.panicked))
  or_leave (some (err e)) = some (err (Stop.exited "Error"))

module _ {X : Externals} (D : Database X) where
  -- The loop of `clear_data`.
  unfoldable pub delete_from : List (String × ATable X) → D.State → Ended D
  delete_from [] s = (s, ok tt)
  delete_from ((_, table) ∷ l) s = elim (D.delete_where table.name BoolExpr.true s) [
    | err e ↦ (s, err (Stop.failed e))
    | ok s' ↦ delete_from l s'
  ]

module _ {X : Externals} {F : Formats X} (D : Database X) where
  -- The latest migration must not be applied, where there is a connection.
  abbrev pub check_applied :
      ℕ → Backends X → SpecFile X → String → Root F → D.State → Play X (Unit {0})
  check_applied fuel B (SpecFile.spec c) top root s = next (tried (some (B.connect c))) λ _.
      next (tried (last_applied_migration D fuel root s))
        λ applied. exit_if (is_name applied top) "Can not detach an applied migration"
  check_applied fuel B _ top root s = some (ok tt)

  unfoldable pub detach_latest : ℕ → Backends X → Project F → D.State → Play X (Project F)
  unfolding second_last
  detach_latest fuel B p s = next (get_migrations p) λ root.
      next (or_leave (tried (all_migrations fuel root))) λ all.
        next (or_exit "There are no migrations" (first all)) λ initial.
          next (or_panicked (latest root)) λ top.
            next (exit_if (initial == top) "Can not detach initial migration") λ _.
              next (check_applied fuel B p.connection top root s) λ _.
                next (or_panicked (second_last all))
                  λ previous. next (tried (some (detach_latest_migration root))) (saved fuel p)

  -- Each migration, and whether it is applied.
  unfoldable pub list_migrations :
      ℕ → Backends X → Project F → D.State → Play X (List (String × Bool))
  list_migrations fuel B p s = next (load_connspec p) λ spec.
      next (tried (some (B.connect spec))) λ _. next (get_migrations p) λ root.
        next (tried (unapplied_migrations D fuel root s)) λ unapplied.
          next (tried (all_migrations fuel root))
            λ all. some (ok (map (λ m. (m, not (contains m unapplied))) all))

  unfoldable pub clear_data : ℕ → Backends X → Project F → D.State → Option (Ended D)
  clear_data fuel B p s = ended_by D s (
      next (load_connspec p) λ spec. next (tried (some (B.connect spec))) λ _.
        next (get_migrations p) λ root. next (tried (last_applied_migration D fuel root s)) λ last.
          next (or_exit "No migrations have been applied, so no data is recognized." last) λ m.
            next (tried (migration_db fuel root m))
              λ db. some (ok (λ t. some (delete_from D db.tables.entries t))))

module _ {X : Externals} {F : Formats X} where
  abbrev pub with_root : Project F → Root F → Project F
  with_root p root = record p { migrations = some root }

-- What a command has left of the project and the database, and how it ended.
abbrev pub Both : {X : Externals} → Database X → Formats X → Type 0
Both {X = X} D F = (Project F × D.State) × Result (Stop X) (Unit {0})

module _ {X : Externals} {F : Formats X} (D : Database X) where
  abbrev pub then_both :
      {A : Type 0} → Project F × D.State → Play X A → (A → Option (Both D F)) → Option (Both D F)
  then_both at none f = none
  then_both at (some (err e)) f = some (at, err e)
  then_both at (some (ok a)) f = f a

  -- The new migration is recorded as applied.
  unfoldable pub record_one : ℕ → Project F → Root F → D.State → Option (Both D F)
  record_one fuel p one s =
      then_both (with_root p one, s) (or_panicked (latest one))
        λ m.
          then_both (with_root p one, s) (tried (some (mark_applied D (loaded one m) s)))
            λ s1. then_both (with_root p one, s1) (saved fuel p one) λ q. some ((q, s1), ok tt)

  -- What `collapse_migrations` puts in place of the migrations, once it has deleted them.
  unfoldable pub make_one :
      ℕ → List (Backend X) → String → Adb X → Project F → Root F → D.State → Option (Both D F)
  unfolding record_one
  make_one fuel backends name latest_db p bare s =
      then_both (with_root p bare, s)
        (tried (some (D.delete_where migrations_table_name BoolExpr.true s)))
        λ s1.
          then_both (with_root p bare, s1)
            (tried (create_migration_to fuel backends name none latest_db bare))
            λ made. record_one fuel p made.0 s1

  unfoldable pub collapse_migrations :
      ℕ → Backends X → String → Option String → Project F → D.State → Option (Both D F)
  collapse_migrations fuel B now given p s =
      then_both (p, s) (get_migrations p)
        λ root.
          then_both (p, s) (or_leave (tried (all_migrations fuel root)))
            λ all.
              then_both (p, s) (or_exit "There are no migrations to collapse" (first all))
                λ initial.
                  then_both (p, s) (or_panicked (latest root))
                    λ top.
                      then_both (p, s)
                        (exit_if (initial == top) "Can not collapse a single migration")
                        λ _.
                          then_both (p, s) (load_latest_migration_backends B p)
                            λ backends.
                              then_both (p, s) (load_connspec p)
                                λ spec.
                                  then_both (p, s) (tried (some (B.connect spec)))
                                    λ _.
                                      then_both (p, s)
                                        (tried (last_applied_migration D fuel root s))
                                        λ applied.
                                          then_both (p, s)
                                            (or_exit "There are no applied migrations to collapse"
                                              applied)
                                            λ m.
                                              then_both (p, s) (tried (migration_db fuel root m))
                                                λ latest_db.
                                                  make_one fuel backends (full_name now given)
                                                    latest_db p (delete_migrations root) s
