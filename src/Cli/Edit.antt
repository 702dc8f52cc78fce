-- ===== src/Cli/Edit.antt =====
-- The commands of butane_cli/src/lib.rs that make, take off, make anew and put together migrations, and
-- those that only look at them.
use butane.Prelude.{
  ℕ, String, Bool, true, false, Option, none, some, List, [], ◌∷◌, ◌<>◌, any, ok, err, ◌==◌,
  if◌then◌else◌,
}
use butane.Value.{Externals, Fault}
use butane.Schema.Types.{Operation}
use butane.Schema.Diff.{diff}
use butane.Migrations.Create.{Backend, or_panic}
use butane.Files.Types.{Formats, Root}
use butane.Files.Folder.{migration_from, delete_table}
use butane.Files.Series.{
  folder, edit, get_migration, get_named, latest, all_migrations, clear_current,
  delete_migration_db,
}
use butane.Files.Schema.{migration_db, from_schema, create_migration_to, create_migration}
use butane.Cli.Types.{
  Stop, ConnectionSpec, SpecFile, Project, Backends, Play, tried, next, or_exit, or_panicked,
  exit_if, get_migrations,
}
use butane.Cli.Embed.{saved, load_latest_migration_backends}

-- The name of a new migration, from the time that it is made at.
abbrev pub full_name : String → Option String → String
full_name now none = now
full_name now (some name) = now <> "_" <> name

module _ {X : Externals} where
  -- The backends of the latest migration, or else that of the connection.
  abbrev pub spec_backends : Backends X → SpecFile X → Play X (List (Backend X))
  spec_backends B (SpecFile.spec s) =
      next (or_panicked (B.get_backend s.backend_name)) λ backend. some (ok (backend ∷ []))
  spec_backends B _ = some (err (Stop.message "No Butane connection info found. Run `butane init`"))

  abbrev pub or_backends :
      Play X (List (Backend X)) → Play X (List (Backend X)) → Play X (List (Backend X))
  or_backends none other = none
  or_backends (some (ok backends)) other = some (ok backends)
  or_backends (some (err (Stop.failed Fault.panicked))) other =
      some (err (Stop.failed Fault.panicked))
  or_backends (some (err e)) other = other

  abbrev pub connect_if : Bool → Backends X → ConnectionSpec → Play X (Unit {0})
  connect_if true B spec = tried (some (B.connect spec))
  connect_if false B spec = some (ok tt)

module _ {X : Externals} {F : Formats X} where
  unfoldable pub init : Backends X → ConnectionSpec → Bool → Project F → Play X (Project F)
  init B spec connect p = next (or_exit "Unknown backend" (B.get_backend spec.backend_name)) λ _.
      next (connect_if connect B spec) λ _. some (ok (record p { connection = SpecFile.spec spec }))

  unfoldable pub load_backends : Backends X → Project F → Play X (List (Backend X))
  load_backends B p =
      or_backends (load_latest_migration_backends B p) (spec_backends B p.connection)

  -- The migrations are embedded again if one was made.
  abbrev pub if_created : ℕ → Project F → Root F × Bool → Play X (Project F)
  if_created fuel p (root, true) = saved fuel p root
  if_created fuel p (root, false) = some (ok (record p { migrations = some root }))

  unfoldable pub make_migration :
      ℕ → Backends X → String → Option String → Project F → Play X (Project F)
  make_migration fuel B now given p =
      let name = full_name now given in
      next (get_migrations p) λ root. next (tried (all_migrations fuel root)) λ all.
        next (exit_if (any (λ m. m == name) all) "Migration already exists") λ _.
          next (load_backends B p) λ backends.
            next (tried (create_migration fuel backends name (latest root) root))
              (if_created fuel p)

  -- What `describe_migration` tells the difference of: the schema before and that of the migration,
  -- or of the models as they are now.
  unfoldable pub describe_current_migration : ℕ → Project F → Play X (List (Operation X))
  describe_current_migration fuel p = next (get_migrations p) λ root.
      next (tried (migration_db fuel root "current")) λ to_db.
        next (tried (from_schema fuel root (latest root)))
          λ from_db. tried (some (or_panic (diff from_db to_db)))

  -- A predecessor that is named must be there.
  abbrev pub expect_from : Root F → Option String → Play X (Option String)
  expect_from root none = some (ok none)
  expect_from root (some name) =
      next (or_panicked (get_migration root name)) λ m. some (ok (some m))

  unfoldable pub describe_migration : ℕ → String → Project F → Play X (List (Operation X))
  describe_migration fuel name p =
      let current = describe_current_migration fuel p in
      if name == "current"
      then current
      else (next (get_migrations p) λ root.
          next (or_exit "No such migration!" (get_migration root name)) λ m.
            next (tried (migration_db fuel root m)) λ to_db.
              next (tried (some (migration_from (folder root m)))) λ from.
                next (expect_from root from) λ before.
                  next (tried (from_schema fuel root before))
                    λ from_db. tried (some (or_panic (diff from_db to_db))))

  -- The loop of `regenerate_migrations`.
  unfoldable pub regenerate_each :
      ℕ → List (Backend X) → Option String → List String → Root F → Play X (Root F)
  regenerate_each fuel backends from_name [] root = some (ok root)
  regenerate_each fuel backends from_name (m ∷ l) root =
      next (tried (migration_db fuel root m)) λ to_db.
        next (tried (some (delete_migration_db m root))) λ bare.
          next (tried (create_migration_to fuel backends m (get_named root from_name) to_db bare))
            λ done. regenerate_each fuel backends (some m) l done.0

  unfoldable pub regenerate_migrations : ℕ → Backends X → Project F → Play X (Project F)
  regenerate_migrations fuel B p = next (load_latest_migration_backends B p) λ backends.
      next (get_migrations p) λ root. next (tried (all_migrations fuel root)) λ migration_list.
        next (regenerate_each fuel backends none migration_list root) (saved fuel p)

  unfoldable pub delete_current_table : String → Project F → Play X (Project F)
  delete_current_table name p = next (get_migrations p) λ root.
      next (tried (some (edit "current" (delete_table name) root)))
        λ after. some (ok (record p { migrations = some after }))

  unfoldable pub clean : Project F → Play X (Project F)
  clean p = next (get_migrations p) λ root.
      next (tried (some (clear_current root)))
        λ after. some (ok (record p { migrations = some after }))
