-- ===== src/Cli/Embed.antt =====
-- `embed`, `update_embedded` and the commands on backends of butane_cli/src/lib.rs. A command that fails
-- is how it ends; the files that it has written before are left out.
use butane.Prelude.{
  ℕ, String, Bool, true, false, not, Option, none, some, List, [], ◌∷◌, ◌++◌, length, any, is_empty,
  map, ◌=ℕ◌, Result, ok, err, ◌==◌, if◌then◌else◌,
}
use butane.Value.{Externals, Fault, Loop}
use butane.Schema.Types.{Adb, Operation}
use butane.Schema.Operations.{new_adb}
use butane.Schema.Diff.{diff}
use butane.Migrations.Types.{MemMigration, MemMigrations, new_migration, migrations_table}
use butane.Migrations.Types
use butane.Migrations.Edit.{go_on, copy_tables, copy_types, copy_texts}
use butane.Migrations.Create.{Backend, or_panic, texts}
use butane.Files.Types.{Formats, Root}
use butane.Files.Folder.{migration_from, sql_backends, add_sql, remove_sql}
use butane.Files.Series.{folder, edit, latest, all_migrations}
use butane.Files.Schema.{migration_db}
use butane.Cli.Types.{
  Stop, Project, Backends, Play, tried, next, or_message, exit_if, stop_if, get_migrations, loaded,
}

module _ {X : Externals} where
  unfoldable pub backends_named : Backends X → List String → Play X (List (Backend X))
  backends_named B [] = some (ok [])
  backends_named B (name ∷ l) =
      next (or_message "Backend not found" (B.get_backend name))
        λ backend. next (backends_named B l) λ rest. some (ok (backend ∷ rest))

  abbrev pub no_migrations {ℓ} : {A : Type ℓ} → Play X A
  no_migrations = some (err (Stop.message "There are no exiting migrations."))

  -- A failed `assert!`
  abbrev pub check : Bool → Play X (Unit {0})
  check true = some (ok tt)
  check false = some (err (Stop.failed Fault.panicked))

  -- The table of migrations is made with the first migration.
  abbrev pub with_first : Adb X → List (Operation X) → List (Operation X)
  with_first from_db ops =
      if is_empty from_db.tables.entries
      then ops ++ (Operation.add_table_if_not_exists migrations_table ∷ [])
      else ops

module _ {X : Externals} {F : Formats X} where
  -- `copy_migration` of butane_core/src/migrations/mod.rs, from files.
  unfoldable pub copy_files : ℕ → Root F → String → MemMigration X → Loop X (MemMigration X)
  copy_files fuel root m to = go_on (some (migration_from (folder root m))) λ from.
      go_on (migration_db fuel root m) λ db.
        go_on (copy_tables fuel db.tables.entries (Types.set_migration_from from to)) λ with_tables.
          go_on (copy_types fuel db.extra_types.entries with_tables) λ with_types.
            go_on (some (sql_backends (folder root m)))
              λ backends. some (ok (copy_texts (loaded root m) backends with_types))

  -- The loop of `embed`.
  unfoldable pub copy_all : ℕ → Root F → List String → MemMigrations X → Loop X (MemMigrations X)
  copy_all fuel root [] ms = some (ok ms)
  copy_all fuel root (m ∷ l) ms =
      go_on (copy_files fuel root m (new_migration m))
        λ copied. copy_all fuel root l (Types.add_migration copied ms)

  unfoldable pub embed : ℕ → Project F → Play X (Project F)
  embed fuel p = next (exit_if (not p.has_src) "src directory not found") λ _.
      next (get_migrations p) λ root. next (tried (all_migrations fuel root)) λ migration_list.
        next (tried (copy_all fuel root migration_list Types.new_migrations))
          λ mem_ms. some (ok (record p { embedding = some mem_ms; embedded = true }))

  abbrev pub embed_if : Bool → ℕ → Project F → Play X (Project F)
  embed_if true fuel p = embed fuel p
  embed_if false fuel p = some (ok p)

  unfoldable pub update_embedded : ℕ → Project F → Play X (Project F)
  update_embedded fuel p = embed_if p.embedded fuel p

  -- The project with its migrations changed, and embedded again if they are embedded.
  abbrev pub saved : ℕ → Project F → Root F → Play X (Project F)
  saved fuel p root = update_embedded fuel (record p { migrations = some root })

  abbrev pub backends_of : Backends X → Root F → Option String → Play X (List (Backend X))
  backends_of B root none = no_migrations
  backends_of B root (some m) =
      next (tried (some (sql_backends (folder root m))))
        λ names. next (check (not (is_empty names))) λ _. backends_named B names

  abbrev pub latest_backends : Backends X → Option (Root F) → Play X (List (Backend X))
  latest_backends B none = no_migrations
  latest_backends B (some root) = backends_of B root (latest root)

  unfoldable pub load_latest_migration_backends : Backends X → Project F → Play X (List (Backend X))
  load_latest_migration_backends B p = latest_backends B p.migrations

  unfoldable pub list_backends : Backends X → Project F → Play X (List String)
  list_backends B p =
      next (load_latest_migration_backends B p) λ backends. some (ok (map (λ b. b.name) backends))

  -- The loop of `add_backend`.
  unfoldable pub add_each : ℕ → Backend X → List String → Adb X → Root F → Play X (Root F)
  add_each fuel backend [] from_db root = some (ok root)
  add_each fuel backend (m ∷ l) from_db root = next (tried (migration_db fuel root m)) λ to_db.
      next (tried (some (or_panic (diff from_db to_db)))) λ ops.
        next (check (not (is_empty ops))) λ _.
          next (tried (some (texts backend from_db to_db (with_first from_db ops)))) λ both.
            next (tried (some (edit m (add_sql backend.name both.0 both.1) root)))
              λ written. add_each fuel backend l to_db written

  unfoldable pub add_backend : ℕ → Backends X → String → Project F → Play X (Project F)
  add_backend fuel B backend_name p = next (load_latest_migration_backends B p) λ existing.
      next
        (stop_if (any (λ b. b.name == backend_name) existing)
          "Backend already present in migrations.")
        λ _. next (or_message "Backend not found" (B.get_backend backend_name)) λ backend.
          next (get_migrations p) λ root. next (tried (all_migrations fuel root)) λ migration_list.
            next (add_each fuel backend migration_list new_adb root) (saved fuel p)

  -- The loop of `remove_backend`.
  unfoldable pub remove_each : String → List String → Root F → Result (Fault X) (Root F)
  remove_each backend_name [] root = ok root
  remove_each backend_name (m ∷ l) root = elim (edit m (remove_sql backend_name) root) [
    | err e ↦ err e
    | ok after ↦ remove_each backend_name l after
  ]

  unfoldable pub remove_backend : ℕ → Backends X → String → Project F → Play X (Project F)
  remove_backend fuel B backend_name p = next (load_latest_migration_backends B p) λ existing.
      next (stop_if (length existing =ℕ 1) "Can not remove the last backend.") λ _.
        next (or_message "Backend not found" (B.get_backend backend_name)) λ backend.
          next (get_migrations p) λ root. next (tried (all_migrations fuel root)) λ migration_list.
            next (tried (some (remove_each backend.name migration_list root))) (saved fuel p)
