-- ===== src/Cli/Types.antt =====
-- What the commands of butane_cli/src/lib.rs work on: a project, its migrations on files, the
-- connection that it names, and how a command ends. What a command prints is left out, and a message
-- stands without the names that the source puts into it.
use butane.Prelude.{ℕ, String, Bool, true, false, Option, none, some, List, Result, ok, err}
use butane.Value.{Externals, Fault, Loop}
use butane.Database.{Database}
use butane.Schema.Operations.{new_adb}
use butane.Migrations.Types.{MemMigration, MemMigrations}
use butane.Migrations.Create.{Backend}
use butane.Migrations.Series.{then_loop}
use butane.Migrations.Database.{migrations_table_name, applied_names}
use butane.Files.Types.{Formats, Root}
use butane.Files.Series.{folder, latest, all_migrations, migrations_since, last_loop}

-- How a command ends early: by an error of the library, one of its own, or by leaving the process.
pub data Stop (X : Externals) : Type 0 where
  failed : Fault X → Stop X
  message : String → Stop X
  exited : String → Stop X

-- `ConnectionSpec` of butane_core/src/db/mod.rs
pub record ConnectionSpec : Type 0 where
  pub backend_name : String
  pub conn_str : String

-- The file connection.json: there is none, or it cannot be read, or it names a connection.
pub data SpecFile (X : Externals) : Type 0 where
  no_spec : SpecFile X
  bad_spec : Fault X → SpecFile X
  spec : ConnectionSpec → SpecFile X

-- The directory of a project: `.butane` with its migrations, if the directory is there, the connection
-- and the state of the command line, and the Rust file that the migrations are embedded in, as what its
-- JSON holds, beside whether there is a directory for it.
pub record Project {X : Externals} (F : Formats X) : Type 0 where
  pub migrations : Option (Root F)
  pub connection : SpecFile X
  pub embedded : Bool
  pub has_src : Bool
  pub embedding : Option (MemMigrations X)

-- `db::connect` and `db::get_backend` of butane_core/src/db/mod.rs, as the commands use them.
pub record Backends (X : Externals) : Type 0 where
  pub connect : ConnectionSpec → Result (Fault X) (Unit {0})
  pub get_backend : String → Option (Backend X)

-- A command that may not end, as its loops run on fuel.
abbrev pub Play {ℓ} : Externals → Type ℓ → Type ℓ
Play X A = Option (Result (Stop X) A)

module _ {X : Externals} where
  -- The `?` operator on a call of the library.
  abbrev pub tried {ℓ} : {A : Type ℓ} → Loop X A → Play X A
  tried none = none
  tried (some (err e)) = some (err (Stop.failed e))
  tried (some (ok a)) = some (ok a)

  -- The `?` operator between commands.
  abbrev pub next {ℓ κ} : {A : Type ℓ} {B : Type κ} → Play X A → (A → Play X B) → Play X B
  next none f = none
  next (some (err e)) f = some (err e)
  next (some (ok a)) f = f a

  abbrev pub or_exit {ℓ} : {A : Type ℓ} → String → Option A → Play X A
  or_exit text none = some (err (Stop.exited text))
  or_exit text (some a) = some (ok a)

  abbrev pub or_message {ℓ} : {A : Type ℓ} → String → Option A → Play X A
  or_message text none = some (err (Stop.message text))
  or_message text (some a) = some (ok a)

  abbrev pub or_panicked {ℓ} : {A : Type ℓ} → Option A → Play X A
  or_panicked none = some (err (Stop.failed Fault.panicked))
  or_panicked (some a) = some (ok a)

  abbrev pub exit_if : Bool → String → Play X (Unit {0})
  exit_if true text = some (err (Stop.exited text))
  exit_if false text = some (ok tt)

  abbrev pub stop_if : Bool → String → Play X (Unit {0})
  stop_if true text = some (err (Stop.message text))
  stop_if false text = some (ok tt)

  abbrev pub spec_or_exit : SpecFile X → Play X ConnectionSpec
  spec_or_exit SpecFile.no_spec =
      some (err (Stop.exited "No Butane connection info found. Did you run butane init?"))
  spec_or_exit (SpecFile.bad_spec e) = some (err (Stop.failed e))
  spec_or_exit (SpecFile.spec s) = some (ok s)

  module _ {F : Formats X} where
    unfoldable pub get_migrations : Project F → Play X (Root F)
    get_migrations p =
        or_message
          "No butane migrations directory found. Add at least one model to your project and build."
          p.migrations

    unfoldable pub load_connspec : Project F → Play X ConnectionSpec
    load_connspec p = spec_or_exit p.connection

    -- What `apply` and `downgrade` of butane_core/src/migrations/migration.rs look at in a migration:
    -- its name and its SQL.
    unfoldable pub loaded : Root F → String → MemMigration X
    unfolding folder
    loaded root m = record {
      name = m;
      db = new_adb;
      from = none;
      up = (folder root m).up;
      down = (folder root m).down;
    }

    -- `last_applied_migration` and `unapplied_migrations` of the trait `Migrations`, on files.
    module _ (D : Database X) where
      unfoldable pub last_applied_migration : ℕ → Root F → D.State → Loop X (Option String)
      last_applied_migration fuel root s =
          then_loop (some (D.has_table migrations_table_name s)) λ here. elim here [
            | false ↦ some (ok none)
            | true ↦
                then_loop (some (applied_names D s))
                  λ names. last_loop fuel root names (latest root)
          ]

      unfoldable pub unapplied_migrations : ℕ → Root F → D.State → Loop X (List String)
      unapplied_migrations fuel root s = then_loop (last_applied_migration fuel root s) λ last.
          elim last [ none ↦ all_migrations fuel root | some m ↦ migrations_since fuel root m ]
