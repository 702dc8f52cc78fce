-- ===== src/Migrations/Types.antt =====
-- `MemMigration` and `MemMigrations` of butane_core/src/migrations/memmigrations.rs, and the table of
-- applied migrations of butane_core/src/migrations/mod.rs.
use butane.Prelude.{String, Bool, true, false, Option, none, some, List, [], if◌then◌else◌}
use butane.Prelude.Ord.{string_ord, same}
use butane.Map
use butane.Value.{Externals, SqlType}
use butane.Schema.Types.{TypeIdentifier, DeferredSqlType, ATable, Adb}
use butane.Schema.Operations.{new_adb, remove_table_named}
use butane.Schema.Table.{add_column}

pub record MemMigration (X : Externals) : Type 0 where
  pub name : String
  pub db : Adb X
  pub from : Option String
  pub up : Map.Map String String
  pub down : Map.Map String String

pub record MemMigrations (X : Externals) : Type 0 where
  pub migrations : Map.Map String (MemMigration X)
  pub current : MemMigration X
  pub latest : Option String

module _ {X : Externals} where
  abbrev pub new_migration : String → MemMigration X
  new_migration name = record {
    name = name;
    db = new_adb;
    from = none;
    up = Map.empty;
    down = Map.empty;
  }

  -- `MemMigration::eq`
  unfoldable pub migration_eq : MemMigration X → MemMigration X → Bool
  migration_eq m n = same m.name n.name

  unfoldable pub up_sql : String → MemMigration X → Option String
  up_sql backend m = Map.get backend m.up

  unfoldable pub down_sql : String → MemMigration X → Option String
  down_sql backend m = Map.get backend m.down

  unfoldable pub sql_backends : MemMigration X → List String
  sql_backends m = Map.keys m.up

  unfoldable pub delete_table : String → MemMigration X → MemMigration X
  delete_table table m = record m { db = remove_table_named table m.db }

  unfoldable pub add_sql : String → String → String → MemMigration X → MemMigration X
  add_sql backend up_text down_text m = record m {
    up = Map.insert backend up_text m.up;
    down = Map.insert backend down_text m.down;
  }

  unfoldable pub remove_sql : String → MemMigration X → MemMigration X
  remove_sql backend m = record m { up = Map.remove backend m.up; down = Map.remove backend m.down }

  unfoldable pub set_migration_from : Option String → MemMigration X → MemMigration X
  set_migration_from prev m = record m { from = prev }

  -- `MemMigrations::new`
  abbrev pub new_migrations : MemMigrations X
  new_migrations = record {
    migrations = Map.empty;
    current = new_migration "current";
    latest = none;
  }

  unfoldable pub get_migration : MemMigrations X → String → Option (MemMigration X)
  get_migration ms name = Map.get name ms.migrations

  -- The migration under a name, if there is a name.
  unfoldable pub get_named : MemMigrations X → Option String → Option (MemMigration X)
  unfolding get_migration
  get_named ms none = none
  get_named ms (some name) = get_migration ms name

  unfoldable pub latest : MemMigrations X → Option (MemMigration X)
  unfolding get_named
  latest ms = get_named ms ms.latest

  unfoldable pub clear_current : MemMigrations X → MemMigrations X
  clear_current ms = record ms { current = new_migration "current" }

  -- Whether a migration that is added becomes the latest.
  unfoldable pub is_new_latest : MemMigrations X → MemMigration X → Bool
  is_new_latest ms m = elim ms.latest [
    | none ↦ true
    | some latest_name ↦ elim m.from [ none ↦ false | some name ↦ same name latest_name ]
  ]

  unfoldable pub add_migration : MemMigration X → MemMigrations X → MemMigrations X
  unfolding is_new_latest
  add_migration m ms = record ms {
    latest = if is_new_latest ms m then some m.name else ms.latest;
    migrations = Map.insert m.name m ms.migrations;
  }

  unfoldable pub delete_migrations : MemMigrations X → MemMigrations X
  delete_migrations ms = record ms { migrations = Map.empty; latest = none }

  -- `migrations_table`
  unfoldable pub migrations_table : ATable X
  unfolding add_column
  migrations_table =
      add_column
        (record {
          name = "name";
          sqltype = DeferredSqlType.known_id (TypeIdentifier.ty SqlType.text);
          nullable = false;
          pk = true;
          auto = false;
          unique = false;
          default = none;
          reference = none;
        })
        (record { name = "butane_migrations"; columns = [] })
