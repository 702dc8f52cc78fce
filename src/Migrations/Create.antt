-- ===== src/Migrations/Create.antt =====
-- `create_migration` and `create_migration_to` of butane_core/src/migrations/mod.rs.
use butane.Prelude.{
  ℕ, String, Bool, true, false, Option, none, some, List, [], ◌∷◌, ◌++◌, contains, is_empty, Result,
  ok, err, ◌>>=◌, if◌then◌else◌,
}
use butane.Value.{Externals, Error, Fault, Loop}
use butane.Schema.Types.{ATable, Adb, Operation}
use butane.Schema.Operations.{new_adb}
use butane.Schema.Diff.{diff}
use butane.Migrations.Types.{
  MemMigration, MemMigrations, new_migration, migrations_table, add_sql, set_migration_from,
  add_migration,
}
use butane.Migrations.Edit.{go_on, settled, migration_db, add_modified_table, add_unmodified_table}

-- `Backend` of butane_core/src/db/mod.rs, as far as the creation of a migration uses it.
pub record Backend (X : Externals) : Type 0 where
  pub name : String
  pub create_migration_sql : Adb X → List (Operation X) → Result (Fault X) String

module _ {X : Externals} where
  -- The names that an operation adds to `modified_tables`.
  abbrev pub modified : Operation X → List String
  modified (Operation.add_table table) = table.name ∷ []
  modified (Operation.add_table_constraints table) = table.name ∷ []
  modified (Operation.add_table_if_not_exists table) = table.name ∷ []
  modified (Operation.add_column table_name _) = table_name ∷ []
  modified (Operation.remove_column table_name _) = table_name ∷ []
  modified (Operation.change_column table_name _ _) = table_name ∷ []
  modified (Operation.remove_table _) = []
  modified (Operation.remove_table_constraints _) = []

  unfoldable pub modified_tables : List (Operation X) → List String
  modified_tables [] = []
  modified_tables (o ∷ ops) = modified o ++ modified_tables ops

  -- `diff`, where `none` is a panic.
  abbrev pub or_panic {ℓ} : {A : Type ℓ} → Option A → Result (Fault X) A
  or_panic none = err Fault.panicked
  or_panic (some a) = ok a

  -- The schema that the migration starts from.
  abbrev pub from_schema : ℕ → Option (MemMigration X) → Loop X (Adb X)
  from_schema fuel none = some (ok new_adb)
  from_schema fuel (some m) = migration_db fuel m

  abbrev pub name_of : Option (MemMigration X) → Option String
  name_of none = none
  name_of (some m) = some m.name

  -- The table of migrations is made with the first migration.
  abbrev pub with_first : Option (MemMigration X) → List (Operation X) → List (Operation X)
  with_first none ops = ops ++ (Operation.add_table_if_not_exists migrations_table ∷ [])
  with_first (some _) ops = ops

  abbrev pub save_unmodified :
      ℕ → Option (MemMigration X) → ATable X → MemMigration X → Loop X (MemMigration X)
  save_unmodified fuel none table m =
      some (err (Fault.raised (Error.migration_error "unmodified requires a from")))
  save_unmodified fuel (some from) table m = settled (add_unmodified_table fuel table from.name m)

  unfoldable pub save_table :
      ℕ
      → Option (MemMigration X)
      → List String
      → ATable X
      → MemMigration X
      → Loop X (MemMigration X)
  save_table fuel from modified_names table m =
      if contains table.name modified_names
      then settled (add_modified_table fuel table m)
      else save_unmodified fuel from table m

  -- The loop over the tables of the new schema.
  unfoldable pub save_tables :
      ℕ
      → Option (MemMigration X)
      → List String
      → List (String × ATable X)
      → MemMigration X
      → Loop X (MemMigration X)
  save_tables fuel from modified_names [] m = some (ok m)
  save_tables fuel from modified_names ((k, table) ∷ l) m =
      go_on (save_table fuel from modified_names table m) (save_tables fuel from modified_names l)

  -- The texts of one backend.
  unfoldable pub texts :
      Backend X → Adb X → Adb X → List (Operation X) → Result (Fault X) (String × String)
  texts backend from_db to_db ops = do
    up_text ← backend.create_migration_sql from_db ops
    back ← or_panic (diff to_db from_db)
    down_text ← backend.create_migration_sql to_db back
    ok (up_text, down_text)

  -- The loop over the backends.
  unfoldable pub add_texts :
      List (Backend X)
      → Adb X
      → Adb X
      → List (Operation X)
      → MemMigration X
      → Result (Fault X) (MemMigration X)
  add_texts [] from_db to_db ops m = ok m
  add_texts (backend ∷ l) from_db to_db ops m = do
    both ← texts backend from_db to_db ops
    add_texts l from_db to_db ops (add_sql backend.name both.0 both.1 m)

  -- What is done where the schemas differ.
  unfoldable pub create :
      ℕ
      → List (Backend X)
      → String
      → Option (MemMigration X)
      → Adb X
      → Adb X
      → List (Operation X)
      → Loop X (MemMigration X)
  create fuel backends name from from_db to_db ops =
      go_on (save_tables fuel from (modified_tables ops) to_db.tables.entries (new_migration name))
        λ saved.
          go_on (some (add_texts backends from_db to_db (with_first from ops) saved))
            λ written. some (ok (set_migration_from (name_of from) written))

  -- Nothing is made where the schemas do not differ.
  abbrev pub add_made :
      List (Operation X)
      → Loop X (MemMigration X)
      → MemMigrations X
      → Loop X (MemMigrations X × Bool)
  add_made ops call ms = elim (is_empty ops) [
    | true ↦ some (ok (ms, false))
    | false ↦ go_on call λ m. some (ok (add_migration m ms, true))
  ]

  -- A call that fails leaves the migrations as they were.
  unfoldable pub create_migration_to :
      ℕ
      → List (Backend X)
      → String
      → Option (MemMigration X)
      → Adb X
      → MemMigrations X
      → Loop X (MemMigrations X × Bool)
  create_migration_to fuel backends name from to_db ms = go_on (from_schema fuel from) λ from_db.
      go_on (some (or_panic (diff from_db to_db)))
        λ ops. add_made ops (create fuel backends name from from_db to_db ops) ms

  unfoldable pub create_migration :
      ℕ
      → List (Backend X)
      → String
      → Option (MemMigration X)
      → MemMigrations X
      → Loop X (MemMigrations X × Bool)
  create_migration fuel backends name from ms =
      go_on (migration_db fuel ms.current)
        λ to_db. create_migration_to fuel backends name from to_db ms
