-- ===== src/Files/Schema.antt =====
-- The schema that the files of a migration hold, `FsMigration::db` of
-- butane_core/src/migrations/fsmigrations.rs, the tables that a migration takes from an earlier one, and
-- `create_migration_to` of butane_core/src/migrations/mod.rs on files, with `Backend` as there.
use butane.Prelude.{
  ℕ, String, Bool, true, false, Option, none, some, List, [], ◌∷◌, ◌++◌, ◌==◌, contains, find,
  Result, ok, err, ◌>>=◌, if◌then◌else◌,
}
use butane.Prelude.Ord.{string_ord}
use butane.Map
use butane.Value.{Externals, Error, Fault, Loop}
use butane.Schema.Keys.{TypeKey, key_ord}
use butane.Schema.Types.{DeferredSqlType, ATable, Adb, Operation}
use butane.Schema.Operations.{new_adb, replace_table}
use butane.Schema.Operations
use butane.Schema.Resolve.Rounds.{resolve_types}
use butane.Schema.Diff.{diff}
use butane.Migrations.Edit.{go_on, settled}
use butane.Migrations.Create.{Backend, modified_tables, or_panic, texts}
use butane.Migrations.Types.{migrations_table}
use butane.Files.Types.{MigrationInfo, Formats, Folder, Root, found}
use butane.Files.Folder.{
  read_or, read_info, write_info, add_modified_table, add_sql, set_migration_from,
}
use butane.Files.Series.{folder, edit, or_migration_error, all_migrations, add_migration}

-- Where the table is, which the migration before has or takes from another.
abbrev pub base_of : MigrationInfo → String → String → String
base_of from_info table_name from_name = elim (Map.get table_name from_info.table_bases) [
  | none ↦ from_name
  | some m ↦ m
]

module _ {X : Externals} where
  -- The files `.table` of the directory, in the order of their names.
  unfoldable pub own_tables {ℓ} :
      {T : Type ℓ}
      → (T → Result (Fault X) (ATable X))
      → List (String × T)
      → Adb X
      → Result (Fault X) (Adb X)
  own_tables read [] db = ok db
  own_tables read ((_, t) ∷ l) db = do table ← read t; own_tables read l (replace_table table db)

  unfoldable pub add_types : List (TypeKey × DeferredSqlType X) → Adb X → Adb X
  add_types [] db = db
  add_types ((key, sqltype) ∷ l) db = add_types l (Operations.add_type key sqltype db)

  -- The table of migrations is made with the first migration.
  abbrev pub with_migrations_table : Option String → List (Operation X) → List (Operation X)
  with_migrations_table none ops = ops ++ (Operation.add_table_if_not_exists migrations_table ∷ [])
  with_migrations_table (some _) ops = ops

module _ {X : Externals} {F : Formats X} where
  -- The loop over `table_bases`: each table is read from the migration that has it.
  unfoldable pub base_tables : Root F → List (String × String) → Adb X → Result (Fault X) (Adb X)
  unfolding folder
  base_tables root [] db = ok db
  base_tables root ((table_name, m) ∷ l) db = do
    t ← found F (Map.get table_name (folder root m).tables)
    table ← F.table.read t
    base_tables root l (replace_table table db)

  -- What the files hold.
  unfoldable pub stored_db : Root F → Folder F → Result (Fault X) (Adb X)
  stored_db root f = do
    info ← read_info f
    based ← base_tables root info.table_bases.entries new_adb
    whole ← own_tables F.table.read f.tables.entries based
    types ← read_or F.types.read Map.empty f.types
    ok (add_types types.entries whole)

  -- `FsMigration::db`
  unfoldable pub migration_db : ℕ → Root F → String → Loop X (Adb X)
  migration_db fuel root m =
      go_on (some (stored_db root (folder root m))) λ db. settled (resolve_types fuel db)

  abbrev pub add_base : MigrationInfo → String → String → Folder F → Result (Fault X) (Folder F)
  add_base from_info table_name from_name f = do
    info ← read_info f
    write_info
        (record info {
          table_bases =
              Map.insert table_name (base_of from_info table_name from_name) info.table_bases;
        })
        f

  unfoldable pub note_base :
      List String → String → String → String → Root F → Result (Fault X) (Root F)
  unfolding edit folder
  note_base series table_name from_name m root = do
    from ← or_migration_error "Migration not found" (find (λ k. k == from_name) series)
    from_info ← read_info (folder root from)
    edit m (add_base from_info table_name from_name) root

  unfoldable pub add_unmodified_table : ℕ → ATable X → String → String → Root F → Loop X (Root F)
  add_unmodified_table fuel table from_name m root =
      go_on (all_migrations fuel root) λ series. some (note_base series table.name from_name m root)

  abbrev pub from_schema : ℕ → Root F → Option String → Loop X (Adb X)
  from_schema fuel root none = some (ok new_adb)
  from_schema fuel root (some m) = migration_db fuel root m

  abbrev pub save_unmodified : ℕ → Option String → ATable X → String → Root F → Loop X (Root F)
  save_unmodified fuel none table m root =
      some (err (Fault.raised (Error.migration_error "unmodified requires a from")))
  save_unmodified fuel (some from) table m root = add_unmodified_table fuel table from m root

  unfoldable pub save_table :
      ℕ → Option String → List String → ATable X → String → Root F → Loop X (Root F)
  save_table fuel from modified_names table m root =
      if contains table.name modified_names
      then some (edit m (add_modified_table table) root)
      else save_unmodified fuel from table m root

  unfoldable pub save_tables :
      ℕ → Option String → List String → List (String × ATable X) → String → Root F → Loop X (Root F)
  save_tables fuel from modified_names [] m root = some (ok root)
  save_tables fuel from modified_names ((_, table) ∷ l) m root =
      go_on (save_table fuel from modified_names table m root)
        (save_tables fuel from modified_names l m)

  unfoldable pub add_texts :
      List (Backend X)
      → Adb X
      → Adb X
      → List (Operation X)
      → String
      → Root F
      → Result (Fault X) (Root F)
  add_texts [] from_db to_db ops m root = ok root
  add_texts (backend ∷ l) from_db to_db ops m root = do
    both ← texts backend from_db to_db ops
    written ← edit m (add_sql backend.name both.0 both.1) root
    add_texts l from_db to_db ops m written

  unfoldable pub create :
      ℕ
      → List (Backend X)
      → String
      → Option String
      → Adb X
      → Adb X
      → List (Operation X)
      → Root F
      → Loop X (Root F)
  create fuel backends name from from_db to_db ops root =
      go_on (save_tables fuel from (modified_tables ops) to_db.tables.entries name root) λ saved.
        some (do
          written ← add_texts backends from_db to_db (with_migrations_table from ops) name saved
          linked ← edit name (set_migration_from from) written
          add_migration name linked)

  abbrev pub made : List (Operation X) → Loop X (Root F) → Root F → Loop X (Root F × Bool)
  made [] call root = some (ok (root, false))
  made (_ ∷ _) call root = go_on call λ done. some (ok (done, true))

  unfoldable pub create_migration_to :
      ℕ → List (Backend X) → String → Option String → Adb X → Root F → Loop X (Root F × Bool)
  create_migration_to fuel backends name from to_db root =
      go_on (from_schema fuel root from) λ from_db.
        go_on (some (or_panic (diff from_db to_db)))
          λ ops. made ops (create fuel backends name from from_db to_db ops root) root

  unfoldable pub create_migration :
      ℕ → List (Backend X) → String → Option String → Root F → Loop X (Root F × Bool)
  create_migration fuel backends name from root =
      go_on (migration_db fuel root "current")
        λ to_db. create_migration_to fuel backends name from to_db root
