-- ===== src/Files/Folder.antt =====
-- `FsMigration` of butane_core/src/migrations/fsmigrations.rs, the files of one migration. A call that
-- fails is its error; the files that it has written before are left out.
use butane.Prelude.{
  String, not, Option, none, some, List, [], ◌∷◌, ◌++◌, ◌<>◌, ◌==◌, contains, retain, Result, ok,
  err, ◌>>=◌, if◌then◌else◌,
}
use butane.Prelude.Ord.{string_ord}
use butane.Map
use butane.Map.{Map}
use butane.Value.{Externals, Fault}
use butane.Schema.Keys.{TypeKey, key_ord}
use butane.Schema.Types.{DeferredSqlType, ATable}
use butane.Schema.Resolve.Resolver.{ends_with}
use butane.Files.Types.{MigrationInfo, new_info, Formats, Folder, found}

module _ {X : Externals} where
  -- What `write_contents` writes: the contents with a line end. It looks at the last byte, so there
  -- must be one.
  unfoldable pub line_ended : String → Result (Fault X) String
  unfolding ends_with
  line_ended s =
      if s == "" then err Fault.panicked else ok (if ends_with s "\n" then s else s <> "\n")

  abbrev pub read_or {ℓ κ} :
      {A : Type ℓ} {T : Type κ} → (T → Result (Fault X) A) → A → Option T → Result (Fault X) A
  read_or read otherwise none = ok otherwise
  read_or read otherwise (some t) = read t

-- The file info.json, if it is there, with no more than the migration before this one.
abbrev pub only_from :
    {X : Externals} (F : Formats X) → Option F.info.Text → Result (Fault X) (Option F.info.Text)
only_from F none = ok none
only_from F (some t) = do
  info ← F.info.read t
  kept ← F.info.write (record new_info { from_name = info.from_name })
  ok (some kept)

module _ {X : Externals} {F : Formats X} where
  -- `FsMigration::info`
  unfoldable pub read_info : Folder F → Result (Fault X) MigrationInfo
  read_info f = read_or F.info.read new_info f.info

  unfoldable pub write_info : MigrationInfo → Folder F → Result (Fault X) (Folder F)
  write_info info f = do t ← F.info.write info; ok (record f { info = some t })

  -- `FsMigration::read_sql`, for each direction
  unfoldable pub up_sql : String → Folder F → Option String
  up_sql backend f = Map.get backend f.up

  unfoldable pub down_sql : String → Folder F → Option String
  down_sql backend f = Map.get backend f.down

  unfoldable pub sql_backends : Folder F → Result (Fault X) (List String)
  unfolding read_info
  sql_backends f = do info ← read_info f; ok info.backends

  unfoldable pub migration_from : Folder F → Result (Fault X) (Option String)
  unfolding read_info
  migration_from f = do info ← read_info f; ok info.from_name

  unfoldable pub add_modified_table : ATable X → Folder F → Result (Fault X) (Folder F)
  add_modified_table table f = do
    t ← F.table.write table
    ok (record f { tables = Map.insert table.name t f.tables })

  unfoldable pub delete_table : String → Folder F → Result (Fault X) (Folder F)
  delete_table table f = do
    t ← found F (Map.get table f.tables)
    ok (record f { tables = Map.remove table f.tables })

  -- The name of the backend is added once.
  abbrev pub note_backend : String → MigrationInfo → Folder F → Result (Fault X) (Folder F)
  note_backend backend info f =
      if contains backend info.backends
      then ok f
      else write_info (record info { backends = info.backends ++ (backend ∷ []) }) f

  unfoldable pub add_sql : String → String → String → Folder F → Result (Fault X) (Folder F)
  unfolding read_info write_info line_ended
  add_sql backend up_text down_text f = do
    up_file ← line_ended up_text
    down_file ← line_ended down_text
    info ← read_info f
    note_backend backend info (record f {
      up = Map.insert backend up_file f.up;
      down = Map.insert backend down_file f.down;
    })

  unfoldable pub remove_sql : String → Folder F → Result (Fault X) (Folder F)
  unfolding read_info write_info
  remove_sql backend f = do
    up_file ← found F (Map.get backend f.up)
    down_file ← found F (Map.get backend f.down)
    info ← read_info f
    write_info (record info { backends = retain (λ x. not (x == backend)) info.backends })
        (record f { up = Map.remove backend f.up; down = Map.remove backend f.down })

  unfoldable pub add_type : TypeKey → DeferredSqlType X → Folder F → Result (Fault X) (Folder F)
  add_type key sqltype f = do
    types ← read_or F.types.read Map.empty f.types
    t ← F.types.write (Map.insert key sqltype types)
    ok (record f { types = some t })

  unfoldable pub set_migration_from : Option String → Folder F → Result (Fault X) (Folder F)
  unfolding read_info write_info
  set_migration_from prev f = do info ← read_info f; write_info (record info { from_name = prev }) f

  unfoldable pub delete_db : Folder F → Result (Fault X) (Folder F)
  delete_db f = do
    info ← only_from F f.info
    ok (record { info = info; types = none; tables = Map.empty; up = Map.empty; down = Map.empty })
