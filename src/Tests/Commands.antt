-- ===== src/Tests/Commands.antt =====
-- Commands of the command line on a project with migrations on files.
use butane.Prelude.{
  String, true, false, Option, none, some, List, [], ◌∷◌, any, contains, traverse, ok, err, ◌≡◌,
  refl, arith,
}
use butane.Prelude.Ord.{string_ord}
use butane.Map
use butane.Value.{Fault}
use butane.Query.Types.{BoolExpr}
use butane.Migrations.Database.{migrations_table_name, applied_names, from_row, string_from_sql}
use butane.Migrations.Types as MemTypes
use butane.Migrations.Run.{apply, downgrade, mark_applied}
use butane.Prelude.{◌⊎◌, ◌≢◌}
use butane.Prelude.Goes.{Goes}
use butane.Cli.Migrate.{Ended}
use butane.Schema.Types.{Adb, Operation}
use butane.Schema.Diff.{diff}
use butane.Files.Schema.{from_schema}
use butane.Files.Types.{Folder, Root, new_folder, new_root, new_state}
use butane.Files.Series.{delete_migrations}
use butane.Files.Schema.{
  create_migration_to, create, save_tables, save_table, add_texts, migration_db, stored_db,
  base_tables, own_tables, add_types,
}
use butane.Files.Chain.{IsWalk, IsChain}
use butane.Files.Extended.{create_migration_to-extends}
use butane.Cli.Types.{
  Stop, SpecFile, Project, Backends, loaded, load_connspec, get_migrations, unapplied_migrations,
  last_applied_migration,
}
use butane.Cli.Migrate.{
  apply_until, migrate, downgrade_each, unmigrate_to, keep_applied, position, split_at, last,
}
use butane.Cli.Rollback.{unmigrate_to-IsChain, unmigrate_to-ahead}
use butane.Cli.Embed.{update_embedded}
use butane.Cli.Connected.{make_one, record_one}
use butane.Cli.Collapsed.{make_one-IsChain}
use butane.Tests.Fixtures.{plain, post_table}
use butane.Tests.Migrations.{rows_database, recorded_rows}
use butane.Tests.Creating.{creating, two_ways, post_schema}
use butane.Tests.Directories.{
  as_they_are, info-ReadsBack, state-Keeps, first_folder, second_folder, filed,
}

abbrev third_folder : Folder as_they_are
third_folder = record new_folder {
  info =
      some
        (record { from_name = some "second"; table_bases = Map.empty; backends = "sqlite" ∷ [] });
  up = record { entries = ("sqlite", "MORE\n") ∷ [] };
  down = record { entries = ("sqlite", "LESS\n") ∷ [] };
}

abbrev three_root : Root as_they_are
three_root = record {
  state = some (record { latest = some "third" });
  has_gitignore = true;
  folders = record {
    entries = ("first", first_folder) ∷ ("second", second_folder) ∷ ("third", third_folder) ∷ [];
  };
}

three_root-IsChain : IsChain three_root ("third" ∷ "second" ∷ "first" ∷ [])
unfolding IsWalk filed
three_root-IsChain = (
  record { latest = some "third" },
  refl,
  (refl, refl, some "second", refl, (refl, refl, some "first", refl, (refl, refl, none, refl, tt))),
)

abbrev pub project : Project as_they_are
project = record {
  migrations = some three_root;
  connection = SpecFile.spec (record { backend_name = "sqlite"; conn_str = "db" });
  embedded = false;
  has_src = true;
  embedding = none;
}

abbrev one_backend : Backends plain
one_backend = record { connect = λ _. ok tt; get_backend = λ _. some two_ways }

unfoldable pub tested : Unit {0}
unfolding any contains
tested = tt

unmigrate_to-IsChain_example :
    (end : Ended rows_database) × (unmigrate_to rows_database 3 project "first"
        (some ("second" ∷ "first" ∷ []))
      ≡ some end)
    × Goes
        (λ m. downgrade rows_database (loaded three_root m))
        Stop.failed
        ("second" ∷ [])
        (some ("second" ∷ "first" ∷ []))
        end
unfolding tested
unmigrate_to-IsChain_example =
    unmigrate_to-IsChain rows_database 3 project three_root (some ("second" ∷ "first" ∷ []))
      ("second" ∷ "first" ∷ []) ("third" ∷ []) [] [] "second" "first" refl three_root-IsChain
      (omega arith) (recorded_rows ("second" ∷ "first" ∷ [])) refl refl refl refl

unmigrate_to-ahead_example :
    unmigrate_to rows_database 3 project "second" (some ("first" ∷ []))
    ≡ some (some ("first" ∷ []), err (Stop.failed Fault.panicked))
unfolding tested
unmigrate_to-ahead_example =
    unmigrate_to-ahead rows_database 3 project three_root (some ("first" ∷ [])) ("first" ∷ [])
      ("third" ∷ []) [] [] "first" "second" refl three_root-IsChain (omega arith)
      (recorded_rows ("first" ∷ [])) refl refl refl

ran : Unit {0}
unfolding filed migrate unmigrate_to load_connspec get_migrations unapplied_migrations
    last_applied_migration loaded apply downgrade mark_applied MemTypes.up_sql MemTypes.down_sql
    apply_until downgrade_each applied_names from_row string_from_sql traverse keep_applied position
    split_at last
ran = tt

-- It stops after the second.
migrate_run :
    migrate rows_database 3 one_backend (some "second") project none
    ≡ some (some ("second" ∷ "first" ∷ []), ok tt)
unfolding ran
migrate_run = refl

unmigrate_run :
    unmigrate_to rows_database 3 project "first" (some ("second" ∷ "first" ∷ []))
    ≡ some (some ("first" ∷ []), ok tt)
unfolding ran
unmigrate_run = refl

unfoldable pub made : Unit {0}
unfolding creating filed create_migration_to create save_tables save_table add_texts migration_db
    stored_db base_tables own_tables add_types
made = tt

abbrev pub initial_folder : Folder as_they_are
initial_folder = record new_folder {
  info = some (record { from_name = none; table_bases = Map.empty; backends = "sqlite" ∷ [] });
  tables = record { entries = ("post", post_table) ∷ [] };
  up = record { entries = ("sqlite", "CREATE\n") ∷ [] };
  down = record { entries = ("sqlite", "DROP\n") ∷ [] };
}

abbrev pub initial_root : Root as_they_are
initial_root = record {
  state = some (record { latest = some "init" });
  has_gitignore = true;
  folders = record { entries = ("init", initial_folder) ∷ [] };
}

initial_run :
    create_migration_to 20 (two_ways ∷ []) "init" none post_schema new_root
    ≡ some (ok (initial_root, true))
unfolding made
initial_run = refl

new_root-IsChain : IsChain (new_root {F = as_they_are}) []
unfolding IsWalk filed
new_root-IsChain = (new_state, refl, tt)

create_migration_to-extends_example :
    (from_db : Adb plain) × (ops : List (Operation plain)) × (from_schema {F = as_they_are} 20
        new_root none
      ≡ some (ok from_db))
    × (diff from_db post_schema ≡ some ops)
    × (((ops ≡ []) × (true ≡ false) × (initial_root ≡ new_root) × IsChain initial_root [])
        ⊎ ((ops ≢ []) × (true ≡ true) × IsChain initial_root ("init" ∷ [])))
unfolding tested
create_migration_to-extends_example =
    create_migration_to-extends info-ReadsBack state-Keeps 20 (two_ways ∷ []) "init" post_schema
      new_root initial_root true [] initial_run new_root-IsChain refl

abbrev collapsed_project : Project as_they_are
collapsed_project = record project { migrations = some initial_root }

collapse_run :
    make_one rows_database 20
      (two_ways ∷ [])
      "init"
      post_schema
      project
      (delete_migrations three_root)
      (some ("second" ∷ "first" ∷ []))
    ≡ some ((collapsed_project, some ("init" ∷ [])), ok tt)
unfolding made ran make_one record_one update_embedded delete_migrations
collapse_run = refl

make_one-IsChain_example :
    (one : Root as_they_are) × (collapsed_project.migrations ≡ some one)
    × IsChain one ("init" ∷ [])
    × (forgot : Option (List String)) × (rows_database.delete_where migrations_table_name
          BoolExpr.true
          (some ("second" ∷ "first" ∷ []))
        ≡ ok forgot)
    × (mark_applied rows_database (loaded one "init") forgot ≡ ok (some ("init" ∷ [])))
make_one-IsChain_example =
    make_one-IsChain rows_database info-ReadsBack state-Keeps 20 (two_ways ∷ []) "init" post_schema
      project collapsed_project three_root (some ("second" ∷ "first" ∷ [])) (some ("init" ∷ []))
      collapse_run
