-- ===== src/Tests/Backends.antt =====
-- Adding and removing a backend of migrations on files.
use butane.Prelude.{String, true, none, some, [], ◌∷◌, contains, ok, ◌≡◌, refl, arith}
use butane.Map
use butane.Files.Types.{Folder, Root}
use butane.Files.Series.{folder}
use butane.Files.Chain.{IsWalk, IsChain}
use butane.Cli.Types.{Project, Backends, get_migrations}
use butane.Cli.Embed.{
  update_embedded, backends_named, load_latest_migration_backends, add_each, add_backend,
  remove_each, remove_backend,
}
use butane.Cli.Backends.{With, Without, remove_backend-Without}
use butane.Cli.Added.{add_backend-With}
use butane.Tests.Fixtures.{plain}
use butane.Tests.Creating.{two_ways}
use butane.Tests.Directories.{as_they_are, info-ReadsBack}
use butane.Tests.Commands.{project, initial_folder, initial_root, made}

abbrev named_backends : Backends plain
named_backends = record {
  connect = λ _. ok tt;
  get_backend = λ name. some (record two_ways { name = name });
}

abbrev pg_folder : Folder as_they_are
pg_folder = record initial_folder {
  info =
      some (record { from_name = none; table_bases = Map.empty; backends = "sqlite" ∷ "pg" ∷ [] });
  up = record { entries = ("pg", "CREATE\n") ∷ ("sqlite", "CREATE\n") ∷ [] };
  down = record { entries = ("pg", "DROP\n") ∷ ("sqlite", "DROP\n") ∷ [] };
}

abbrev pg_root : Root as_they_are
pg_root = record initial_root { folders = record { entries = ("init", pg_folder) ∷ [] } }

abbrev pg_project : Project as_they_are
pg_project = record project { migrations = some pg_root }

abbrev initial_project : Project as_they_are
initial_project = record project { migrations = some initial_root }

commanded : Unit {0}
unfolding made get_migrations update_embedded backends_named load_latest_migration_backends add_each
    add_backend remove_each remove_backend
commanded = tt

pg_root-IsChain : IsChain pg_root ("init" ∷ [])
unfolding IsWalk made
pg_root-IsChain = (record { latest = some "init" }, refl, (refl, refl, none, refl, tt))

initial_root-IsChain : IsChain initial_root ("init" ∷ [])
unfolding IsWalk made
initial_root-IsChain = (record { latest = some "init" }, refl, (refl, refl, none, refl, tt))

remove_run : remove_backend 20 named_backends "pg" pg_project ≡ some (ok initial_project)
unfolding commanded
remove_run = refl

add_run : add_backend 20 named_backends "pg" initial_project ≡ some (ok pg_project)
unfolding commanded
add_run = refl

remove_backend-Without_example :
    (root : Root as_they_are) × (initial_project.migrations ≡ some root)
    × IsChain root ("init" ∷ [])
    × ((m : String) → contains m ("init" ∷ []) ≡ true → Without "pg" (folder root m))
remove_backend-Without_example =
    remove_backend-Without info-ReadsBack 20 named_backends "pg" (record two_ways { name = "pg" })
      pg_project initial_project pg_root ("init" ∷ []) refl refl pg_root-IsChain (omega arith)
      remove_run

add_backend-With_example :
    (root : Root as_they_are) × (pg_project.migrations ≡ some root)
    × IsChain root ("init" ∷ [])
    × ((m : String) → contains m ("init" ∷ []) ≡ true → With "pg" (folder root m))
add_backend-With_example =
    add_backend-With info-ReadsBack 20 named_backends "pg" (record two_ways { name = "pg" })
      initial_project pg_project initial_root ("init" ∷ []) refl refl initial_root-IsChain
      (omega arith) add_run
