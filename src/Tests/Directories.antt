-- ===== src/Tests/Directories.antt =====
-- Migrations on files that hold what is written to them as it is.
use butane.Prelude.{
  String, true, none, some, List, [], ◌∷◌, any, contains, retain, find, ok, err, eq_iff, ◌≡◌, refl,
  arith,
}
use butane.Prelude.Ord.{string_ord, same_iff}
use butane.Map
use butane.Files.Types.{
  MigrationInfo, MigrationsState, Format, Formats, ReadsBack, Keeps, Folder, Root, new_folder,
}
use butane.Files.Folder.{
  line_ended, read_info, write_info, up_sql, down_sql, migration_from, add_modified_table,
  delete_table, add_sql, remove_sql, add_type, set_migration_from, delete_db, sql_backends,
}
use butane.Files.Series.{
  folder, put, edit, get_migration, get_named, get_state, save_state, latest, previous, all_loop,
  all_migrations, since_loop, migrations_since, last_loop, detach_latest_migration, add_migration,
}
use butane.Files.Schema.{note_base, add_unmodified_table}
use butane.Files.Chain.{IsWalk, IsChain}
use butane.Files.Edits.{Edit, run_edit, FileCall, run_call}
use butane.Files.Kept.{run_calls, run_calls-IsChain, detach-add_migration}
use butane.Files.Listed.{IsListed}
use butane.Files.Texts.{run_edit-IsListed}
use butane.Files.Bases.{HasFile, Finds, IsBased, add_unmodified_table-IsBased}
use butane.Schema.Resolve.Resolver.{ends_with}
use butane.Tests.Fixtures.{plain, post_table, user_table}

-- Every type is its own text.
abbrev as_is : (A : Type 0) → Format plain A
as_is A = record { Text = A; write = ok; read = ok }

abbrev pub as_they_are : Formats plain
as_they_are = record {
  info = as_is MigrationInfo;
  table = as_is _;
  types = as_is _;
  state = as_is MigrationsState;
  not_found = tt;
}

pub info-ReadsBack : ReadsBack as_they_are.info
info-ReadsBack a t h = let q : a ≡ t = cc in rw q refl

pub state-Keeps : Keeps as_they_are.state
state-Keeps a = (a, refl, refl)

abbrev pub first_folder : Folder as_they_are
first_folder = record new_folder {
  info = some (record { from_name = none; table_bases = Map.empty; backends = "sqlite" ∷ [] });
  tables = record { entries = ("post", post_table) ∷ [] };
  up = record { entries = ("sqlite", "CREATE\n") ∷ [] };
  down = record { entries = ("sqlite", "DROP\n") ∷ [] };
}

abbrev pub second_folder : Folder as_they_are
second_folder = record new_folder {
  info =
      some (record { from_name = some "first"; table_bases = Map.empty; backends = "sqlite" ∷ [] });
  tables = record { entries = ("user", user_table) ∷ [] };
  up = record { entries = ("sqlite", "ALTER\n") ∷ [] };
  down = record { entries = ("sqlite", "BACK\n") ∷ [] };
}

abbrev pub two_root : Root as_they_are
two_root = record {
  state = some (record { latest = some "second" });
  has_gitignore = true;
  folders = record { entries = ("first", first_folder) ∷ ("second", second_folder) ∷ [] };
}

unfoldable pub filed : Unit {0}
unfolding Map.get Map.find_entry Map.insert Map.insert_entry Map.remove Map.remove_entry any
    contains retain find line_ended ends_with read_info write_info up_sql down_sql migration_from
    sql_backends add_modified_table delete_table add_sql remove_sql add_type set_migration_from
    delete_db folder put edit get_migration get_named get_state save_state latest previous all_loop
    all_migrations since_loop migrations_since last_loop detach_latest_migration add_migration
    note_base add_unmodified_table run_call run_calls
filed = tt

pub two_root-IsChain : IsChain two_root ("second" ∷ "first" ∷ [])
unfolding IsWalk filed
two_root-IsChain = (
  record { latest = some "second" },
  refl,
  (refl, refl, some "first", refl, (refl, refl, none, refl, tt)),
)

abbrev calls : List (String × FileCall plain)
calls =
    ("first", FileCall.sql_added "pg" "CREATE" "DROP")
    ∷ ("second", FileCall.sql_removed "sqlite")
    ∷ ("first", FileCall.db_deleted)
    ∷ []

abbrev called : Root as_they_are
unfolding run_calls
called = elim (run_calls {F = as_they_are} calls two_root) [ ok r ↦ r | err e ↦ two_root ]

called_run : run_calls calls two_root ≡ ok called
unfolding filed
called_run = refl

run_calls-IsChain_example : IsChain called ("second" ∷ "first" ∷ [])
run_calls-IsChain_example =
    run_calls-IsChain info-ReadsBack calls two_root called ("second" ∷ "first" ∷ [])
      two_root-IsChain called_run

detach-add_migration_example :
    (detached : Root as_they_are) × (detach_latest_migration two_root ≡ ok detached)
    × IsChain detached ("first" ∷ [])
    × (again : Root as_they_are) × (add_migration "second" detached ≡ ok again)
    × IsChain again ("second" ∷ "first" ∷ [])
detach-add_migration_example =
    detach-add_migration state-Keeps two_root "second" "first" [] two_root-IsChain

first_folder-IsListed : IsListed first_folder
unfolding filed
first_folder-IsListed = (
  record { from_name = none; table_bases = Map.empty; backends = "sqlite" ∷ [] },
  refl,
  λ k. (
    ground (arith, same_iff k "sqlite", eq_iff "sqlite" k),
    ground (arith, same_iff k "sqlite", eq_iff "sqlite" k),
  ),
)

abbrev with_pg : Folder as_they_are
with_pg = record first_folder {
  info =
      some (record { from_name = none; table_bases = Map.empty; backends = "sqlite" ∷ "pg" ∷ [] });
  up = record { entries = ("pg", "CREATE\n") ∷ ("sqlite", "CREATE\n") ∷ [] };
  down = record { entries = ("pg", "DROP\n") ∷ ("sqlite", "DROP\n") ∷ [] };
}

with_pg_run :
    run_edit (Edit.call (FileCall.sql_added "pg" "CREATE" "DROP")) first_folder ≡ ok with_pg
unfolding filed run_edit
with_pg_run = refl

run_edit-IsListed_example : IsListed with_pg
run_edit-IsListed_example =
    run_edit-IsListed info-ReadsBack (Edit.call (FileCall.sql_added "pg" "CREATE" "DROP"))
      first_folder with_pg first_folder-IsListed with_pg_run

first_Finds : Finds two_root "first" "post"
unfolding HasFile filed
first_Finds =
    (record { from_name = none; table_bases = Map.empty; backends = "sqlite" ∷ [] }, refl, refl)

second-IsBased : IsBased two_root "second"
unfolding HasFile filed
second-IsBased = (
  record { from_name = some "first"; table_bases = Map.empty; backends = "sqlite" ∷ [] },
  refl,
  λ t b e. absurd cc,
)

abbrev with_base : Root as_they_are
with_base = record two_root {
  folders = record {
    entries =
        ("first", first_folder)
        ∷ (
          "second",
          record second_folder {
            info = some (record {
              from_name = some "first";
              table_bases = record { entries = ("post", "first") ∷ [] };
              backends = "sqlite" ∷ [];
            });
          },
        )
        ∷ [];
  };
}

with_base_run : add_unmodified_table 2 post_table "first" "second" two_root ≡ some (ok with_base)
unfolding filed
with_base_run = refl

add_unmodified_table-IsBased_example : Finds with_base "second" "post" × IsBased with_base "second"
add_unmodified_table-IsBased_example =
    add_unmodified_table-IsBased info-ReadsBack 2 post_table "first" "second" two_root with_base
      first_Finds second-IsBased with_base_run
