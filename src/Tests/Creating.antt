-- ===== src/Tests/Creating.antt =====
-- The creation of migrations.
use mathlib.Core.List.{Memᴰ}
use butane.Prelude.{
  String, true, false, none, some, [], ◌∷◌, List, ◌≢◌, any, contains, retain, find, traverse,
  is_empty, ok, ◌⊎◌, ◌≡◌, refl, arith, if◌then◌else◌,
}
use butane.Prelude.Ord.{same_iff, string_ord}
use butane.Prelude.Partial.{collect_ops}
use butane.Map
use butane.Names.{difference, intersection, collect}
use butane.Schema.Keys.{key_ord, cmp}
use butane.Schema.Types.{Adb, Operation}
use butane.Schema.Table.{pk_of, typeid, col_by_name, add_column}
use butane.Schema.Equality.{column_eq, deferred_eq, id_eq, ref_eq}
use butane.Value.Equality.{type_eq, val_eq}
use butane.Schema.Operations.{new_adb, get_table, replace_table}
use butane.Schema.Diff.{diff, diff_table}
use butane.Schema.Diff.Steps.{IsKeyed}
use butane.Schema.Resolve.Resolver.{
  is_known, resolved_reference, resolve_reference_target, resolve_type, resolved, insert, ends_with,
}
use butane.Schema.Resolve.Rounds.{
  visit_values, visit_table, learn_pk, resolve_columns, first_deferred, visit_type, rounds, round,
  resolve_references, verify, resolve_types,
}
use butane.Migrations.Types.{
  MemMigration, new_migration, new_migrations, get_migration, add_sql, set_migration_from,
  add_migration, is_new_latest, latest, get_named, migrations_table, sql_backends, up_sql, down_sql,
}
use butane.Migrations.Create.{from_schema}
use butane.Migrations.Chain.{IsWalk, IsChain}
use butane.Migrations.Edit.{
  migration_db, add_modified_table, add_unmodified_table, add_declared_type, copy_tables,
  copy_types, copy_texts, copy_migration,
}
use butane.Migrations.Create.{
  Backend, modified_tables, save_table, save_tables, texts, add_texts, create, create_migration_to,
  create_migration,
}
use butane.Migrations.Created.{create_migration_to-IsChain}
use butane.Migrations.Texts.{create_migration_to-HasTexts}
use butane.Migrations.Replaced.{IsIndexed}
use butane.Migrations.Saved.{create_migration_to_saves}
use butane.Schema.Resolve.Fixed.{AllSettled}
use butane.Tests.Fixtures.{plain, post_table, user_table}

-- A backend with a text for each way.
abbrev pub two_ways : Backend plain
two_ways = record {
  name = "sqlite";
  create_migration_sql =
      λ current ops. ok (if is_empty current.tables.entries then "CREATE" else "DROP");
}

abbrev pub post_schema : Adb plain
post_schema = record {
  tables = record { entries = ("post", post_table) ∷ [] };
  extra_types = Map.empty;
}

abbrev init : MemMigration plain
init = record {
  name = "init";
  db = post_schema;
  from = none;
  up = record { entries = ("sqlite", "CREATE") ∷ [] };
  down = record { entries = ("sqlite", "DROP") ∷ [] };
}

abbrev both_schema : Adb plain
both_schema = record {
  tables = record { entries = ("post", post_table) ∷ ("user", user_table) ∷ [] };
  extra_types = Map.empty;
}

unfoldable pub creating : Unit {0}
unfolding diff diff_table Map.get Map.find_entry Map.insert Map.insert_entry Map.modify Map.remove
    difference intersection collect retain any contains collect_ops col_by_name column_eq
    deferred_eq id_eq type_eq val_eq ref_eq find traverse pk_of typeid add_column cmp key_ord
    replace_table resolve_reference_target resolve_type resolved is_known insert ends_with
    visit_values visit_table learn_pk resolve_columns first_deferred visit_type rounds round
    resolve_references verify resolve_types add_sql set_migration_from add_migration is_new_latest
    latest get_named get_migration migration_db add_modified_table add_unmodified_table
    modified_tables save_table save_tables texts add_texts create create_migration_to
    create_migration migrations_table resolved_reference sql_backends up_sql down_sql
    add_declared_type copy_tables copy_types copy_texts copy_migration
creating = tt

create_run :
    create_migration_to 20 (two_ways ∷ []) "init" none post_schema new_migrations
    ≡ some (ok (add_migration init new_migrations, true))
unfolding creating
create_run = refl

-- The same schema again makes nothing.
again_run :
    create_migration_to 20
      (two_ways ∷ [])
      "again"
      (some init)
      post_schema
      (add_migration init new_migrations)
    ≡ some (ok (add_migration init new_migrations, false))
unfolding creating
again_run = refl

copy_run : copy_migration 20 init (new_migration "init") ≡ some (ok init)
unfolding creating
copy_run = refl

create_migration_to-IsChain_example :
    (from_db : Adb plain) × (ops : List (Operation plain)) × (from_schema 20 (latest new_migrations)
      ≡ some (ok from_db))
    × (diff from_db post_schema ≡ some ops)
    × (((ops ≡ [])
          × (true ≡ false)
          × (add_migration init new_migrations ≡ new_migrations)
          × IsChain (add_migration init new_migrations) [])
        ⊎ ((m : MemMigration plain) × (ops ≢ [])
            × (true ≡ true)
            × (m.name ≡ "init")
            × IsChain (add_migration init new_migrations) (m ∷ [])))
unfolding creating IsWalk
create_migration_to-IsChain_example =
    create_migration_to-IsChain 20 (two_ways ∷ []) "init" post_schema new_migrations
      (add_migration init new_migrations) true [] tt refl create_run

one_backend : (b c : Backend plain) → Memᴰ b (two_ways ∷ []) → Memᴰ c (two_ways ∷ []) → b ≡ c
one_backend b c (Memᴰ.head e) (Memᴰ.head f) = cc
one_backend b c (Memᴰ.head e) (Memᴰ.tail m) = elim m [ ]
one_backend b c (Memᴰ.tail m) in_c = elim m [ ]

create_migration_to-HasTexts_example :
    (m : MemMigration plain) × (up_text down_text : String) × (back : List (Operation plain))
    × (add_migration init new_migrations ≡ add_migration m new_migrations)
    × (diff post_schema new_adb ≡ some back)
    × (two_ways.create_migration_sql new_adb
          (Operation.add_table post_table ∷ Operation.add_table_if_not_exists migrations_table ∷ [])
        ≡ ok up_text)
    × (two_ways.create_migration_sql post_schema back ≡ ok down_text)
    × (up_sql "sqlite" m ≡ some up_text)
    × (down_sql "sqlite" m ≡ some down_text)
unfolding creating
create_migration_to-HasTexts_example =
    create_migration_to-HasTexts 20 (two_ways ∷ []) "init" none new_adb post_schema
      (Operation.add_table post_table ∷ []) new_migrations (add_migration init new_migrations)
      two_ways refl refl (λ b c in_b in_c named. one_backend b c in_b in_c) create_run
      (Memᴰ.head refl)

post_schema-IsKeyed : IsKeyed post_schema
unfolding get_table Map.get
post_schema-IsKeyed t table h = ground (arith, same_iff t "post")

both_schema-IsKeyed : IsKeyed both_schema
unfolding get_table Map.get
both_schema-IsKeyed t table h = ground (arith, same_iff t "post", same_iff t "user")

both_run : diff post_schema both_schema ≡ some (Operation.add_table user_table ∷ [])
unfolding creating
both_run = refl

first_run : diff new_adb post_schema ≡ some (Operation.add_table post_table ∷ [])
unfolding creating
first_run = refl

found_post : get_table "post" both_schema ≡ some post_table
unfolding creating get_table
found_post = refl

first_found : get_table "post" post_schema ≡ some post_table
unfolding creating get_table
first_found = refl

left_out : contains "post" (modified_tables (Operation.add_table user_table ∷ [])) ≡ false
unfolding creating
left_out = refl

post_schema-AllSettled : AllSettled post_schema.tables.entries
unfolding creating
post_schema-AllSettled = (((refl, tt, (refl, tt, tt)), λ keyless. absurd (cc)), tt)

post_schema-IsIndexed : IsIndexed post_schema.tables.entries
unfolding creating
post_schema-IsIndexed = (refl, refl, tt)

create_migration_to_saves_example :
    (m : MemMigration plain) × (add_migration init new_migrations ≡ add_migration m new_migrations)
    × ((t : String) → get_table t m.db ≡ get_table t post_schema)
create_migration_to_saves_example =
    create_migration_to_saves 20 (two_ways ∷ []) "init" none post_schema new_migrations
      (add_migration init new_migrations) post_schema-AllSettled post_schema-IsIndexed (omega arith)
      create_run
