-- ===== src/Tests/Resolving.antt =====
-- The resolution of deferred types.
use butane.Prelude.{true, some, [], ◌∷◌, Result, ok, ◌≡◌, refl, arith, any, traverse, find}
use mathlib.Core.List.{Memᴰ}
use butane.Prelude.Ord.{string_ord}
use butane.Map
use butane.Value.{SqlType, Fault}
use butane.Schema.Keys.{TypeKey, key_ord, cmp, show_key}
use butane.Schema.Types.{TypeIdentifier, DeferredSqlType, AColumn, ATable, Adb}
use butane.Schema.Table.{pk_of, typeid}
use butane.Schema.Resolve.Resolver.{
  is_known, resolve_reference_target, resolved_reference, resolve_type, resolved, resolve,
  find_type, json_map_prefixes, insert, prefixes_of, ends_with,
}
use butane.Schema.Resolve.Rounds.{
  visit_values, visit_table, learn_pk, resolve_columns, first_deferred, visit_type, rounds, round,
  resolve_references, verify, resolve_types,
}
use butane.Schema.Resolve.Denotes.{TablesRefine, TypesRefine}
use butane.Schema.Resolve.Sound.{resolve_types_sound}
use butane.Schema.Resolve.Fixed.{AllSettled}
use butane.Schema.Resolve.Ends.{resolve_types_ends}
use butane.Schema.Resolve.Verified.{resolve_types-is_known}
use butane.Tests.Fixtures.{plain, plain_column, id_column}

abbrev blog_key : AColumn plain
blog_key = record (plain_column "id" SqlType.int) {
  pk = true;
  sqltype = DeferredSqlType.deferred (TypeKey.custom_type "Slug");
}

abbrev blog_table : ATable plain
blog_table = record { name = "blog"; columns = blog_key ∷ [] }

abbrev blog_column : AColumn plain
blog_column = record (plain_column "blog" SqlType.int) {
  sqltype = DeferredSqlType.deferred (TypeKey.pk "blog");
}

abbrev entry_table : ATable plain
entry_table = record { name = "entry"; columns = id_column ∷ blog_column ∷ [] }

-- A column of `entry` has the type of the key of `blog`, which has a declared type.
abbrev deferred_schema : Adb plain
deferred_schema = record {
  tables = record { entries = ("blog", blog_table) ∷ ("entry", entry_table) ∷ [] };
  extra_types = record {
    entries = (TypeKey.custom_type "Slug", DeferredSqlType.known SqlType.text) ∷ [];
  };
}

abbrev slug : DeferredSqlType plain
slug = DeferredSqlType.known_id (TypeIdentifier.ty SqlType.text)

abbrev resolved_table : ATable plain
resolved_table = record entry_table {
  columns = id_column ∷ record blog_column { sqltype = slug } ∷ [];
}

abbrev resolved_schema : Adb plain
resolved_schema = record deferred_schema {
  tables = record {
    entries =
        ("blog", record blog_table { columns = record blog_key { sqltype = slug } ∷ [] })
        ∷ ("entry", resolved_table)
        ∷ [];
  };
}

resolve_run : resolve_types 10 deferred_schema ≡ some (resolved_schema, ok tt)
unfolding resolve_types rounds round resolve_references verify resolve_reference_target traverse
    resolved_reference visit_values visit_table learn_pk pk_of typeid resolve_columns resolve_type
    resolved is_known resolve find_type any json_map_prefixes insert prefixes_of first_deferred
    visit_type Map.get Map.find_entry Map.insert Map.insert_entry find cmp key_ord show_key
    ends_with
resolve_run = refl

resolve_types_ends_example :
    (out : Adb plain × Result (Fault plain) (Unit {0})) × (resolve_types 8 deferred_schema
      ≡ some out)
resolve_types_ends_example = resolve_types_ends 8 deferred_schema (omega arith)

resolve_types-is_known_example : is_known slug ≡ true
resolve_types-is_known_example =
    resolve_types-is_known 10 deferred_schema resolved_schema "entry" resolved_table
      (record blog_column { sqltype = slug }) resolve_run (Memᴰ.tail (Memᴰ.head refl))
      (Memᴰ.tail (Memᴰ.head refl))

resolved_schema-AllSettled : AllSettled resolved_schema.tables.entries
unfolding is_known pk_of find
resolved_schema-AllSettled = (
  ((refl, tt, tt), λ keyless. absurd (cc)),
  (((refl, tt, (refl, tt, tt)), λ keyless. absurd (cc)), tt),
)

resolve_types_sound_example :
    TablesRefine deferred_schema deferred_schema.tables.entries resolved_schema.tables.entries
    × TypesRefine deferred_schema deferred_schema.extra_types.entries
        resolved_schema.extra_types.entries
resolve_types_sound_example = resolve_types_sound deferred_schema 10 resolved_schema resolve_run
