-- ===== src/Tests/Schemas.antt =====
-- Schemas, their difference, and the schema changes of the backends.
use butane.Prelude.{String}
use butane.Prelude.{
  String, true, some, List, [], ◌∷◌, ◌≡◌, refl, arith, foldl, retain, any, contains, traverse, join,
}
use butane.Prelude.Ord.{same_iff, string_ord}
use butane.Map
use butane.Value.{SqlType}
use butane.Schema.Types.{ATable, Operation}
use butane.Schema.Operations.{get_table, transform_with}
use butane.Names.{difference, intersection, collect}
use butane.Prelude.Partial.{collect_ops}
use butane.Schema.Table.{col_by_name}
use butane.Schema.Equality.{column_eq, deferred_eq, id_eq, ref_eq}
use butane.Value.Equality.{type_eq, val_eq}
use butane.Sql.Writer.{quote_reserved_word}
use butane.Schema.Diff.{diff, diff_table}
use butane.Schema.Diff.Steps.{IsKeyed}
use butane.Schema.Diff.Correct.{SameTable}
use butane.Schema.Diff.Refinement.{diff_reaches}
use butane.Schema.Diff.Self.{AllComparable}
use butane.Sqlite.Schema.{op_lines, create_migration_sql}
use butane.Pg.Changes
use butane.Tests.Fixtures.{plain, plain_column, tag_table, user_table, old_schema, new_schema}

program : Unit {0}
unfolding diff diff_table Map.get Map.insert Map.modify Map.remove difference intersection collect
    retain any contains collect_ops col_by_name column_eq deferred_eq id_eq type_eq val_eq ref_eq
    transform_with op_lines create_migration_sql Changes.create_migration_sql traverse join
    quote_reserved_word
program = tt

-- The difference adds, removes and changes, in that order.
diff_run :
    diff old_schema new_schema
    ≡ some (
        Operation.add_table tag_table
        ∷ Operation.remove_table_constraints user_table
        ∷ Operation.remove_table "user"
        ∷ Operation.add_column "post" (plain_column "likes" SqlType.big_int)
        ∷ Operation.change_column "post"
            (plain_column "title" SqlType.text)
            (record (plain_column "title" SqlType.text) { nullable = true })
        ∷ Operation.add_table_constraints tag_table
        ∷ [])
unfolding program
diff_run = refl

old_schema-IsKeyed : IsKeyed old_schema
unfolding get_table Map.get
old_schema-IsKeyed t table h = ground (arith, same_iff t "post", same_iff t "user")

new_schema-IsKeyed : IsKeyed new_schema
unfolding get_table Map.get
new_schema-IsKeyed t table h = ground (arith, same_iff t "post", same_iff t "tag")

diff_reaches_example :
    (ops : List (Operation plain)) × (diff old_schema new_schema ≡ some ops)
    × ((t : String)
        → SameTable (get_table t (foldl transform_with old_schema ops)) (get_table t new_schema))
    × ((foldl transform_with old_schema ops).extra_types ≡ old_schema.extra_types)
diff_reaches_example = diff_reaches old_schema new_schema old_schema-IsKeyed new_schema-IsKeyed

old_schema-AllComparable :
    (s : String) (table : ATable plain) → get_table s old_schema ≡ some table → AllComparable table
unfolding get_table Map.get col_by_name
old_schema-AllComparable s table h n c e v d =
    absurd (ground (arith, same_iff s "post", same_iff s "user"))

abbrev changes : List (Operation plain)
changes =
    Operation.change_column "post" (plain_column "title" SqlType.text)
      (record (plain_column "title" SqlType.text) { nullable = true })
    ∷ Operation.remove_column "post" "title"
    ∷ []
