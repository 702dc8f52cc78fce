-- ===== src/Tests/Fixtures.antt =====
-- The data that the tests share: plain stand-ins for the other crates, and two small schemas.
use butane.Prelude.{String, true, false, none, some, [], ◌∷◌, refl}
use butane.Map
use butane.Value.{Externals, SqlType}
use butane.Schema.Types.{DeferredSqlType, ARef, AColumn, ATable, Adb}

abbrev pub plain : Externals
plain = record {
  Json = Unit {0};
  json_eq = λ _ _. true;
  json_eq_refl = λ _. refl;
  json_default = tt;
  json_text = λ _. "null";
  DateTime = Unit {0};
  time_eq = λ _ _. true;
  time_eq_refl = λ _. refl;
  time_epoch = tt;
  time_literal = λ _. "'1970-01-01T00:00:00.0'";
  PgType = Unit {0};
  pg_type_eq = λ _ _. true;
  pg_type_eq_refl = λ _. refl;
  pg_type_name = λ _. "point";
  real_text = λ _. "0";
  hex_upper = λ _. "";
  to_uppercase = λ s. s;
  keywords = "order" ∷ "table" ∷ [];
  Failure = Unit {0};
}

abbrev pub plain_column : String → SqlType plain → AColumn plain
plain_column name ty = record {
  name = name;
  sqltype = DeferredSqlType.known ty;
  nullable = false;
  pk = false;
  auto = false;
  unique = false;
  default = none;
  reference = none;
}

abbrev pub id_column : AColumn plain
id_column = record (plain_column "id" SqlType.int) { pk = true }

abbrev pub post_table : ATable plain
post_table = record { name = "post"; columns = id_column ∷ plain_column "title" SqlType.text ∷ [] }

-- `title` is nullable now, and there is a new column.
abbrev pub new_post_table : ATable plain
new_post_table = record {
  name = "post";
  columns =
      id_column
      ∷ record (plain_column "title" SqlType.text) { nullable = true }
      ∷ plain_column "likes" SqlType.big_int
      ∷ [];
}

abbrev pub tag_table : ATable plain
tag_table = record {
  name = "tag";
  columns =
      id_column
      ∷ record (plain_column "post" SqlType.int) {
        reference = some (ARef.literal (record { table_name = "post"; column_name = "id" }));
      }
      ∷ [];
}

abbrev pub user_table : ATable plain
user_table = record { name = "user"; columns = id_column ∷ [] }

abbrev pub old_schema : Adb plain
old_schema = record {
  tables = record { entries = ("post", post_table) ∷ ("user", user_table) ∷ [] };
  extra_types = Map.empty;
}

abbrev pub new_schema : Adb plain
new_schema = record {
  tables = record { entries = ("post", new_post_table) ∷ ("tag", tag_table) ∷ [] };
  extra_types = Map.empty;
}
