-- ===== src/Tests/Stored.antt =====
-- Values handed to SQLite and read from it.
use butane.Prelude.{
  ℕ, ℤ, String, Bool, true, false, some, List, Result, ok, err, ◌≡◌, refl, inr, arith,
}
use butane.Value.{SqlType, SqlVal, sqltype}
use butane.Value.Refs.{as_ref, from_ref}
use butane.Value.Convert.{cast}
use butane.Sqlite.Values.{
  Rusqlite, LawfulRusqlite, sqlvalref_to_sqlite, read_as, sql_valref_from_rusqlite,
  sql_val_from_rusqlite, sql_val_from_rusqlite-sqlvalref_to_sqlite,
}
use butane.Tests.Fixtures.{plain}

pub data Stored : Type 0 where
  null : Stored
  integer : ℤ → Stored
  real : ℕ → Stored
  text : String → Stored
  blob : List ℕ → Stored

abbrev is_null : Stored → Bool
is_null Stored.null = true
is_null _ = false

abbrev as_i64 : Stored → Result (Unit {0}) ℤ
as_i64 (Stored.integer z) = ok z
as_i64 _ = err tt

abbrev as_f64 : Stored → Result (Unit {0}) ℕ
as_f64 (Stored.real r) = ok r
as_f64 _ = err tt

abbrev as_str : Stored → Result (Unit {0}) String
as_str (Stored.text s) = ok s
as_str _ = err tt

abbrev as_blob : Stored → Result (Unit {0}) (List ℕ)
as_blob (Stored.blob b) = ok b
as_blob _ = err tt

abbrev stored_values : Rusqlite plain
stored_values = record {
  Value = Stored;
  null = Stored.null;
  integer = Stored.integer;
  real = Stored.real;
  text = Stored.text;
  blob = Stored.blob;
  is_null = is_null;
  as_i64 = as_i64;
  as_f64 = as_f64;
  as_str = as_str;
  as_blob = as_blob;
  write_json = λ _. some "null";
  read_json = λ _. ok tt;
  format_time = λ _. "1970-01-01 00:00:00";
  parse_time = λ _. ok tt;
}

stored_values-LawfulRusqlite : LawfulRusqlite stored_values
stored_values-LawfulRusqlite = record {
  null_is_null = refl;
  integer_not_null = λ _. refl;
  real_not_null = λ _ _. refl;
  text_not_null = λ _. refl;
  blob_not_null = λ _. refl;
  as_i64_integer = λ _. refl;
  as_f64_real = λ _ _ _. refl;
  as_str_text = λ _. refl;
  as_blob_blob = λ _. refl;
}

storing : Unit {0}
unfolding sqlvalref_to_sqlite read_as sql_valref_from_rusqlite sql_val_from_rusqlite as_ref from_ref
    cast sqltype
storing = tt

-- A column of integers that holds 2 ^ 32 + 5 is read as 5.
narrow_run :
    sql_val_from_rusqlite stored_values (Stored.integer (ℤ.pos 4294967301)) SqlType.int
    ≡ ok (SqlVal.int (ℤ.pos 5))
unfolding storing
narrow_run = refl

sql_val_from_rusqlite-sqlvalref_to_sqlite_example :
    (w : Stored) × (sqlvalref_to_sqlite stored_values (as_ref (SqlVal.int (ℤ.negsuc 4))) ≡ ok w)
    × (sql_val_from_rusqlite stored_values w SqlType.int ≡ ok (SqlVal.int (ℤ.negsuc 4)))
unfolding storing
sql_val_from_rusqlite-sqlvalref_to_sqlite_example =
    sql_val_from_rusqlite-sqlvalref_to_sqlite stored_values (SqlVal.int (ℤ.negsuc 4)) SqlType.int
      stored_values-LawfulRusqlite (omega arith) (inr refl)
