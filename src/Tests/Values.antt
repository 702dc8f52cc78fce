-- ===== src/Tests/Values.antt =====
-- Conversions of values, and the texts of type keys.
use butane.Prelude.{ℤ, none, some, ok, ◌≡◌, ◌↔◌, refl, arith}
use butane.Value.{SqlVal}
use butane.Value.Refs.{as_ref, from_ref}
use butane.Value.Convert.{
  Prim, cast, IsIn, Field, prim_from_sql, prim_from_sql_ref, to_sql, to_sql_ref, from_sql,
  from_sql_ref,
}
use butane.Value.RoundTrips.{IsCongruent, prim_from_sql-wraps, from_sql-to_sql}
use butane.Schema.Keys.{TypeKey}
use butane.Schema.KeyTexts.{serialize_key, split_off, visit_str, visit_str-serialize_key}
use butane.Tests.Fixtures.{plain}

conversions : Unit {0}
unfolding from_sql from_sql_ref prim_from_sql prim_from_sql_ref to_sql to_sql_ref as_ref from_ref
    cast
conversions = tt

-- 300 is read as the byte 44.
byte_run : from_sql plain (Field.prim Prim.u8) (SqlVal.int (ℤ.pos 300)) ≡ ok (ℤ.pos 44)
unfolding conversions
byte_run = refl

prim_from_sql-wraps_example :
    (a : ℤ) × (from_sql plain (Field.prim Prim.u8) (SqlVal.int (ℤ.pos 300)) ≡ ok a)
    × IsIn Prim.u8 a
    × IsCongruent 256 a (ℤ.pos 300)
prim_from_sql-wraps_example = prim_from_sql-wraps Prim.u8 (ℤ.pos 300)

from_sql-to_sql_example :
    (from_sql plain
        (Field.option (Field.prim Prim.i8))
        (to_sql plain (Field.option (Field.prim Prim.i8)) (some (ℤ.negsuc 127)))
      ≡ ok (some (ℤ.negsuc 127)))
    × (from_ref (to_sql_ref plain (Field.option (Field.prim Prim.i8)) (some (ℤ.negsuc 127)))
        ≡ ok (to_sql plain (Field.option (Field.prim Prim.i8)) (some (ℤ.negsuc 127))))
from_sql-to_sql_example =
    from_sql-to_sql (Field.option (Field.prim Prim.i8)) (some (ℤ.negsuc 127)) (tt, omega arith)

-- The null of an option inside an option is read as that of the outer one.
nested_run :
    from_sql plain
      (Field.option (Field.option Field.bool))
      (to_sql plain (Field.option (Field.option Field.bool)) (some none))
    ≡ ok none
unfolding conversions
nested_run = refl

-- The reader of keys panics on a text of two bytes.
short_run : visit_str "PK" ≡ none
unfolding visit_str split_off
short_run = refl

visit_str-serialize_key_example :
    (visit_str "CT:Slug" ≡ some (ok (TypeKey.custom_type "Slug")))
    ↔ ("CT:Slug" ≡ serialize_key (TypeKey.custom_type "Slug"))
visit_str-serialize_key_example = visit_str-serialize_key "CT:Slug" (TypeKey.custom_type "Slug")
