-- ===== src/Value/RoundTrips.antt =====
-- The laws of the conversions: what is written is read back, the two ways of reading agree, and what the
-- integer casts do.
use butane.Prelude.{
  ℕ, ◌+◌, ◌%◌, ◌^◌, ℤ, Bool, true, false, none, some, ok, ◌≡◌, refl, sym, ap, ◌∙◌, arith,
}
use butane.Value.{Externals, SqlVal}
use butane.Value.Refs.{from_ref, as_ref, from_ref-as_ref}
use butane.Value.Convert.{
  Prim, cast, IsIn, is_big, Field, prim_val, prim_ref, prim_from_sql, prim_from_sql_ref,
  text_from_sql, text_from_sql_ref, blob_from_sql, blob_from_sql_ref, json_from_sql,
  json_from_sql_ref, timestamp_from_sql, timestamp_from_sql_ref, is_null, Carrier, to_sql,
  to_sql_ref, from_sql_ref, from_sql,
}

-- A cast keeps what the type holds.
pub cast_fits : (p : Prim) (z : ℤ) → IsIn p z → cast p z ≡ z
unfolding cast
cast_fits Prim.i64 (ℤ.pos n) h = ground arith
cast_fits Prim.i64 (ℤ.negsuc n) h = ground arith
cast_fits Prim.i32 (ℤ.pos n) h = ground arith
cast_fits Prim.i32 (ℤ.negsuc n) h = ground arith
cast_fits Prim.u32 (ℤ.pos n) h = ground arith
cast_fits Prim.u32 (ℤ.negsuc n) h = elim h [ ]
cast_fits Prim.u16 (ℤ.pos n) h = ground arith
cast_fits Prim.u16 (ℤ.negsuc n) h = elim h [ ]
cast_fits Prim.i16 (ℤ.pos n) h = ground arith
cast_fits Prim.i16 (ℤ.negsuc n) h = ground arith
cast_fits Prim.u8 (ℤ.pos n) h = ground arith
cast_fits Prim.u8 (ℤ.negsuc n) h = elim h [ ]
cast_fits Prim.i8 (ℤ.pos n) h = ground arith
cast_fits Prim.i8 (ℤ.negsuc n) h = ground arith

-- What a cast gives, the type holds.
cast-IsIn : (p : Prim) (z : ℤ) → IsIn p (cast p z)
unfolding cast
cast-IsIn Prim.i64 (ℤ.pos n) = ground arith
cast-IsIn Prim.i64 (ℤ.negsuc n) = ground arith
cast-IsIn Prim.i32 (ℤ.pos n) = ground arith
cast-IsIn Prim.i32 (ℤ.negsuc n) = ground arith
cast-IsIn Prim.u32 (ℤ.pos n) = ground arith
cast-IsIn Prim.u32 (ℤ.negsuc n) = ground arith
cast-IsIn Prim.u16 (ℤ.pos n) = ground arith
cast-IsIn Prim.u16 (ℤ.negsuc n) = ground arith
cast-IsIn Prim.i16 (ℤ.pos n) = ground arith
cast-IsIn Prim.i16 (ℤ.negsuc n) = ground arith
cast-IsIn Prim.u8 (ℤ.pos n) = ground arith
cast-IsIn Prim.u8 (ℤ.negsuc n) = ground arith
cast-IsIn Prim.i8 (ℤ.pos n) = ground arith
cast-IsIn Prim.i8 (ℤ.negsuc n) = ground arith

-- The two numbers differ by a multiple of `m`.
abbrev pub IsCongruent : ℕ → ℤ → ℤ → Type 0
IsCongruent m (ℤ.pos a) (ℤ.pos b) = a % m ≡ b % m
IsCongruent m (ℤ.pos a) (ℤ.negsuc b) = (a + b + 1) % m ≡ 0
IsCongruent m (ℤ.negsuc a) (ℤ.pos b) = (a + b + 1) % m ≡ 0
IsCongruent m (ℤ.negsuc a) (ℤ.negsuc b) = a % m ≡ b % m

-- How many numbers the bits of the type tell apart.
abbrev pub modulus : Prim → ℕ
modulus Prim.i64 = 2 ^ 64
modulus Prim.i32 = 2 ^ 32
modulus Prim.u32 = 2 ^ 32
modulus Prim.u16 = 2 ^ 16
modulus Prim.i16 = 2 ^ 16
modulus Prim.u8 = 2 ^ 8
modulus Prim.i8 = 2 ^ 8

-- What a cast gives has the same bits.
cast-IsCongruent : (p : Prim) (z : ℤ) → IsCongruent (modulus p) (cast p z) z
unfolding cast
cast-IsCongruent Prim.i64 (ℤ.pos n) = ground arith
cast-IsCongruent Prim.i64 (ℤ.negsuc n) = ground arith
cast-IsCongruent Prim.i32 (ℤ.pos n) = ground arith
cast-IsCongruent Prim.i32 (ℤ.negsuc n) = ground arith
cast-IsCongruent Prim.u32 (ℤ.pos n) = ground arith
cast-IsCongruent Prim.u32 (ℤ.negsuc n) = ground arith
cast-IsCongruent Prim.u16 (ℤ.pos n) = ground arith
cast-IsCongruent Prim.u16 (ℤ.negsuc n) = ground arith
cast-IsCongruent Prim.i16 (ℤ.pos n) = ground arith
cast-IsCongruent Prim.i16 (ℤ.negsuc n) = ground arith
cast-IsCongruent Prim.u8 (ℤ.pos n) = ground arith
cast-IsCongruent Prim.u8 (ℤ.negsuc n) = ground arith
cast-IsCongruent Prim.i8 (ℤ.pos n) = ground arith
cast-IsCongruent Prim.i8 (ℤ.negsuc n) = ground arith

-- The field is no option, whose null could be taken for that of another.
abbrev pub IsPlain : Field → Type 0
IsPlain (Field.option f) = ⊥
IsPlain _ = Unit

-- The value is one of the Rust type, and its options are not nested.
abbrev pub Fits : (X : Externals) (f : Field) → Carrier X f → Type 0
Fits X (Field.prim p) a = IsIn p a
Fits X (Field.option f) none = Unit
Fits X (Field.option f) (some a) = IsPlain f × Fits X f a
Fits X _ a = Unit

prim_is_null : (X : Externals) (b : Bool) (z : ℤ) → is_null (prim_ref {X = X} b z) ≡ false
prim_is_null X true z = refl
prim_is_null X false z = refl

-- A plain field is never stored as null.
plain_is_null :
    (X : Externals) (f : Field) (a : Carrier X f) → IsPlain f → is_null (to_sql_ref X f a) ≡ false
unfolding to_sql_ref
plain_is_null X (Field.prim p) a h = prim_is_null X (is_big p) a
plain_is_null X (Field.option f) a h = elim h [ ]
plain_is_null X _ a h = refl

module _ {X : Externals} where
  prim_reads :
      (p : Prim) (b : Bool) (z : ℤ) → prim_from_sql {X = X} p b (prim_val b z) ≡ ok (cast p z)
  unfolding prim_from_sql
  prim_reads p true z = refl
  prim_reads p false z = refl

  -- An integer type reads any number that is stored as its kind of integer, without an error: as a
  -- number that the type holds and that has the same low bits, so that it differs from the stored
  -- one by a multiple of how many numbers the type has.
  pub prim_from_sql-wraps :
      (p : Prim) (z : ℤ)
      → (a : ℤ) × (from_sql X (Field.prim p) (prim_val (is_big p) z) ≡ ok a)
        × IsIn p a
        × IsCongruent (modulus p) a z
  unfolding from_sql
  prim_from_sql-wraps p z =
      (cast p z, prim_reads p (is_big p) z, cast-IsIn p z, cast-IsCongruent p z)

  prim_reads_ref :
      (p : Prim) (b : Bool) (z : ℤ) → prim_from_sql_ref {X = X} p b (prim_ref b z) ≡ ok (cast p z)
  unfolding prim_from_sql_ref
  prim_reads_ref p true z = refl
  prim_reads_ref p false z = refl

  -- What is stored is read back through either way.
  from_sql_ref-to_sql_ref :
      (f : Field) (a : Carrier X f) → Fits X f a → from_sql_ref X f (to_sql_ref X f a) ≡ ok a
  unfolding from_sql_ref to_sql_ref text_from_sql_ref blob_from_sql_ref json_from_sql_ref
      timestamp_from_sql_ref
  from_sql_ref-to_sql_ref Field.bool a h = refl
  from_sql_ref-to_sql_ref Field.real a h = refl
  from_sql_ref-to_sql_ref Field.text a h = refl
  from_sql_ref-to_sql_ref Field.blob a h = refl
  from_sql_ref-to_sql_ref Field.json a h = refl
  from_sql_ref-to_sql_ref Field.timestamp a h = refl
  from_sql_ref-to_sql_ref (Field.prim p) a h =
      prim_reads_ref p (is_big p) a ∙ ap ok (cast_fits p a h)
  from_sql_ref-to_sql_ref (Field.option f) none h = refl
  from_sql_ref-to_sql_ref (Field.option f) (some a) (plain, h) =
      rw (plain_is_null X f a plain, from_sql_ref-to_sql_ref f a h) refl

  prim_agrees :
      (p : Prim) (b : Bool) (v : SqlVal X) → prim_from_sql_ref p b (as_ref v) ≡ prim_from_sql p b v
  unfolding prim_from_sql_ref prim_from_sql as_ref from_ref
  prim_agrees p true (SqlVal.big_int z) = refl
  prim_agrees p false (SqlVal.int z) = refl
  prim_agrees p true _ = refl
  prim_agrees p false _ = refl

  -- Reading a value and reading its borrowed form give the same, errors included.
  pub from_sql-as_ref : (f : Field) (v : SqlVal X) → from_sql_ref X f (as_ref v) ≡ from_sql X f v
  unfolding from_sql_ref from_sql as_ref from_ref text_from_sql text_from_sql_ref blob_from_sql
      blob_from_sql_ref json_from_sql json_from_sql_ref timestamp_from_sql timestamp_from_sql_ref
  from_sql-as_ref (Field.prim p) v = prim_agrees p (is_big p) v
  from_sql-as_ref (Field.option f) v = refl
  from_sql-as_ref Field.bool (SqlVal.bool a) = refl
  from_sql-as_ref Field.bool _ = refl
  from_sql-as_ref Field.real (SqlVal.real a) = refl
  from_sql-as_ref Field.real _ = refl
  from_sql-as_ref Field.text (SqlVal.text a) = refl
  from_sql-as_ref Field.text _ = refl
  from_sql-as_ref Field.blob (SqlVal.blob a) = refl
  from_sql-as_ref Field.blob _ = refl
  from_sql-as_ref Field.json (SqlVal.json a) = refl
  from_sql-as_ref Field.json _ = refl
  from_sql-as_ref Field.timestamp (SqlVal.timestamp a) = refl
  from_sql-as_ref Field.timestamp _ = refl

  as_ref-prim_val : (b : Bool) (z : ℤ) → as_ref {X = X} (prim_val b z) ≡ prim_ref b z
  unfolding as_ref
  as_ref-prim_val true z = refl
  as_ref-prim_val false z = refl

  as_ref-to_sql : (f : Field) (a : Carrier X f) → as_ref (to_sql X f a) ≡ to_sql_ref X f a
  unfolding to_sql to_sql_ref as_ref
  as_ref-to_sql (Field.prim p) a = as_ref-prim_val (is_big p) a
  as_ref-to_sql (Field.option f) none = refl
  as_ref-to_sql (Field.option f) (some a) = as_ref-to_sql f a
  as_ref-to_sql _ a = refl

  -- A value of a field, whose options are not nested, is read back from what it is stored as, and the
  -- borrowed form that it is handed over in is that of the value stored.
  pub from_sql-to_sql :
      (f : Field) (a : Carrier X f)
      → Fits X f a
      → (from_sql X f (to_sql X f a) ≡ ok a) × (from_ref (to_sql_ref X f a) ≡ ok (to_sql X f a))
  from_sql-to_sql f a h =
      let same_form = as_ref-to_sql f a in
      (
        sym (from_sql-as_ref f (to_sql X f a))
            ∙ ap (from_sql_ref X f) same_form
            ∙ from_sql_ref-to_sql_ref f a h,
        ap from_ref (sym same_form) ∙ from_ref-as_ref (to_sql X f a),
      )
