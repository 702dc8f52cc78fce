-- ===== src/Value/Convert.antt =====
-- The conversions `ToSql` and `FromSql` of butane_core/src/sqlval.rs: those of the integer types, `f64`,
-- `bool`, strings, bytes, JSON and timestamps, and of `Option` over them. That of `f32`, which rounds, is not
-- modelled.
use butane.Prelude.{
  ℕ, ◌-◌, ◌*◌, ◌%◌, ◌<◌, ℤ, ltb, String, Bool, true, false, Option, none, some, List, Result, ok,
  err, ◌>>=◌, if◌then◌else◌,
}
use butane.Value.{Externals, SqlType, SqlVal, Error, Fault}
use butane.Value.Refs.{SqlValRef, from_ref, as_ref}

-- The integer types of the `impl_prim_sql!` lines.
pub data Prim : Type 0 where
  i64 i32 u32 u16 i16 u8 i8 : Prim

-- Half the numbers of a signed type, or all those of an unsigned one.
abbrev pub bound : Prim → ℕ
bound Prim.i64 = 9223372036854775808
bound Prim.i32 = 2147483648
bound Prim.u32 = 4294967296
bound Prim.u16 = 65536
bound Prim.i16 = 32768
bound Prim.u8 = 256
bound Prim.i8 = 128

abbrev pub is_signed : Prim → Bool
is_signed Prim.i64 = true
is_signed Prim.i32 = true
is_signed Prim.u32 = false
is_signed Prim.u16 = false
is_signed Prim.i16 = true
is_signed Prim.u8 = false
is_signed Prim.i8 = true

-- The integer modulo `m`.
abbrev pub unsigned : ℕ → ℤ → ℕ
unsigned m (ℤ.pos n) = n % m
unsigned m (ℤ.negsuc n) = m - 1 - n % m

abbrev pub signed : ℕ → ℕ → ℤ
signed half u = if ltb u half then ℤ.pos u else ℤ.negsuc (2 * half - 1 - u)

-- `val as $prim`, which wraps around.
unfoldable pub cast : Prim → ℤ → ℤ
cast p z =
    if is_signed p
    then signed (bound p) (unsigned (2 * bound p) z)
    else ℤ.pos (unsigned (bound p) z)

-- The numbers that the type holds.
abbrev pub IsIn : Prim → ℤ → Type 0
IsIn p (ℤ.pos n) = n < bound p
IsIn p (ℤ.negsuc n) = if is_signed p then n < bound p else ⊥

-- Whether the type is stored as a `BigInt`, and not as an `Int`.
abbrev pub is_big : Prim → Bool
is_big Prim.i64 = true
is_big Prim.u32 = true
is_big _ = false

-- The field types whose conversions are modelled; `f32` is none of them.
pub data Field : Type 0 where
  bool real text blob json timestamp : Field
  prim : Prim → Field
  option : Field → Field

module _ {X : Externals} where
  abbrev pub prim_type : Prim → SqlType X
  prim_type p = if is_big p then SqlType.big_int else SqlType.int

  abbrev pub prim_val : Bool → ℤ → SqlVal X
  prim_val true z = SqlVal.big_int z
  prim_val false z = SqlVal.int z

  abbrev pub prim_ref : Bool → ℤ → SqlValRef X
  prim_ref true z = SqlValRef.big_int z
  prim_ref false z = SqlValRef.int z

  -- `sql_conv_err!` on a value and on a borrowed value
  abbrev pub conv_err {ℓ} : {A : Type ℓ} → SqlType X → SqlVal X → Result (Fault X) A
  conv_err t v = err (Fault.raised (Error.cannot_convert_sql_val t v))

  abbrev pub conv_err_ref {ℓ} : {A : Type ℓ} → SqlType X → SqlValRef X → Result (Fault X) A
  conv_err_ref t r = do v ← from_ref r; conv_err t v

  -- `impl_basic_from_sql!`
  unfoldable pub prim_from_sql : Prim → Bool → SqlVal X → Result (Fault X) ℤ
  prim_from_sql p true (SqlVal.big_int z) = ok (cast p z)
  prim_from_sql p false (SqlVal.int z) = ok (cast p z)
  prim_from_sql p _ v = conv_err (prim_type p) v

  unfoldable pub prim_from_sql_ref : Prim → Bool → SqlValRef X → Result (Fault X) ℤ
  prim_from_sql_ref p true (SqlValRef.big_int z) = ok (cast p z)
  prim_from_sql_ref p false (SqlValRef.int z) = ok (cast p z)
  prim_from_sql_ref p _ r = conv_err_ref (prim_type p) r

  -- `FromSql` of strings, bytes, JSON and timestamps
  unfoldable pub text_from_sql : SqlVal X → Result (Fault X) String
  text_from_sql (SqlVal.text a) = ok a
  text_from_sql v = conv_err SqlType.text v

  unfoldable pub text_from_sql_ref : SqlValRef X → Result (Fault X) String
  text_from_sql_ref (SqlValRef.text a) = ok a
  text_from_sql_ref r = conv_err_ref SqlType.text r

  unfoldable pub blob_from_sql : SqlVal X → Result (Fault X) (List ℕ)
  blob_from_sql (SqlVal.blob a) = ok a
  blob_from_sql v = conv_err SqlType.blob v

  unfoldable pub blob_from_sql_ref : SqlValRef X → Result (Fault X) (List ℕ)
  blob_from_sql_ref (SqlValRef.blob a) = ok a
  blob_from_sql_ref r = conv_err_ref SqlType.blob r

  unfoldable pub json_from_sql : SqlVal X → Result (Fault X) X.Json
  json_from_sql (SqlVal.json a) = ok a
  json_from_sql v = conv_err SqlType.json v

  unfoldable pub json_from_sql_ref : SqlValRef X → Result (Fault X) X.Json
  json_from_sql_ref (SqlValRef.json a) = ok a
  json_from_sql_ref r = conv_err_ref SqlType.json r

  unfoldable pub timestamp_from_sql : SqlVal X → Result (Fault X) X.DateTime
  timestamp_from_sql (SqlVal.timestamp a) = ok a
  timestamp_from_sql v = conv_err SqlType.timestamp v

  unfoldable pub timestamp_from_sql_ref : SqlValRef X → Result (Fault X) X.DateTime
  timestamp_from_sql_ref (SqlValRef.timestamp a) = ok a
  timestamp_from_sql_ref r = conv_err_ref SqlType.timestamp r

  abbrev pub is_null : SqlValRef X → Bool
  is_null SqlValRef.null = true
  is_null _ = false

module _ (X : Externals) where
  -- The Rust type of a field. A float is its 64-bit pattern.
  abbrev pub Carrier : Field → Type 0
  Carrier Field.bool = Bool
  Carrier Field.real = ℕ
  Carrier Field.text = String
  Carrier Field.blob = List ℕ
  Carrier Field.json = X.Json
  Carrier Field.timestamp = X.DateTime
  Carrier (Field.prim _) = ℤ
  Carrier (Field.option f) = Option (Carrier f)

  -- `ToSql::to_sql`, and `into_sql`, which gives the same
  unfoldable pub to_sql : (f : Field) → Carrier f → SqlVal X
  to_sql Field.bool a = SqlVal.bool a
  to_sql Field.real a = SqlVal.real a
  to_sql Field.text a = SqlVal.text a
  to_sql Field.blob a = SqlVal.blob a
  to_sql Field.json a = SqlVal.json a
  to_sql Field.timestamp a = SqlVal.timestamp a
  to_sql (Field.prim p) a = prim_val (is_big p) a
  to_sql (Field.option f) none = SqlVal.null
  to_sql (Field.option f) (some a) = to_sql f a

  -- `ToSql::to_sql_ref`
  unfoldable pub to_sql_ref : (f : Field) → Carrier f → SqlValRef X
  to_sql_ref Field.bool a = SqlValRef.bool a
  to_sql_ref Field.real a = SqlValRef.real a
  to_sql_ref Field.text a = SqlValRef.text a
  to_sql_ref Field.blob a = SqlValRef.blob a
  to_sql_ref Field.json a = SqlValRef.json a
  to_sql_ref Field.timestamp a = SqlValRef.timestamp a
  to_sql_ref (Field.prim p) a = prim_ref (is_big p) a
  to_sql_ref (Field.option f) none = SqlValRef.null
  to_sql_ref (Field.option f) (some a) = to_sql_ref f a

  -- `FromSql::from_sql_ref`
  unfoldable pub from_sql_ref : (f : Field) → SqlValRef X → Result (Fault X) (Carrier f)
  from_sql_ref Field.bool (SqlValRef.bool a) = ok a
  from_sql_ref Field.bool r = conv_err_ref SqlType.bool r
  from_sql_ref Field.real (SqlValRef.real a) = ok a
  from_sql_ref Field.real r = conv_err_ref SqlType.real r
  from_sql_ref Field.text r = text_from_sql_ref r
  from_sql_ref Field.blob r = blob_from_sql_ref r
  from_sql_ref Field.json r = json_from_sql_ref r
  from_sql_ref Field.timestamp r = timestamp_from_sql_ref r
  from_sql_ref (Field.prim p) r = prim_from_sql_ref p (is_big p) r
  from_sql_ref (Field.option f) r =
      let inner = from_sql_ref f r in if is_null r then ok none else (do a ← inner; ok (some a))

  -- `FromSql::from_sql`. That of `Option` is the default one.
  unfoldable pub from_sql : (f : Field) → SqlVal X → Result (Fault X) (Carrier f)
  from_sql Field.bool (SqlVal.bool a) = ok a
  from_sql Field.bool v = conv_err SqlType.bool v
  from_sql Field.real (SqlVal.real a) = ok a
  from_sql Field.real v = conv_err SqlType.real v
  from_sql Field.text v = text_from_sql v
  from_sql Field.blob v = blob_from_sql v
  from_sql Field.json v = json_from_sql v
  from_sql Field.timestamp v = timestamp_from_sql v
  from_sql (Field.prim p) v = prim_from_sql p (is_big p) v
  from_sql (Field.option f) v = from_sql_ref (Field.option f) (as_ref v)
