-- ===== src/Value/Refs.antt =====
-- `SqlValRef` of butane_core/src/sqlval.rs and `SqlValRefCustom` of butane_core/src/custom.rs, the
-- conversions between values and borrowed values, and the accessors of `SqlVal`.
use butane.Prelude.{ℕ, ℤ, String, Bool, Option, none, some, List, Result, ok, err, ◌≡◌, refl}
use butane.Value.{Externals, SqlType, SqlVal, Error, Fault}

-- A Postgres object that is only for input is given by what it writes for its type, if it does not fail.
pub data SqlValRef (X : Externals) : Type 0 where
  null : SqlValRef X
  bool : Bool → SqlValRef X
  int : ℤ → SqlValRef X
  big_int : ℤ → SqlValRef X
  real : ℕ → SqlValRef X
  text : String → SqlValRef X
  blob : List ℕ → SqlValRef X
  json : X.Json → SqlValRef X
  timestamp : X.DateTime → SqlValRef X
  pg_to_sql : X.PgType → Option (List ℕ) → SqlValRef X
  pg_bytes : X.PgType → List ℕ → SqlValRef X

module _ {X : Externals} where
  -- `SqlValRef::sqltype`
  unfoldable pub ref_sqltype : SqlValRef X → Option (SqlType X)
  ref_sqltype SqlValRef.null = none
  ref_sqltype (SqlValRef.bool _) = some SqlType.bool
  ref_sqltype (SqlValRef.int _) = some SqlType.int
  ref_sqltype (SqlValRef.big_int _) = some SqlType.big_int
  ref_sqltype (SqlValRef.real _) = some SqlType.real
  ref_sqltype (SqlValRef.text _) = some SqlType.text
  ref_sqltype (SqlValRef.timestamp _) = some SqlType.timestamp
  ref_sqltype (SqlValRef.blob _) = some SqlType.blob
  ref_sqltype (SqlValRef.json _) = some SqlType.json
  ref_sqltype (SqlValRef.pg_to_sql t _) = some (SqlType.custom t)
  ref_sqltype (SqlValRef.pg_bytes t _) = some (SqlType.custom t)

  -- `From<SqlValRefCustom> for SqlValCustom`, with its `unwrap`
  abbrev pub from_written : X.PgType → Option (List ℕ) → Result (Fault X) (SqlVal X)
  from_written t none = err Fault.panicked
  from_written t (some bytes) = ok (SqlVal.custom t bytes)

  -- `From<SqlValRef> for SqlVal`
  unfoldable pub from_ref : SqlValRef X → Result (Fault X) (SqlVal X)
  from_ref SqlValRef.null = ok SqlVal.null
  from_ref (SqlValRef.bool v) = ok (SqlVal.bool v)
  from_ref (SqlValRef.int v) = ok (SqlVal.int v)
  from_ref (SqlValRef.big_int v) = ok (SqlVal.big_int v)
  from_ref (SqlValRef.real v) = ok (SqlVal.real v)
  from_ref (SqlValRef.text v) = ok (SqlVal.text v)
  from_ref (SqlValRef.blob v) = ok (SqlVal.blob v)
  from_ref (SqlValRef.json v) = ok (SqlVal.json v)
  from_ref (SqlValRef.timestamp v) = ok (SqlVal.timestamp v)
  from_ref (SqlValRef.pg_to_sql t written) = from_written t written
  from_ref (SqlValRef.pg_bytes t bytes) = ok (SqlVal.custom t bytes)

  -- `From<&SqlVal> for SqlValRef`, which is `SqlVal::as_ref`
  unfoldable pub as_ref : SqlVal X → SqlValRef X
  as_ref SqlVal.null = SqlValRef.null
  as_ref (SqlVal.bool v) = SqlValRef.bool v
  as_ref (SqlVal.int v) = SqlValRef.int v
  as_ref (SqlVal.big_int v) = SqlValRef.big_int v
  as_ref (SqlVal.real v) = SqlValRef.real v
  as_ref (SqlVal.text v) = SqlValRef.text v
  as_ref (SqlVal.blob v) = SqlValRef.blob v
  as_ref (SqlVal.json v) = SqlValRef.json v
  as_ref (SqlVal.timestamp v) = SqlValRef.timestamp v
  as_ref (SqlVal.custom t bytes) = SqlValRef.pg_bytes t bytes

  pub from_ref-as_ref : (v : SqlVal X) → from_ref (as_ref v) ≡ ok v
  unfolding from_ref as_ref
  from_ref-as_ref SqlVal.null = refl
  from_ref-as_ref (SqlVal.bool v) = refl
  from_ref-as_ref (SqlVal.int v) = refl
  from_ref-as_ref (SqlVal.big_int v) = refl
  from_ref-as_ref (SqlVal.real v) = refl
  from_ref-as_ref (SqlVal.text v) = refl
  from_ref-as_ref (SqlVal.blob v) = refl
  from_ref-as_ref (SqlVal.json v) = refl
  from_ref-as_ref (SqlVal.timestamp v) = refl
  from_ref-as_ref (SqlVal.custom t bytes) = refl

  abbrev cannot {ℓ} : {A : Type ℓ} → SqlType X → SqlVal X → Result (Error X) A
  cannot t v = err (Error.cannot_convert_sql_val t v)

  -- `SqlVal::bool` and the other accessors
  unfoldable pub to_bool : SqlVal X → Result (Error X) Bool
  to_bool (SqlVal.bool val) = ok val
  to_bool v = cannot SqlType.bool v

  unfoldable pub to_integer : SqlVal X → Result (Error X) ℤ
  to_integer (SqlVal.int val) = ok val
  to_integer v = cannot SqlType.int v

  -- An `i32` is also taken.
  unfoldable pub to_bigint : SqlVal X → Result (Error X) ℤ
  to_bigint (SqlVal.int val) = ok val
  to_bigint (SqlVal.big_int val) = ok val
  to_bigint v = cannot SqlType.big_int v

  unfoldable pub to_real : SqlVal X → Result (Error X) ℕ
  to_real (SqlVal.real val) = ok val
  to_real v = cannot SqlType.real v

  unfoldable pub to_text : SqlVal X → Result (Error X) String
  to_text (SqlVal.text val) = ok val
  to_text v = cannot SqlType.text v

  unfoldable pub to_blob : SqlVal X → Result (Error X) (List ℕ)
  to_blob (SqlVal.blob val) = ok val
  to_blob v = cannot SqlType.blob v
