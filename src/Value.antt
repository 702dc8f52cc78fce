-- ===== src/Value.antt =====
-- SQL types and values (butane_core/src/lib.rs `SqlType`, `Error`; butane_core/src/sqlval.rs
-- `SqlVal`; butane_core/src/custom.rs). A float is its 64-bit pattern.
pub mod Equality
pub mod Refs
pub mod Convert
pub mod RoundTrips
use butane.Prelude.{ℕ, ℤ, String, List, Bool, Option, none, some, ◌≡◌, true, Result, ok, err}

-- What the crates that butane calls provide: JSON values, timestamps, Postgres types, the texts that
-- they print, the SQL keywords of `sqlparser`, and their errors.
pub record Externals : Type 1 where
  pub Json : Type 0
  pub json_eq : Json → Json → Bool
  pub json_eq_refl : (j : Json) → json_eq j j ≡ true
  pub json_default : Json
  pub json_text : Json → String
  pub DateTime : Type 0
  pub time_eq : DateTime → DateTime → Bool
  pub time_eq_refl : (t : DateTime) → time_eq t t ≡ true
  pub time_epoch : DateTime
  pub time_literal : DateTime → String
  pub PgType : Type 0
  pub pg_type_eq : PgType → PgType → Bool
  pub pg_type_eq_refl : (t : PgType) → pg_type_eq t t ≡ true
  pub pg_type_name : PgType → String
  pub real_text : ℕ → String
  pub hex_upper : List ℕ → String
  pub to_uppercase : String → String
  pub keywords : List String
  pub Failure : Type 0

pub data SqlType (X : Externals) : Type 0 where
  bool int big_int real text timestamp blob json : SqlType X
  custom : X.PgType → SqlType X

pub data SqlVal (X : Externals) : Type 0 where
  null : SqlVal X
  bool : Bool → SqlVal X
  int : ℤ → SqlVal X
  big_int : ℤ → SqlVal X
  real : ℕ → SqlVal X
  text : String → SqlVal X
  blob : List ℕ → SqlVal X
  json : X.Json → SqlVal X
  timestamp : X.DateTime → SqlVal X
  custom : X.PgType → List ℕ → SqlVal X

-- The variants that wrap an error of another crate are one, `external`.
pub data Error (X : Externals) : Type 0 where
  no_such_object value_not_loaded value_not_saved not_initialized already_initialized : Error X
  out_of_range no_custom_default save_determination_not_supported poisoned_connection : Error X
  bounds_error unknown_sql_type migration_error unknown_backend internal : String → Error X
  cannot_resolve_type invalid_auto unknown_enum_variant table_not_found : String → Error X
  cannot_convert_sql_val : SqlType X → SqlVal X → Error X
  sql_result_type_mismatch : String → String → Error X
  column_not_found : String → String → Error X
  literal_for_custom_unsupported : X.PgType → List ℕ → Error X
  incompatible_custom_t : X.PgType → String → Error X
  external : X.Failure → Error X

-- How a call may fail: by an error that it returns, or by a panic.
pub data Fault (X : Externals) : Type 0 where
  raised : Error X → Fault X
  panicked : Fault X

-- A call that may not end: `none` is that the fuel ran out.
abbrev pub Loop {ℓ} : Externals → Type ℓ → Type ℓ
Loop X A = Option (Result (Fault X) A)

abbrev pub lift {ℓ} : {X : Externals} {A : Type ℓ} → Result (Error X) A → Result (Fault X) A
lift (ok a) = ok a
lift (err e) = err (Fault.raised e)

-- `SqlVal::sqltype`
unfoldable pub sqltype : {X : Externals} → SqlVal X → Option (SqlType X)
sqltype SqlVal.null = none
sqltype (SqlVal.bool _) = some SqlType.bool
sqltype (SqlVal.int _) = some SqlType.int
sqltype (SqlVal.big_int _) = some SqlType.big_int
sqltype (SqlVal.real _) = some SqlType.real
sqltype (SqlVal.text _) = some SqlType.text
sqltype (SqlVal.timestamp _) = some SqlType.timestamp
sqltype (SqlVal.blob _) = some SqlType.blob
sqltype (SqlVal.json _) = some SqlType.json
sqltype (SqlVal.custom ty _) = some (SqlType.custom ty)
