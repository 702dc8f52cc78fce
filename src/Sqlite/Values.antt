-- ===== src/Sqlite/Values.antt =====
-- How values are handed to SQLite and read from it: `sqlvalref_to_sqlite`, `sql_valref_from_rusqlite` and
-- `sql_val_from_rusqlite` of butane_core/src/db/sqlite.rs.
use mathlib.Core.Path.{subst}
use butane.Prelude.{
  ◌≢◌, ◌^◌, ℕ, ℤ, int_eq, String, Bool, true, false, not, Option, none, some, List, Result, ok, err,
  ◌>>=◌, ◌≡◌, refl, ap, ◌⊎◌, inl, inr, if◌then◌else◌,
}
use butane.Value.{Externals, SqlType, SqlVal, Error, Fault, sqltype}
use butane.Value.Equality.{is_nan}
use butane.Value.Refs.{SqlValRef, from_ref, as_ref}
use butane.Value.Convert.{Prim, cast, IsIn}
use butane.Value.RoundTrips.{cast_fits}

-- Values of rusqlite, and the texts of serde_json and of chrono that SQLite stores. Writing a JSON value may
-- fail.
pub record Rusqlite (X : Externals) : Type 1 where
  pub Value : Type 0
  pub null : Value
  pub integer : ℤ → Value
  pub real : ℕ → Value
  pub text : String → Value
  pub blob : List ℕ → Value
  pub is_null : Value → Bool
  pub as_i64 : Value → Result X.Failure ℤ
  pub as_f64 : Value → Result X.Failure ℕ
  pub as_str : Value → Result X.Failure String
  pub as_blob : Value → Result X.Failure (List ℕ)
  pub write_json : X.Json → Option String
  pub read_json : String → Result X.Failure X.Json
  pub format_time : X.DateTime → String
  pub parse_time : String → Result X.Failure X.DateTime

-- A value is read as what it was made of, and only `null` is null. SQLite keeps a float that is not a number
-- as null, and may drop the sign of a zero, so nothing is said of these, and nothing of JSON and times, whose
-- texts other crates write and read.
pub record LawfulRusqlite {X : Externals} (R : Rusqlite X) : Type 0 where
  pub null_is_null : R.is_null R.null ≡ true
  pub integer_not_null : (z : ℤ) → R.is_null (R.integer z) ≡ false
  pub real_not_null : (r : ℕ) → is_nan r ≡ false → R.is_null (R.real r) ≡ false
  pub text_not_null : (s : String) → R.is_null (R.text s) ≡ false
  pub blob_not_null : (b : List ℕ) → R.is_null (R.blob b) ≡ false
  pub as_i64_integer : (z : ℤ) → R.as_i64 (R.integer z) ≡ ok z
  pub as_f64_real : (r : ℕ) → is_nan r ≡ false → r ≢ 2 ^ 63 → R.as_f64 (R.real r) ≡ ok r
  pub as_str_text : (s : String) → R.as_str (R.text s) ≡ ok s
  pub as_blob_blob : (b : List ℕ) → R.as_blob (R.blob b) ≡ ok b

module _ {X : Externals} (R : Rusqlite X) where
  -- The `?` operator on an error of another crate.
  abbrev pub or_external {ℓ} : {A : Type ℓ} → Result X.Failure A → Result (Fault X) A
  or_external (ok a) = ok a
  or_external (err e) = err (Fault.raised (Error.external e))

  abbrev pub json_text : Option String → Result (Fault X) R.Value
  json_text none = err Fault.panicked
  json_text (some s) = ok (R.text s)

  abbrev pub bit : Bool → ℤ
  bit true = ℤ.pos 1
  bit false = ℤ.pos 0

  unfoldable pub sqlvalref_to_sqlite : SqlValRef X → Result (Fault X) R.Value
  sqlvalref_to_sqlite (SqlValRef.bool b) = ok (R.integer (bit b))
  sqlvalref_to_sqlite (SqlValRef.int i) = ok (R.integer i)
  sqlvalref_to_sqlite (SqlValRef.big_int i) = ok (R.integer i)
  sqlvalref_to_sqlite (SqlValRef.real r) = ok (R.real r)
  sqlvalref_to_sqlite (SqlValRef.text t) = ok (R.text t)
  sqlvalref_to_sqlite (SqlValRef.blob b) = ok (R.blob b)
  sqlvalref_to_sqlite (SqlValRef.json v) = json_text (R.write_json v)
  sqlvalref_to_sqlite (SqlValRef.timestamp t) = ok (R.text (R.format_time t))
  sqlvalref_to_sqlite SqlValRef.null = ok R.null
  sqlvalref_to_sqlite (SqlValRef.pg_to_sql _ _) = err Fault.panicked
  sqlvalref_to_sqlite (SqlValRef.pg_bytes _ _) = err Fault.panicked

  -- A value that is not null, by the type of its column.
  unfoldable pub read_as : SqlType X → R.Value → Result (Fault X) (SqlValRef X)
  read_as SqlType.bool val = do
    i ← or_external (R.as_i64 val)
    ok (SqlValRef.bool (not (int_eq i (ℤ.pos 0))))
  read_as SqlType.int val = do i ← or_external (R.as_i64 val); ok (SqlValRef.int (cast Prim.i32 i))
  read_as SqlType.big_int val = do i ← or_external (R.as_i64 val); ok (SqlValRef.big_int i)
  read_as SqlType.real val = do r ← or_external (R.as_f64 val); ok (SqlValRef.real r)
  read_as SqlType.text val = do s ← or_external (R.as_str val); ok (SqlValRef.text s)
  read_as SqlType.json val = do
    s ← or_external (R.as_str val)
    j ← or_external (R.read_json s)
    ok (SqlValRef.json j)
  read_as SqlType.timestamp val = do
    s ← or_external (R.as_str val)
    t ← or_external (R.parse_time s)
    ok (SqlValRef.timestamp t)
  read_as SqlType.blob val = do b ← or_external (R.as_blob val); ok (SqlValRef.blob b)
  read_as (SqlType.custom t) val = err (Fault.raised (Error.incompatible_custom_t t "sqlite"))

  unfoldable pub sql_valref_from_rusqlite : R.Value → SqlType X → Result (Fault X) (SqlValRef X)
  sql_valref_from_rusqlite val ty =
      let read = read_as ty val in if R.is_null val then ok SqlValRef.null else read

  unfoldable pub sql_val_from_rusqlite : R.Value → SqlType X → Result (Fault X) (SqlVal X)
  sql_val_from_rusqlite val ty = do r ← sql_valref_from_rusqlite val ty; from_ref r

  -- The value is one that SQLite can hold: no custom type, an integer of 32 bits where it is to be an
  -- `i32`, a float that is a number and not minus zero, and JSON and times whose texts are read back as
  -- what was written.
  abbrev pub IsPlainValue : SqlVal X → Type 0
  IsPlainValue (SqlVal.int i) = IsIn Prim.i32 i
  IsPlainValue (SqlVal.real r) = (is_nan r ≡ false) × (r ≢ 2 ^ 63)
  IsPlainValue (SqlVal.json j) = (s : String) × (R.write_json j ≡ some s) × (R.read_json s ≡ ok j)
  IsPlainValue (SqlVal.timestamp t) = R.parse_time (R.format_time t) ≡ ok t
  IsPlainValue (SqlVal.custom _ _) = ⊥
  IsPlainValue _ = Unit

  read_null : (ty : SqlType X) → LawfulRusqlite R → sql_val_from_rusqlite R.null ty ≡ ok SqlVal.null
  unfolding sql_val_from_rusqlite sql_valref_from_rusqlite from_ref
  read_null ty laws = rw laws.null_is_null refl

  -- A value that is not null is read as its type has it.
  read_value :
      (w : R.Value) (ty : SqlType X) (r : SqlValRef X) (v : SqlVal X)
      → R.is_null w ≡ false
      → read_as ty w ≡ ok r
      → from_ref r ≡ ok v
      → sql_val_from_rusqlite w ty ≡ ok v
  unfolding sql_val_from_rusqlite sql_valref_from_rusqlite
  read_value w ty r v there read same_value = rw (there, read) same_value

  read_bit :
      (b : Bool)
      → LawfulRusqlite R
      → read_as SqlType.bool (R.integer (bit b)) ≡ ok (SqlValRef.bool b)
  unfolding read_as
  read_bit true laws = rw (laws.as_i64_integer (ℤ.pos 1)) refl
  read_bit false laws = rw (laws.as_i64_integer (ℤ.pos 0)) refl

  -- The type that a value has.
  own_type : (t ty : SqlType X) → (some t ≡ none) ⊎ (some t ≡ some ty) → t ≡ ty
  own_type t ty (inl h) = absurd (cc)
  own_type t ty (inr h) = cc

  -- A value is handed to SQLite, and read back with its own type, or any type for null, as it was: if
  -- it is not of a custom type, an `Int` is an `i32`, a float is a number other than minus zero, the
  -- text of JSON or of a time is read back as what it was written for, and a value of rusqlite is read
  -- as what it was made of.
  pub sql_val_from_rusqlite-sqlvalref_to_sqlite :
      (v : SqlVal X) (ty : SqlType X)
      → LawfulRusqlite R
      → IsPlainValue v
      → (sqltype v ≡ none) ⊎ (sqltype v ≡ some ty)
      → (w : R.Value) × (sqlvalref_to_sqlite (as_ref v) ≡ ok w)
        × (sql_val_from_rusqlite w ty ≡ ok v)
  unfolding sqlvalref_to_sqlite as_ref sqltype read_as from_ref
  sql_val_from_rusqlite-sqlvalref_to_sqlite SqlVal.null ty laws h of_type =
      (R.null, refl, read_null ty laws)
  sql_val_from_rusqlite-sqlvalref_to_sqlite (SqlVal.bool b) ty laws h of_type =
      let ty_of = own_type SqlType.bool ty of_type in
      (
        R.integer (bit b),
        refl,
        subst (λ u. sql_val_from_rusqlite (R.integer (bit b)) u ≡ ok (SqlVal.bool b)) ty_of
            (read_value (R.integer (bit b)) SqlType.bool (SqlValRef.bool b) (SqlVal.bool b)
              (laws.integer_not_null (bit b)) (read_bit b laws) refl),
      )
  sql_val_from_rusqlite-sqlvalref_to_sqlite (SqlVal.int i) ty laws h of_type =
      let ty_of = own_type SqlType.int ty of_type in
      (
        R.integer i,
        refl,
        subst (λ u. sql_val_from_rusqlite (R.integer i) u ≡ ok (SqlVal.int i)) ty_of
            (read_value (R.integer i) SqlType.int (SqlValRef.int i) (SqlVal.int i)
              (laws.integer_not_null i)
              (rw (read_as, laws.as_i64_integer i, cast_fits Prim.i32 i h) refl) refl),
      )
  sql_val_from_rusqlite-sqlvalref_to_sqlite (SqlVal.big_int i) ty laws h of_type =
      let ty_of = own_type SqlType.big_int ty of_type in
      (
        R.integer i,
        refl,
        subst (λ u. sql_val_from_rusqlite (R.integer i) u ≡ ok (SqlVal.big_int i)) ty_of
            (read_value (R.integer i) SqlType.big_int (SqlValRef.big_int i) (SqlVal.big_int i)
              (laws.integer_not_null i) (rw (read_as, laws.as_i64_integer i) refl) refl),
      )
  sql_val_from_rusqlite-sqlvalref_to_sqlite (SqlVal.real r) ty laws h of_type =
      let ty_of = own_type SqlType.real ty of_type in
      (
        R.real r,
        refl,
        subst (λ u. sql_val_from_rusqlite (R.real r) u ≡ ok (SqlVal.real r)) ty_of
            (read_value (R.real r) SqlType.real (SqlValRef.real r) (SqlVal.real r)
              (laws.real_not_null r h.0) (rw (read_as, laws.as_f64_real r h.0 h.1) refl) refl),
      )
  sql_val_from_rusqlite-sqlvalref_to_sqlite (SqlVal.text s) ty laws h of_type =
      let ty_of = own_type SqlType.text ty of_type in
      (
        R.text s,
        refl,
        subst (λ u. sql_val_from_rusqlite (R.text s) u ≡ ok (SqlVal.text s)) ty_of
            (read_value (R.text s) SqlType.text (SqlValRef.text s) (SqlVal.text s)
              (laws.text_not_null s) (rw (read_as, laws.as_str_text s) refl) refl),
      )
  sql_val_from_rusqlite-sqlvalref_to_sqlite (SqlVal.blob b) ty laws h of_type =
      let ty_of = own_type SqlType.blob ty of_type in
      (
        R.blob b,
        refl,
        subst (λ u. sql_val_from_rusqlite (R.blob b) u ≡ ok (SqlVal.blob b)) ty_of
            (read_value (R.blob b) SqlType.blob (SqlValRef.blob b) (SqlVal.blob b)
              (laws.blob_not_null b) (rw (read_as, laws.as_blob_blob b) refl) refl),
      )
  sql_val_from_rusqlite-sqlvalref_to_sqlite (SqlVal.json j) ty laws h of_type =
      let ty_of = own_type SqlType.json ty of_type in
      let (s, written, back) = h in
      (
        R.text s,
        ap json_text written,
        subst (λ u. sql_val_from_rusqlite (R.text s) u ≡ ok (SqlVal.json j)) ty_of
            (read_value (R.text s) SqlType.json (SqlValRef.json j) (SqlVal.json j)
              (laws.text_not_null s) (rw (read_as, laws.as_str_text s, back) refl) refl),
      )
  sql_val_from_rusqlite-sqlvalref_to_sqlite (SqlVal.timestamp t) ty laws h of_type =
      let ty_of = own_type SqlType.timestamp ty of_type in
      (
        R.text (R.format_time t),
        refl,
        subst (λ u. sql_val_from_rusqlite (R.text (R.format_time t)) u ≡ ok (SqlVal.timestamp t))
            ty_of
            (read_value (R.text (R.format_time t)) SqlType.timestamp (SqlValRef.timestamp t)
              (SqlVal.timestamp t) (laws.text_not_null (R.format_time t))
              (rw (read_as, laws.as_str_text (R.format_time t), h) refl) refl),
      )
  sql_val_from_rusqlite-sqlvalref_to_sqlite (SqlVal.custom t b) ty laws h of_type = elim h [ ]
