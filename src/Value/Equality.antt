-- ===== src/Value/Equality.antt =====
-- `PartialEq` of SQL types and values, as the source derives it. A float that is not a number
-- differs from itself, and the two zeros are equal.
use butane.Prelude.{
  ℕ, ◌%◌, ◌^◌, List, [], ◌∷◌, Bool, true, false, not, ◌&&◌, ◌||◌, none, some, ◌≡◌, refl, arith, ltb,
  ◌=ℕ◌, bool_eq, bool_eq_refl, int_eq, ℤ, ◌==◌, eq_refl,
}
use butane.Value.{Externals, SqlType, SqlVal, sqltype}

pub is_nan : ℕ → Bool
is_nan b = ltb 0x7ff0000000000000 (b % 2 ^ 63)

is_zero : ℕ → Bool
is_zero b = b % 2 ^ 63 =ℕ 0

unfoldable pub f64_eq : ℕ → ℕ → Bool
unfolding is_nan is_zero
f64_eq a b = not (is_nan a) && not (is_nan b) && (a =ℕ b || (is_zero a && is_zero b))

unfoldable pub bytes_eq : List ℕ → List ℕ → Bool
bytes_eq [] [] = true
bytes_eq (a ∷ as') (b ∷ bs) = a =ℕ b && bytes_eq as' bs
bytes_eq _ _ = false

bytes_eq_refl : (bs : List ℕ) → bytes_eq bs bs ≡ true
unfolding bytes_eq
bytes_eq_refl [] = refl
bytes_eq_refl (b ∷ bs) = ground (arith, bytes_eq_refl bs)

module _ {X : Externals} where
  unfoldable pub type_eq : SqlType X → SqlType X → Bool
  type_eq SqlType.bool SqlType.bool = true
  type_eq SqlType.int SqlType.int = true
  type_eq SqlType.big_int SqlType.big_int = true
  type_eq SqlType.real SqlType.real = true
  type_eq SqlType.text SqlType.text = true
  type_eq SqlType.timestamp SqlType.timestamp = true
  type_eq SqlType.blob SqlType.blob = true
  type_eq SqlType.json SqlType.json = true
  type_eq (SqlType.custom s) (SqlType.custom t) = X.pg_type_eq s t
  type_eq _ _ = false

  unfoldable pub val_eq : SqlVal X → SqlVal X → Bool
  unfolding f64_eq bytes_eq
  val_eq SqlVal.null SqlVal.null = true
  val_eq (SqlVal.bool a) (SqlVal.bool b) = bool_eq a b
  val_eq (SqlVal.int a) (SqlVal.int b) = int_eq a b
  val_eq (SqlVal.big_int a) (SqlVal.big_int b) = int_eq a b
  val_eq (SqlVal.real a) (SqlVal.real b) = f64_eq a b
  val_eq (SqlVal.text a) (SqlVal.text b) = a == b
  val_eq (SqlVal.blob a) (SqlVal.blob b) = bytes_eq a b
  val_eq (SqlVal.json a) (SqlVal.json b) = X.json_eq a b
  val_eq (SqlVal.timestamp a) (SqlVal.timestamp b) = X.time_eq a b
  val_eq (SqlVal.custom s a) (SqlVal.custom t b) = X.pg_type_eq s t && bytes_eq a b
  val_eq _ _ = false

  -- `SqlVal::is_compatible`
  unfoldable pub is_compatible : SqlVal X → SqlType X → Bool → Bool
  unfolding sqltype
  is_compatible v t null_allowed = elim (sqltype v) [
    | none ↦ null_allowed
    | some self_ty ↦ type_eq t self_ty
  ]

  pub type_eq_refl : (t : SqlType X) → type_eq t t ≡ true
  unfolding type_eq
  type_eq_refl (SqlType.custom t) = X.pg_type_eq_refl t
  type_eq_refl _ = refl

  -- A default value that is compared with itself is found equal, unless it is a NaN.
  abbrev pub IsComparable : SqlVal X → Type 0
  IsComparable (SqlVal.real a) = is_nan a ≡ false
  IsComparable _ = Unit

  pub val_eq_refl : (v : SqlVal X) → IsComparable v → val_eq v v ≡ true
  unfolding val_eq is_nan
  val_eq_refl SqlVal.null h = refl
  val_eq_refl (SqlVal.bool b) h = bool_eq_refl b
  val_eq_refl (SqlVal.int (ℤ.pos n)) h = ground arith
  val_eq_refl (SqlVal.int (ℤ.negsuc n)) h = ground arith
  val_eq_refl (SqlVal.big_int (ℤ.pos n)) h = ground arith
  val_eq_refl (SqlVal.big_int (ℤ.negsuc n)) h = ground arith
  val_eq_refl (SqlVal.real a) h = ground arith
  val_eq_refl (SqlVal.text a) h = eq_refl a
  val_eq_refl (SqlVal.blob a) h = bytes_eq_refl a
  val_eq_refl (SqlVal.json a) h = X.json_eq_refl a
  val_eq_refl (SqlVal.timestamp a) h = X.time_eq_refl a
  val_eq_refl (SqlVal.custom s a) h = ground (arith, X.pg_type_eq_refl s, bytes_eq_refl a)
