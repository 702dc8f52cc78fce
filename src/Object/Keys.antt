-- ===== src/Object/Keys.antt =====
-- Primary keys: the trait `PrimaryKeyType` of butane_core/src/sqlval.rs, and `AutoPk` of
-- butane_core/src/autopk.rs, a key that the database gives.
use butane.Prelude.{
  Bool, true, false, not, ◌||◌, Option, none, some, Result, ok, err, ◌>>=◌, if◌then◌else◌,
}
use butane.Value.{Externals, SqlVal, Fault}

-- `PrimaryKeyType` with its conversions. A conversion may panic.
pub record PrimaryKeyType (X : Externals) : Type 1 where
  pub Key : Type 0
  pub is_valid : Key → Bool
  pub key_eq : Key → Key → Bool
  pub to_sql : Key → Result (Fault X) (SqlVal X)
  pub from_sql : SqlVal X → Result (Fault X) Key

module _ {X : Externals} (K : PrimaryKeyType X) where
  -- `PrimaryKeyType::initialize`: a key that is valid already is left as it is.
  unfoldable pub initialize : SqlVal X → K.Key → Result (Fault X) K.Key
  initialize value key = if K.is_valid key then ok key else K.from_sql value

  pub record AutoPk : Type 0 where
    pub inner : Option K.Key

  abbrev pub uninitialized : AutoPk
  uninitialized = record { inner = none }

  abbrev pub with_value : K.Key → AutoPk
  with_value val = record { inner = some val }

  -- `AutoPk::is_valid`
  unfoldable pub auto_is_valid : AutoPk → Bool
  auto_is_valid pk = elim pk.inner [ none ↦ false | some val ↦ K.is_valid val ]

  -- A key that is not there panics.
  unfoldable pub auto_to_sql : AutoPk → Result (Fault X) (SqlVal X)
  auto_to_sql pk = elim pk.inner [ none ↦ err Fault.panicked | some val ↦ K.to_sql val ]

  unfoldable pub auto_from_sql : SqlVal X → Result (Fault X) AutoPk
  auto_from_sql value = do val ← K.from_sql value; ok (with_value val)

  -- `Option`'s own equality
  abbrev option_eq : Option K.Key → Option K.Key → Bool
  option_eq none none = true
  option_eq (some a) (some b) = K.key_eq a b
  option_eq _ _ = false

  -- `AutoPk::eq`
  unfoldable pub auto_eq : AutoPk → AutoPk → Bool
  unfolding auto_is_valid
  auto_eq a b =
      if not (auto_is_valid a) || not (auto_is_valid b) then false else option_eq a.inner b.inner

  -- `AutoPk<T>` is a primary key type itself.
  abbrev pub auto_key : PrimaryKeyType X
  auto_key = record {
    Key = AutoPk;
    is_valid = auto_is_valid;
    key_eq = auto_eq;
    to_sql = auto_to_sql;
    from_sql = auto_from_sql;
  }
