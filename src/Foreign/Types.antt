-- ===== src/Foreign/Types.antt =====
-- `ForeignKey` of butane_core/src/fkey.rs and its operations, and `get_or_init_once_lock` of
-- butane_core/src/util.rs. A cell is an option, which is set at most once.
use butane.Prelude.{Bool, Option, none, some, Result, ok, err, ◌>>=◌}
use butane.Value.{Externals, SqlVal, Error, Fault}
use butane.Value.Equality.{val_eq}
use butane.Value.Refs.{SqlValRef, from_ref}
use butane.Database.{Database, DataObject}
use butane.Object.Keys.{PrimaryKeyType}
use butane.Query.Get

-- A model with the conversions of its key. Reading the borrowed form of a stored key is reading the key.
pub record Referred (X : Externals) : Type 1 where
  pub object : DataObject X
  pub keys : PrimaryKeyType X
  pub pk : object.Object → keys.Key

pub record ForeignKey (X : Externals) (T : Referred X) : Type 0 where
  pub val : Option T.object.Object
  pub valpk : Option (SqlVal X)

-- `get_or_init_once_lock`: the cell after the call, and what is in it.
unfoldable pub get_or_init_once_lock {ℓ κ} :
    {F : Type ℓ} {A : Type κ} → Option A → Result F A → Option A × Result F A
get_or_init_once_lock (some val) f = (some val, ok val)
get_or_init_once_lock none (err e) = (none, err e)
get_or_init_once_lock none (ok val) = (some val, ok val)

module _ {X : Externals} where
  abbrev pub unwrap {ℓ} : {A : Type ℓ} → Result (Fault X) A → Result (Fault X) A
  unwrap (ok a) = ok a
  unwrap (err _) = err Fault.panicked

module _ {X : Externals} (T : Referred X) where
  -- The key that is stored.
  abbrev pub stored_key : Option (SqlVal X) → Result (Fault X) T.keys.Key
  stored_key (some v) = unwrap (T.keys.from_sql v)
  stored_key none = err Fault.panicked

  -- The stored key against that of the other.
  abbrev pub stored_eq : Option (SqlVal X) → T.keys.Key → Result (Fault X) Bool
  stored_eq none other = err Fault.panicked
  stored_eq (some v) other = do w ← T.keys.to_sql other; ok (val_eq v w)

  -- The stored key is read, and its object is looked for.
  abbrev pub fetch_by :
      (D : Database X) → Option (SqlVal X) → D.State → Result (Fault X) T.object.Object
  fetch_by D none s = err Fault.panicked
  fetch_by D (some v) s = do
    key ← T.keys.from_sql v
    id ← T.keys.to_sql key
    Get.get D T.object id s

module _ {X : Externals} {T : Referred X} where
  abbrev pub new_raw : ForeignKey X T
  new_raw = record { val = none; valpk = none }

  unfoldable pub from_pk : T.keys.Key → Result (Fault X) (ForeignKey X T)
  from_pk key = do v ← T.keys.to_sql key; ok (record new_raw { valpk = some v })

  -- `From<T>` and `From<&T>`
  unfoldable pub from_object : T.object.Object → ForeignKey X T
  from_object obj = record new_raw { val = some obj }

  unfoldable pub from_object_ref : T.object.Object → Result (Fault X) (ForeignKey X T)
  unfolding from_pk
  from_object_ref obj = from_pk (T.pk obj)

  unfoldable pub get : ForeignKey X T → Result (Fault X) T.object.Object
  get fk = elim fk.val [ some v ↦ ok v | none ↦ err (Fault.raised Error.value_not_loaded) ]

  unfoldable pub pk : ForeignKey X T → Result (Fault X) T.keys.Key
  pk fk = elim fk.val [ some v ↦ ok (T.pk v) | none ↦ stored_key T fk.valpk ]

  -- A key that cannot be stored panics, and the cell stays empty.
  abbrev pub store_key :
      ForeignKey X T → Result (Fault X) (SqlVal X) → ForeignKey X T × Result (Fault X) (SqlVal X)
  store_key fk (err e) = (fk, err e)
  store_key fk (ok v) = (record fk { valpk = some v }, ok v)

  unfoldable pub ensure_valpk : ForeignKey X T → ForeignKey X T × Result (Fault X) (SqlVal X)
  ensure_valpk fk = elim fk.valpk [
    | some v ↦ (fk, ok v)
    | none ↦ elim fk.val [
      | some obj ↦ store_key fk (T.keys.to_sql (T.pk obj))
      | none ↦ (fk, err Fault.panicked)
    ]
  ]

  -- `ToSql` and `FromSql`
  unfoldable pub to_sql : ForeignKey X T → ForeignKey X T × Result (Fault X) (SqlVal X)
  unfolding ensure_valpk
  to_sql fk = ensure_valpk fk

  unfoldable pub from_sql_ref : SqlValRef X → Result (Fault X) (ForeignKey X T)
  from_sql_ref r = do v ← from_ref r; ok (record new_raw { valpk = some v })

  -- `PartialEq`, with the key of the other.
  unfoldable pub eq : ForeignKey X T → T.keys.Key → Result (Fault X) Bool
  eq fk other = elim fk.val [
    | some obj ↦ ok (T.keys.key_eq (T.pk obj) other)
    | none ↦ stored_eq T fk.valpk other
  ]

  module _ (D : Database X) where
    -- `ForeignKeyOps::load`. The database is asked only if the object is not there.
    unfoldable pub load :
        ForeignKey X T → D.State → ForeignKey X T × Result (Fault X) T.object.Object
    load fk s =
        let loaded = get_or_init_once_lock fk.val (fetch_by T D fk.valpk s) in
        (record fk { val = loaded.0 }, loaded.1)
