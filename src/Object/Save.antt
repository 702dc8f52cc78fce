-- ===== src/Object/Save.antt =====
-- `DataObjectOps` of butane_core/src/lib.rs: `save` and `delete`. Each gives back the object, the state
-- of the database, and how the call ended.
use butane.Prelude.{String, Bool, true, false, ◌=ℕ◌, List, [], length, Result, ok, err, ◌>>=◌}
use butane.Value.{Externals, SqlType, SqlVal, Fault}
use butane.Sql.Statements.{DbColumn}
use butane.Object.Keys.{PrimaryKeyType, initialize}

-- The calls of `ConnectionMethods` that saving an object makes. A call that fails leaves the state
-- before it.
pub record RowDatabase (X : Externals) : Type 1 where
  pub State : Type 0
  pub insert_returning_pk :
      String
      → List (DbColumn X)
      → DbColumn X
      → List (SqlVal X)
      → State
      → Result (Fault X) (State × SqlVal X)
  pub insert_or_replace :
      String → List (DbColumn X) → DbColumn X → List (SqlVal X) → State → Result (Fault X) State
  pub update :
      String
      → DbColumn X
      → SqlVal X
      → List (DbColumn X)
      → List (SqlVal X)
      → State
      → Result (Fault X) State
  pub delete : String → String → SqlVal X → State → Result (Fault X) State

-- A model as `save` sees it, `DataObject` and `DataObjectInternal`, which generated code implements.
pub record Model (X : Externals) (D : RowDatabase X) : Type 1 where
  pub keys : PrimaryKeyType X
  pub Object : Type 0
  pub table : String
  pub pkcol : String
  pub pk_type : SqlType X
  pub auto_pk : Bool
  pub columns : List (DbColumn X)
  pub non_auto_columns : List (DbColumn X)
  pub pk : Object → keys.Key
  pub set_pk : keys.Key → Object → Object
  pub non_auto_values : Bool → Object → List (SqlVal X)
  pub save_many_to_many : Object → D.State → Object × D.State × Result (Fault X) (Unit {0})

module _ {X : Externals} {D : RowDatabase X} (T : Model X D) where
  abbrev pub Saved : Type 0
  Saved = T.Object × D.State × Result (Fault X) (Unit {0})

  abbrev pub pk_column : DbColumn X
  pk_column = record { name = T.pkcol; ty = T.pk_type }

  -- The key that the insertion gave is put into the object.
  abbrev pub put_key : T.Object → D.State → Result (Fault X) T.keys.Key → Saved
  put_key o s (err e) = (o, s, err e)
  put_key o s (ok key) = (T.set_pk key o, s, ok tt)

  abbrev pub keep_key : T.Object → D.State → Result (Fault X) (D.State × SqlVal X) → Saved
  keep_key o s (err e) = (o, s, err e)
  keep_key o s (ok (s', value)) = put_key o s' (initialize T.keys value (T.pk o))

  abbrev pub keep_state : T.Object → D.State → Result (Fault X) D.State → Saved
  keep_state o s (err e) = (o, s, err e)
  keep_state o s (ok s') = (o, s', ok tt)

  unfoldable pub update_row : T.Object → D.State → Saved
  update_row o s = keep_state o s (
      T.keys.to_sql (T.pk o) >>= λ key.
      D.update T.table pk_column key T.non_auto_columns (T.non_auto_values false o) s)

  -- How the row is saved: by whether the model has an automatic key, whether the key is all there is
  -- to it, and whether the object's key is valid.
  abbrev pub row_by : Bool → Bool → Bool → T.Object → D.State → Saved
  row_by true true true o s = (o, s, ok tt)
  row_by true true false o s = keep_key o s (D.insert_returning_pk T.table [] pk_column [] s)
  row_by true false true o s = update_row o s
  row_by true false false o s =
      keep_key o s
        (D.insert_returning_pk T.table T.non_auto_columns pk_column (T.non_auto_values true o) s)
  row_by false _ _ o s =
      keep_state o s (D.insert_or_replace T.table T.columns pk_column (T.non_auto_values true o) s)

  -- The row of the object, without its relations.
  unfoldable pub save_row : T.Object → D.State → Saved
  save_row o s = row_by T.auto_pk (length T.columns =ℕ 1) (T.keys.is_valid (T.pk o)) o s

  abbrev pub save_relations : Saved → Saved
  save_relations (o, s, err e) = (o, s, err e)
  save_relations (o, s, ok _) = T.save_many_to_many o s

  unfoldable pub save : T.Object → D.State → Saved
  unfolding save_row
  save o s = save_relations (save_row o s)

  unfoldable pub delete : T.Object → D.State → Result (Fault X) D.State
  delete o s = do key ← T.keys.to_sql (T.pk o); D.delete T.table T.pkcol key s
