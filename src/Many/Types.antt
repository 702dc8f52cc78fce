-- ===== src/Many/Types.antt =====
-- `Many` and its operations, of butane_core/src/many.rs. The operations on a connection give back the
-- relation, the state of the database, and how the call ended.
use mathlib.Core.List.{reverse}
use butane.Prelude.{
  String, Option, none, some, List, [], ◌∷◌, ◌++◌, Result, ok, err, ◌>>=◌, if◌then◌else◌,
}
use butane.Value.{Externals, SqlType, SqlVal, Error, Fault}
use butane.Query.Types.{Expr, BoolExpr, Query, OrderDirection}
use butane.Query.Build
use butane.Query.Load.{load}
use butane.Sql.Statements.{DbColumn}
use butane.Database.{Database, DataObject}

pub record Many (X : Externals) (T : DataObject X) : Type 0 where
  pub item_table : String
  pub owner : Option (SqlVal X)
  pub owner_type : SqlType X
  pub new_values : List (SqlVal X)
  pub removed_values : List (SqlVal X)
  pub all_values : Option (List T.Object)

module _ {X : Externals} {T : DataObject X} where
  -- `Many::new`
  unfoldable pub new_many : Many X T
  new_many = record {
    item_table = "not_initialized";
    owner = none;
    owner_type = SqlType.int;
    new_values = [];
    removed_values = [];
    all_values = none;
  }

  unfoldable pub ensure_init : String → SqlVal X → SqlType X → Many X T → Many X T
  ensure_init item_table owner owner_type m = elim m.owner [
    | some _ ↦ m
    | none ↦ record m {
      item_table = item_table;
      owner = some owner;
      owner_type = owner_type;
      all_values = none;
    }
  ]

  unfoldable pub add : T.Object → Many X T → Result (Fault X) (Many X T)
  add new_val m =
      if T.pk_is_valid new_val
      then (T.pk_to_sql new_val >>= λ pk.
          ok (record m { all_values = none; new_values = m.new_values ++ (pk ∷ []) }))
      else err (Fault.raised Error.value_not_saved)

  unfoldable pub remove : T.Object → Many X T → Result (Fault X) (Many X T)
  remove val m = T.pk_to_sql val >>= λ pk.
      ok (record m { all_values = none; removed_values = m.removed_values ++ (pk ∷ []) })

  unfoldable pub get : Many X T → Result (Fault X) (List T.Object)
  get m = elim m.all_values [
    | none ↦ err (Fault.raised Error.value_not_loaded)
    | some values ↦ ok values
  ]

  unfoldable pub query : Many X T → Result (Fault X) (Query X)
  query m = elim m.owner [
    | none ↦ err (Fault.raised Error.not_initialized)
    | some owner ↦ ok (
        Build.filter
          (BoolExpr.subquery T.pkcol m.item_table "has" (BoolExpr.eq "owner" (Expr.val owner)))
          (Build.new T.table))
  ]

  unfoldable pub columns : Many X T → List (DbColumn X)
  columns m =
      record { name = "owner"; ty = m.owner_type } ∷ record { name = "has"; ty = T.pk_type } ∷ []

module _ {X : Externals} (T : DataObject X) (D : Database X) where
  abbrev pub Run : Type 0
  Run = Many X T × D.State × Result (Fault X) (Unit {0})

  -- The values that are not in the database yet, loaded after the others.
  abbrev unsaved : List (SqlVal X) → D.State → Result (Fault X) (List T.Object)
  unsaved [] s = ok []
  unsaved (v ∷ vs) s = load D T (Build.filter (BoolExpr.in_ T.pkcol (v ∷ vs)) (Build.new T.table)) s

  unfoldable pub load_query_uncached :
      Many X T → Query X → D.State → Result (Fault X) (List T.Object)
  load_query_uncached m q s = do
    vals ← load D T q s
    more ← unsaved m.new_values s
    ok (vals ++ more)

  -- The values are kept for the next call.
  unfoldable pub load_query :
      Query X → Many X T → D.State → Many X T × Result (Fault X) (List T.Object)
  load_query q m s = elim m.all_values [
    | some values ↦ (m, ok values)
    | none ↦ elim (load_query_uncached m q s) [
      | err e ↦ (m, err e)
      | ok values ↦ (record m { all_values = some values }, ok values)
    ]
  ]

  unfoldable pub load_many : Many X T → D.State → Many X T × Result (Fault X) (List T.Object)
  load_many m s = elim (query m) [ err _ ↦ (m, ok []) | ok q ↦ load_query q m s ]

  unfoldable pub load_ordered :
      OrderDirection → Many X T → D.State → Many X T × Result (Fault X) (List T.Object)
  load_ordered direction m s = elim (query m) [
    | err _ ↦ (m, ok [])
    | ok q ↦ load_query (Build.order T.pkcol direction q) m s
  ]

  -- What is left of the new values, the state, and how the loop of `save` ended.
  abbrev pub Inserted : Type 0
  Inserted = List (SqlVal X) × D.State × Result (Fault X) (Unit {0})

  abbrev pub and_insert :
      Result (Fault X) D.State → List (SqlVal X) → D.State → (D.State → Inserted) → Inserted
  and_insert (err e) rest s f = (rest, s, err e)
  and_insert (ok s') rest s f = f s'

  -- The loop of `save`, over the new values from the last.
  unfoldable pub insert_new : Many X T → SqlVal X → List (SqlVal X) → D.State → Inserted
  insert_new m owner [] s = ([], s, ok tt)
  insert_new m owner (v ∷ rest) s =
      and_insert (D.insert_only m.item_table (columns m) (owner ∷ v ∷ []) s) rest s
        (insert_new m owner rest)

  abbrev pub delete_removed : Many X T → List (SqlVal X) → D.State → Result (Fault X) D.State
  delete_removed m [] s = ok s
  delete_removed m (v ∷ vs) s = D.delete_where m.item_table (BoolExpr.in_ "has" (v ∷ vs)) s

  -- The removed values have been taken, whether they could be deleted or not; the new values are
  -- cleared after that, and the loop has emptied them already.
  abbrev pub end_save : Many X T → D.State → Result (Fault X) D.State → Run
  end_save m s (err e) = (record m { new_values = []; removed_values = [] }, s, err e)
  end_save m s (ok s') = (record m { new_values = []; removed_values = [] }, s', ok tt)

  -- The rest of `save`, after the loop.
  abbrev pub finish_save : Many X T → Inserted → Run
  finish_save m (rest, s, err e) = (record m { new_values = reverse rest }, s, err e)
  finish_save m (rest, s, ok _) = end_save m s (delete_removed m m.removed_values s)

  abbrev pub save_from : Option (SqlVal X) → Many X T → D.State → Run
  save_from none m s = (m, s, err (Fault.raised Error.not_initialized))
  save_from (some owner) m s = finish_save m (insert_new m owner (reverse m.new_values) s)

  unfoldable pub save : Many X T → D.State → Run
  save m s = save_from m.owner m s

  unfoldable pub delete : Many X T → D.State → Run
  delete m s = elim m.owner [
    | none ↦ (m, s, err (Fault.raised Error.not_initialized))
    | some owner ↦ elim (D.delete_where m.item_table (BoolExpr.eq "owner" (Expr.val owner)) s) [
      | err e ↦ (m, s, err e)
      | ok s' ↦ (record m { new_values = []; removed_values = []; all_values = none }, s', ok tt)
    ]
  ]
