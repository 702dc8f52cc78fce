-- ===== src/Query/Get.antt =====
-- `DataObjectOps::get` and `try_get` of butane_core/src/lib.rs.
use butane.Prelude.{ℤ, Option, none, some, List, [], ◌∷◌, Result, ok, err, ◌>>=◌}
use butane.Value.{Externals, SqlVal, Error, Fault}
use butane.Database.{Database, DataObject}
use butane.Query.Types.{Query, BoolExpr, Expr}
use butane.Query.Build
use butane.Query.Load.{load}

module _ {X : Externals} (D : Database X) (T : DataObject X) where
  abbrev first {ℓ} : {A : Type ℓ} → List A → Option A
  first [] = none
  first (a ∷ _) = some a

  abbrev pub by_key : SqlVal X → Query X
  by_key id =
      Build.limit (ℤ.pos 1) (Build.filter (BoolExpr.eq T.pkcol (Expr.val id)) (Build.new T.table))

  unfoldable pub try_get : SqlVal X → D.State → Result (Fault X) (Option T.Object)
  try_get id s = do objects ← load D T (by_key id) s; ok (first objects)

  abbrev found : Option T.Object → Result (Fault X) T.Object
  found none = err (Fault.raised Error.no_such_object)
  found (some object) = ok object

  unfoldable pub get : SqlVal X → D.State → Result (Fault X) T.Object
  get id s = do object ← try_get id s; found object
