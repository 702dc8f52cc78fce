-- ===== src/Database.antt =====
-- What the library asks of a connection, `ConnectionMethods` of butane_core/src/db/connmethods.rs and
-- `BackendConnection` of butane_core/src/db/mod.rs, and of a model, the traits `DataResult` and
-- `DataObject` of butane_core/src/lib.rs, which generated code implements.
use butane.Prelude.{ℤ, String, Bool, Option, List, Result}
use butane.Value.{Externals, SqlType, SqlVal, Fault}
use butane.Query.Types.{BoolExpr, Order}
use butane.Sql.Statements.{DbColumn}

-- A connection, with the state of its database handed from call to call. A call that fails leaves the
-- state before it, and so does a transaction that is not committed. The number of rows that a deletion
-- gives back is left out, as none of its callers here reads it.
pub record Database (X : Externals) : Type 1 where
  pub State : Type 0
  pub backend_name : String
  pub has_table : String → State → Result (Fault X) Bool
  pub query :
      String
      → List (DbColumn X)
      → Option (BoolExpr X)
      → Option ℤ
      → Option ℤ
      → Option (List Order)
      → State
      → Result (Fault X) (List (List (SqlVal X)))
  pub insert_only : String → List (DbColumn X) → List (SqlVal X) → State → Result (Fault X) State
  pub delete_where : String → BoolExpr X → State → Result (Fault X) State
  pub execute : String → State → Result (Fault X) State
  pub transaction : State → Result (Fault X) State
  pub commit : State → Result (Fault X) State

-- A model. Turning an uninitialised key into a value panics.
pub record DataObject (X : Externals) : Type 1 where
  pub Object : Type 0
  pub table : String
  pub pkcol : String
  pub columns : List (DbColumn X)
  pub pk_type : SqlType X
  pub pk_is_valid : Object → Bool
  pub pk_to_sql : Object → Result (Fault X) (SqlVal X)
  pub from_row : List (SqlVal X) → Result (Fault X) Object
