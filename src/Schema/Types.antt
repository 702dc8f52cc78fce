-- ===== src/Schema/Types.antt =====
-- The data of an abstract schema (butane_core/src/migrations/adb.rs): columns whose type may not be
-- known yet, tables, and the operations that change a schema.
use butane.Prelude.{String, Bool, Option, List}
use butane.Map.{Map}
use butane.Value.{Externals, SqlType, SqlVal}
use butane.Schema.Keys.{TypeKey}

pub data TypeIdentifier (X : Externals) : Type 0 where
  ty : SqlType X → TypeIdentifier X
  name : String → TypeIdentifier X

pub data DeferredSqlType (X : Externals) : Type 0 where
  known : SqlType X → DeferredSqlType X
  known_id : TypeIdentifier X → DeferredSqlType X
  deferred : TypeKey → DeferredSqlType X

pub record ARefLiteral : Type 0 where
  pub table_name : String
  pub column_name : String

pub data ARef (X : Externals) : Type 0 where
  literal : ARefLiteral → ARef X
  deferred : DeferredSqlType X → ARef X

pub record AColumn (X : Externals) : Type 0 where
  pub name : String
  pub sqltype : DeferredSqlType X
  pub nullable : Bool
  pub pk : Bool
  pub auto : Bool
  pub unique : Bool
  pub default : Option (SqlVal X)
  pub reference : Option (ARef X)

pub record ATable (X : Externals) : Type 0 where
  pub name : String
  pub columns : List (AColumn X)

pub record Adb (X : Externals) : Type 0 where
  pub tables : Map String (ATable X)
  pub extra_types : Map TypeKey (DeferredSqlType X)

pub data Operation (X : Externals) : Type 0 where
  add_table add_table_if_not_exists remove_table_constraints : ATable X → Operation X
  remove_table : String → Operation X
  add_column : String → AColumn X → Operation X
  remove_column : String → String → Operation X
  change_column : String → AColumn X → AColumn X → Operation X
  add_table_constraints : ATable X → Operation X
