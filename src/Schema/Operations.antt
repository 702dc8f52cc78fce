-- ===== src/Schema/Operations.antt =====
-- `ADB` and `ADB::transform_with` of butane_core/src/migrations/adb.rs.
use butane.Prelude.{String, Option}
use butane.Prelude.Ord.{string_ord}
use butane.Map
use butane.Value.{Externals}
use butane.Schema.Keys.{TypeKey, key_ord}
use butane.Schema.Types.{DeferredSqlType, ATable, Adb, Operation}
use butane.Schema.Table.{add_column, remove_column, replace_column}

module _ {X : Externals} where
  -- `ADB::new`
  abbrev pub new_adb : Adb X
  new_adb = record { tables = Map.empty; extra_types = Map.empty }

  unfoldable pub get_table : String → Adb X → Option (ATable X)
  get_table name db = Map.get name db.tables

  unfoldable pub replace_table : ATable X → Adb X → Adb X
  replace_table table db = record db { tables = Map.insert table.name table db.tables }

  unfoldable pub remove_table_named : String → Adb X → Adb X
  remove_table_named name db = record db { tables = Map.remove name db.tables }

  unfoldable pub add_type : TypeKey → DeferredSqlType X → Adb X → Adb X
  add_type key sqltype db = record db { extra_types = Map.insert key sqltype db.extra_types }

  -- `ADB::transform_with`
  unfoldable pub transform_with : Adb X → Operation X → Adb X
  unfolding replace_table remove_table_named
  transform_with db (Operation.add_table table) = replace_table table db
  transform_with db (Operation.add_table_constraints _) = db
  transform_with db (Operation.add_table_if_not_exists table) = replace_table table db
  transform_with db (Operation.remove_table name) = remove_table_named name db
  transform_with db (Operation.remove_table_constraints _) = db
  transform_with db (Operation.add_column table col) = record db {
    tables = Map.modify table (add_column col) db.tables;
  }
  transform_with db (Operation.remove_column table name) = record db {
    tables = Map.modify table (remove_column name) db.tables;
  }
  transform_with db (Operation.change_column table _ new) = record db {
    tables = Map.modify table (replace_column new) db.tables;
  }
