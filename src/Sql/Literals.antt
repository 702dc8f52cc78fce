-- ===== src/Sql/Literals.antt =====
-- Values in the text of a statement: `column_default` and `sql_literal_value` of
-- butane_core/src/db/helper.rs.
use butane.Prelude.{
  ℤ, show_ℤ, String, true, false, none, some, [], Result, ok, err, ◌>>=◌, ◌<>◌, if◌then◌else◌,
}
use butane.Value.{Externals, SqlType, SqlVal, Error}
use butane.Schema.Types.{TypeIdentifier, AColumn}
use butane.Schema.Table.{typeid}

module _ {X : Externals} where
  unfoldable pub type_default : SqlType X → Result (Error X) (SqlVal X)
  type_default SqlType.bool = ok (SqlVal.bool false)
  type_default SqlType.int = ok (SqlVal.int (ℤ.pos 0))
  type_default SqlType.big_int = ok (SqlVal.int (ℤ.pos 0))
  type_default SqlType.real = ok (SqlVal.real 0)
  type_default SqlType.text = ok (SqlVal.text "")
  type_default SqlType.blob = ok (SqlVal.blob [])
  type_default SqlType.json = ok (SqlVal.json X.json_default)
  type_default SqlType.timestamp = ok (SqlVal.timestamp X.time_epoch)
  type_default (SqlType.custom _) = err Error.no_custom_default

  abbrev identified_default : TypeIdentifier X → Result (Error X) (SqlVal X)
  identified_default (TypeIdentifier.ty t) = type_default t
  identified_default (TypeIdentifier.name _) = err Error.no_custom_default

  unfoldable pub column_default : AColumn X → Result (Error X) (SqlVal X)
  unfolding type_default typeid
  column_default col = elim col.default [
    | some val ↦ ok val
    | none ↦ if col.nullable then ok SqlVal.null else (do t ← typeid col; identified_default t)
  ]

  unfoldable pub sql_literal_value : SqlVal X → Result (Error X) String
  sql_literal_value SqlVal.null = ok "NULL"
  sql_literal_value (SqlVal.bool true) = ok "true"
  sql_literal_value (SqlVal.bool false) = ok "false"
  sql_literal_value (SqlVal.int i) = ok (show_ℤ i)
  sql_literal_value (SqlVal.big_int i) = ok (show_ℤ i)
  sql_literal_value (SqlVal.real r) = ok (X.real_text r)
  sql_literal_value (SqlVal.text s) = ok ("'" <> s <> "'")
  sql_literal_value (SqlVal.blob b) = ok ("x'" <> X.hex_upper b <> "'")
  sql_literal_value (SqlVal.json j) = ok (X.json_text j)
  sql_literal_value (SqlVal.timestamp t) = ok (X.time_literal t)
  sql_literal_value (SqlVal.custom ty bytes) = err (Error.literal_for_custom_unsupported ty bytes)
