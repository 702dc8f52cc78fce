-- ===== src/Sql/Defaults.antt =====
-- The default of a column against the column's type.
use butane.Prelude.{false, not, ◌||◌, none, ok, ◌≡◌, refl, inl, inr, Bool-cases, [], ℤ, ◌∙◌, sym}
use butane.Value.{Externals, SqlType, SqlVal, sqltype}
use butane.Value.Equality.{type_eq, is_compatible}
use butane.Schema.Types.{TypeIdentifier, AColumn}
use butane.Schema.Table.{typeid}
use butane.Sql.Literals.{type_default, column_default}

module _ {X : Externals} where
  type_default-is_compatible :
      (t : SqlType X) (v : SqlVal X)
      → type_default t ≡ ok v
      → is_compatible v t false ≡ not (type_eq t SqlType.big_int)
  unfolding type_default is_compatible sqltype type_eq
  type_default-is_compatible SqlType.bool v h = let e : SqlVal.bool false ≡ v = cc in rw (← e) refl
  type_default-is_compatible SqlType.int v h =
      let e : SqlVal.int (ℤ.pos 0) ≡ v = cc in rw (← e) refl
  type_default-is_compatible SqlType.big_int v h =
      let e : SqlVal.int (ℤ.pos 0) ≡ v = cc in rw (← e) refl
  type_default-is_compatible SqlType.real v h = let e : SqlVal.real 0 ≡ v = cc in rw (← e) refl
  type_default-is_compatible SqlType.text v h = let e : SqlVal.text "" ≡ v = cc in rw (← e) refl
  type_default-is_compatible SqlType.blob v h = let e : SqlVal.blob [] ≡ v = cc in rw (← e) refl
  type_default-is_compatible SqlType.json v h =
      let e : SqlVal.json X.json_default ≡ v = cc in rw (← e) refl
  type_default-is_compatible SqlType.timestamp v h =
      let e : SqlVal.timestamp X.time_epoch ≡ v = cc in rw (← e) refl
  type_default-is_compatible (SqlType.custom _) v h = absurd cc

  -- The default that is made up for a column whose type is known and that gives none itself fits the
  -- column's type, null included where the column allows it, but for columns of big integers that do not allow null.
  pub column_default-is_compatible :
      (col : AColumn X) (t : SqlType X) (v : SqlVal X)
      → col.default ≡ none
      → typeid col ≡ ok (TypeIdentifier.ty t)
      → column_default col ≡ ok v
      → is_compatible v t col.nullable ≡ (col.nullable || not (type_eq t SqlType.big_int))
  unfolding column_default is_compatible sqltype
  column_default-is_compatible col t v no_default known h = elim (Bool-cases col.nullable) [
    | inl e ↦
        let given : column_default col ≡ ok SqlVal.null = rw (no_default, e) refl in
        let null_value : SqlVal.null ≡ v = cc in rw (e, ← null_value) refl
    | inr e ↦
        let given : column_default col ≡ type_default t = rw (no_default, e, known) refl in
        rw e (type_default-is_compatible t v (sym given ∙ h))
  ]
