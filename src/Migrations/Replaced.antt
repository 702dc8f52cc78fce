-- ===== src/Migrations/Replaced.antt =====
-- Tables put into a schema one by one, `ADB::replace_table` of butane_core/src/migrations/adb.rs.
use Prim.Native.Nat.{Ordering}
use mathlib.Core.Path.{subst}
use butane.Prelude.{
  ◌+◌, ◌≤◌, String, true, false, Option, none, some, List, [], ◌∷◌, length, Option-cases,
  Bool-cases, ◌≡◌, refl, sym, ap, ◌∙◌, arith, inl, inr, if◌then◌else◌,
}
use butane.Prelude.Ord.{same, same_iff, string_ord}
use butane.Map
use butane.Map.{Map, find_entry, get-insert}
use butane.Value.{Externals}
use butane.Schema.Types.{ATable, Adb}
use butane.Schema.Operations.{get_table, replace_table, new_adb}
use butane.Schema.Resolve.Ends.{tables_bound}
use butane.Schema.Resolve.Fixed.{IsSettled, AllSettled}

other_way : (t k : String) → same t k ≡ false → same k t ≡ false
other_way t k e = ground (arith, same_iff t k, same_iff k t)

module _ {X : Externals} where
  module _ (k j : String) (v w : ATable X) (l rest : List (String × ATable X)) where
    abbrev inserted : Ordering → List (String × ATable X)
    inserted Ordering.lt = (k, v) ∷ (j, w) ∷ l
    inserted Ordering.eq = (k, v) ∷ l
    inserted Ordering.gt = (j, w) ∷ rest

    inserted_cases :
        (c : Ordering)
        → (elim c [
          | Ordering.lt ↦ (k, v) ∷ (j, w) ∷ l
          | Ordering.eq ↦ (k, v) ∷ l
          | Ordering.gt ↦ (j, w) ∷ rest
        ])
          ≡ inserted c
    inserted_cases Ordering.lt = refl
    inserted_cases Ordering.eq = refl
    inserted_cases Ordering.gt = refl

    inserted_settled :
        (c : Ordering)
        → IsSettled v
        → AllSettled ((j, w) ∷ l)
        → AllSettled rest
        → AllSettled (inserted c)
    inserted_settled Ordering.lt hv hl hr = (hv, hl)
    inserted_settled Ordering.eq hv hl hr = (hv, hl.1)
    inserted_settled Ordering.gt hv hl hr = (hl.0, hr)

    inserted_bound :
        (c : Ordering)
        → tables_bound rest ≤ 1 + length v.columns + tables_bound l
        → tables_bound (inserted c) ≤ 1 + length v.columns + tables_bound ((j, w) ∷ l)
    inserted_bound Ordering.lt h = omega arith
    inserted_bound Ordering.eq h = omega arith
    inserted_bound Ordering.gt h = omega arith

  insert_entry_cases :
      (k j : String) (v w : ATable X) (l : List (String × ATable X))
      → Map.insert_entry k v ((j, w) ∷ l)
        ≡ inserted k j v w l (Map.insert_entry k v l) (string_ord.cmp k j)
  unfolding Map.insert_entry
  insert_entry_cases k j v w l =
      inserted_cases k j v w l (Map.insert_entry k v l) (string_ord.cmp k j)

  insert_entry-AllSettled :
      (k : String) (v : ATable X) (l : List (String × ATable X))
      → IsSettled v
      → AllSettled l
      → AllSettled (Map.insert_entry k v l)
  unfolding Map.insert_entry
  insert_entry-AllSettled k v [] hv h = (hv, tt)
  insert_entry-AllSettled k v ((j, w) ∷ l) hv h =
      subst AllSettled (sym (insert_entry_cases k j v w l)) (
        inserted_settled k j v w l (Map.insert_entry k v l) (string_ord.cmp k j) hv h
          (insert_entry-AllSettled k v l hv h.1))

  tables_bound-insert_entry :
      (k : String) (v : ATable X) (l : List (String × ATable X))
      → tables_bound (Map.insert_entry k v l) ≤ 1 + length v.columns + tables_bound l
  unfolding Map.insert_entry
  tables_bound-insert_entry k v [] = omega arith
  tables_bound-insert_entry k v ((j, w) ∷ l) =
      subst (λ m. tables_bound m ≤ 1 + length v.columns + tables_bound ((j, w) ∷ l))
        (sym (insert_entry_cases k j v w l))
        (inserted_bound k j v w l (Map.insert_entry k v l) (string_ord.cmp k j)
          (tables_bound-insert_entry k v l))

  -- The tables put into a schema one by one.
  abbrev pub replace_all : List (String × ATable X) → Adb X → Adb X
  replace_all [] db = db
  replace_all ((k, table) ∷ l) db = replace_all l (replace_table table db)

  -- Every table stands under its own name, and no name twice.
  abbrev pub IsIndexed : List (String × ATable X) → Type 0
  IsIndexed [] = Unit
  IsIndexed ((k, table) ∷ l) = (table.name ≡ k) × (find_entry k l ≡ none) × IsIndexed l

  abbrev or_else : Option (ATable X) → Option (ATable X) → Option (ATable X)
  or_else none other = other
  or_else (some table) other = some table

  in_entries :
      (t : String) (db : Adb X)
      → or_else (find_entry t db.tables.entries) (get_table t new_adb) ≡ get_table t db
  unfolding get_table Map.get
  in_entries t db = elim (Option-cases (find_entry t db.tables.entries)) [
    | inl e ↦ rw (find_entry, e) refl
    | inr (table, e) ↦ rw e refl
  ]

  get_table-replace_table :
      (table : ATable X) (db : Adb X) (t : String)
      → get_table t (replace_table table db)
        ≡ (if same table.name t then some table else get_table t db)
  unfolding get_table replace_table
  get_table-replace_table table db t = get-insert table.name t table db.tables

  get_table-replace_all :
      (l : List (String × ATable X)) (db : Adb X) (t : String)
      → IsIndexed l
      → get_table t (replace_all l db) ≡ or_else (find_entry t l) (get_table t db)
  unfolding find_entry
  get_table-replace_all [] db t h = refl
  get_table-replace_all ((k, table) ∷ l) db t (named, once, h) =
      let later = get_table-replace_all l (replace_table table db) t h in
      elim (Bool-cases (same t k)) [
        | inl e ↦
            let here : t ≡ k = (same_iff t k).0 e in
            let alone : find_entry t l ≡ none = ap (λ n. find_entry n l) here ∙ once in
            let found : same table.name t ≡ true = (same_iff table.name t).1 (named ∙ sym here) in
            let put : get_table t (replace_table table db) ≡ some table =
              get_table-replace_table table db t ∙ rw found refl in
            rw e (later ∙ ap (λ o. or_else o (get_table t (replace_table table db))) alone ∙ put)
        | inr e ↦
            let kept : get_table t (replace_table table db) ≡ get_table t db =
              get_table-replace_table table db t ∙ rw (named, other_way t k e) refl in
            rw e (later ∙ ap (or_else (find_entry t l)) kept)
      ]

  pub get_table-all :
      (db : Adb X) (t : String)
      → IsIndexed db.tables.entries
      → get_table t (replace_all db.tables.entries new_adb) ≡ get_table t db
  get_table-all db t h = get_table-replace_all db.tables.entries new_adb t h ∙ in_entries t db

  pub replace_table-AllSettled :
      (table : ATable X) (db : Adb X)
      → IsSettled table
      → AllSettled db.tables.entries
      → AllSettled (replace_table table db).tables.entries
  unfolding replace_table Map.insert
  replace_table-AllSettled table db h hl =
      insert_entry-AllSettled table.name table db.tables.entries h hl

  pub tables_bound-replace_table :
      (table : ATable X) (db : Adb X)
      → tables_bound (replace_table table db).tables.entries
        ≤ 1 + length table.columns + tables_bound db.tables.entries
  unfolding replace_table Map.insert
  tables_bound-replace_table table db = tables_bound-insert_entry table.name table db.tables.entries

  pub same_types :
      (table : ATable X) (db : Adb X) → (replace_table table db).extra_types ≡ db.extra_types
  unfolding replace_table
  same_types table db = refl
