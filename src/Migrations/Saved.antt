-- ===== src/Migrations/Saved.antt =====
-- The schema that a created migration keeps is the one that it was created for.
use mathlib.Core.Path.{subst}
use butane.Prelude.{
  ℕ, ◌+◌, ◌<◌, String, true, Option, none, some, List, [], ◌∷◌, length, contains, Result, ok,
  both_ok, Bool-cases, ◌≡◌, refl, sym, ap, ◌∙◌, arith, inl, inr,
}
use butane.Prelude.Ord.{string_ord}
use butane.Map
use butane.Map.{Map, find_entry, get-insert}
use butane.Value.{Externals, Fault}
use butane.Schema.Types.{ATable, Adb, Operation}
use butane.Schema.Operations.{get_table, replace_table, new_adb}
use butane.Schema.Resolve.Rounds.{resolve_types}
use butane.Schema.Resolve.Ends.{tables_bound}
use butane.Schema.Resolve.Fixed.{AllSettled, AllTypesKnown, resolve_types-AllSettled}
use butane.Migrations.Types.{
  MemMigration, MemMigrations, new_migration, add_sql, set_migration_from, add_migration,
}
use butane.Migrations.Edit.{
  go_on-ok, settled, with_schema, add_modified_table, add_unmodified_table,
}
use butane.Migrations.Create.{
  Backend, modified_tables, name_of, with_first, save_unmodified, save_table, save_tables, texts,
  add_texts, create, create_migration_to,
}
use butane.Migrations.Replaced.{
  replace_all, IsIndexed, get_table-all, replace_table-AllSettled, tables_bound-replace_table,
  same_types,
}
use butane.Migrations.Created.{create_migration_to_inv}

module _ {X : Externals} where
  saved_db :
      (m m' : MemMigration X) (db : Adb X) (call : Option (Adb X × Result (Fault X) (Unit {0})))
      → call ≡ some (db, ok tt)
      → settled (with_schema m call) ≡ some (ok m')
      → m' ≡ record m { db = db }
  saved_db m m' db call e h =
      let done : settled (with_schema m (some (db, ok tt))) ≡ some (ok m') =
        ap (λ c. settled (with_schema m c)) (sym e) ∙ h in
      let same_out : record m { db = db } ≡ m' = cc in sym same_out

  save_unmodified-db :
      (fuel : ℕ) (from : Option (MemMigration X)) (table : ATable X) (m m' : MemMigration X)
      → resolve_types fuel (replace_table table m.db) ≡ some (replace_table table m.db, ok tt)
      → save_unmodified fuel from table m ≡ some (ok m')
      → m' ≡ record m { db = replace_table table m.db }
  unfolding add_unmodified_table add_modified_table
  save_unmodified-db fuel none table m m' fixed h = absurd (cc)
  save_unmodified-db fuel (some from) table m m' fixed h =
      saved_db m m' (replace_table table m.db) _ fixed h

  replaced_fixed :
      (fuel : ℕ) (db : Adb X)
      → AllSettled db.tables.entries
      → db.extra_types ≡ Map.empty
      → tables_bound db.tables.entries < fuel
      → resolve_types fuel db ≡ some (db, ok tt)
  replaced_fixed fuel db put types enough =
      let no_types : length db.extra_types.entries ≡ 0 = ap (λ t. length t.entries) types in
      resolve_types-AllSettled fuel db put (subst (λ t. AllTypesKnown t.entries) (sym types) tt)
        (omega arith)

  save_table-db :
      (fuel : ℕ) (from : Option (MemMigration X)) (names : List String) (table : ATable X)
      (m m' : MemMigration X)
      → resolve_types fuel (replace_table table m.db) ≡ some (replace_table table m.db, ok tt)
      → save_table fuel from names table m ≡ some (ok m')
      → m' ≡ record m { db = replace_table table m.db }
  unfolding save_table add_modified_table add_unmodified_table
  save_table-db fuel from names table m m' fixed h = elim (Bool-cases (contains table.name names)) [
    | inl e ↦
        let e' : save_table fuel from names table m ≡ settled (add_modified_table fuel table m) =
          rw (save_table, e) refl in
        saved_db m m' (replace_table table m.db) _ fixed (sym e' ∙ h)
    | inr e ↦
        let e' : save_table fuel from names table m ≡ save_unmodified fuel from table m =
          rw (save_table, e) refl in
        save_unmodified-db fuel from table m m' fixed (sym e' ∙ h)
  ]

  -- Saving settled tables puts them into the schema, given fuel for all of them.
  save_tables-db :
      (fuel : ℕ) (from : Option (MemMigration X)) (names : List String)
      (l : List (String × ATable X)) (m m' : MemMigration X)
      → AllSettled l
      → AllSettled m.db.tables.entries
      → m.db.extra_types ≡ Map.empty
      → tables_bound m.db.tables.entries + tables_bound l < fuel
      → save_tables fuel from names l m ≡ some (ok m')
      → m'.db ≡ replace_all l m.db
  unfolding save_tables
  save_tables-db fuel from names [] m m' hl hm types enough h =
      let e : m ≡ m' = cc in sym (ap (λ n. n.db) e)
  save_tables-db fuel from names ((k, table) ∷ l) m m' (settled_table, hl) hm types enough h =
      let (n, h1, h2) = go_on-ok (save_table fuel from names table m) _ h in
      let put = replace_table-AllSettled table m.db settled_table hm in
      let bound = tables_bound-replace_table table m.db in
      let no_types = same_types table m.db ∙ types in
      let fixed = replaced_fixed fuel (replace_table table m.db) put no_types (omega arith) in
      let now : n.db ≡ replace_table table m.db =
        ap (λ x. x.db) (save_table-db fuel from names table m n fixed h1) in
      let size : tables_bound n.db.tables.entries
          ≡ tables_bound (replace_table table m.db).tables.entries =
        ap (λ d. tables_bound d.tables.entries) now in
      save_tables-db fuel from names l n m' hl
        (subst (λ d. AllSettled d.tables.entries) (sym now) put)
        (ap (λ d. d.extra_types) now ∙ no_types) (omega arith) h2
      ∙ ap (replace_all l) now

  add_texts-db :
      (l : List (Backend X)) (from_db to_db : Adb X) (ops : List (Operation X))
      (m m' : MemMigration X)
      → add_texts l from_db to_db ops m ≡ ok m'
      → m'.db ≡ m.db
  unfolding add_texts add_sql
  add_texts-db [] from_db to_db ops m m' h = let e : m ≡ m' = cc in sym (ap (λ n. n.db) e)
  add_texts-db (b ∷ l) from_db to_db ops m m' h =
      let (both, h1, h2) = both_ok (texts b from_db to_db ops) _ h in
      add_texts-db l from_db to_db ops (add_sql b.name both.0 both.1 m) m' h2

  create-db :
      (fuel : ℕ) (backends : List (Backend X)) (name : String) (from : Option (MemMigration X))
      (from_db to_db : Adb X) (ops : List (Operation X)) (m : MemMigration X)
      → AllSettled to_db.tables.entries
      → tables_bound to_db.tables.entries < fuel
      → create fuel backends name from from_db to_db ops ≡ some (ok m)
      → m.db ≡ replace_all to_db.tables.entries new_adb
  unfolding create set_migration_from
  create-db fuel backends name from from_db to_db ops m hl enough h =
      let names = modified_tables ops in
      let (saved, h1, h2) =
        go_on-ok (save_tables fuel from names to_db.tables.entries (new_migration name)) _ h in
      let (written, h3, h4) =
        go_on-ok (some (add_texts backends from_db to_db (with_first from ops) saved)) _ h2 in
      let wrote : add_texts backends from_db to_db (with_first from ops) saved ≡ ok written = cc in
      let linked : set_migration_from (name_of from) written ≡ m = cc in
      sym (ap (λ n. n.db) linked)
      ∙ add_texts-db backends from_db to_db (with_first from ops) saved written wrote
      ∙ save_tables-db fuel from names to_db.tables.entries (new_migration name) saved hl tt refl
          (omega arith) h1

  -- A migration that is created keeps the schema that it was created for: under every name there is the
  -- same table, if the new schema has everything known and a key in every table but those of links, and
  -- each table once, under its own name, and the fuel is above the number of its tables and columns.
  pub create_migration_to_saves :
      (fuel : ℕ) (backends : List (Backend X)) (name : String) (from : Option (MemMigration X))
      (to_db : Adb X) (ms ms' : MemMigrations X)
      → AllSettled to_db.tables.entries
      → IsIndexed to_db.tables.entries
      → tables_bound to_db.tables.entries < fuel
      → create_migration_to fuel backends name from to_db ms ≡ some (ok (ms', true))
      → (m : MemMigration X) × (ms' ≡ add_migration m ms)
        × ((t : String) → get_table t m.db ≡ get_table t to_db)
  create_migration_to_saves fuel backends name from to_db ms ms' settled_tables indexed enough h =
      let (from_db, ops, e1, e2, how) =
        create_migration_to_inv fuel backends name from to_db ms ms' true h in
      elim how [
        | inl (nothing, not_made, as_before) ↦ absurd (cc)
        | inr (m, created, is_made, added, _) ↦
            let kept =
              create-db fuel backends name from from_db to_db ops m settled_tables enough created in
            (m, added, λ t. ap (get_table t) kept ∙ get_table-all to_db t indexed)
      ]
