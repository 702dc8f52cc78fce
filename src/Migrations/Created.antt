-- ===== src/Migrations/Created.antt =====
-- What `create_migration_to` leaves.
use butane.Prelude.{
  ℕ, String, Bool, true, false, Option, none, some, List, [], ◌∷◌, contains, ok, err, both_ok,
  Bool-cases, inl, inr, ◌⊎◌, ◌≡◌, refl, sym, ap, ◌∙◌, ◌≢◌,
}
use butane.Prelude.Ord.{string_ord}
use butane.Value.{Externals, Loop}
use butane.Schema.Types.{ATable, Adb, Operation}
use butane.Schema.Operations.{replace_table}
use butane.Schema.Resolve.Rounds.{resolve_types}
use butane.Schema.Diff.{diff}
use butane.Migrations.Types.{
  MemMigration, MemMigrations, new_migration, get_migration, add_sql, set_migration_from, latest,
  add_migration, get_named,
}
use butane.Migrations.Chain.{IsWalk, IsChain, latest-newest, add_migration-IsChain}
use butane.Migrations.Edit.{
  Edit, go_on-ok, settled, with_schema, add_modified_table, add_unmodified_table,
}
use butane.Migrations.Create.{
  Backend, modified_tables, or_panic, from_schema, name_of, with_first, save_unmodified, save_table,
  save_tables, texts, add_texts, create, add_made, create_migration_to,
}

module _ {X : Externals} where
  -- How `create_migration_to` ends well.
  abbrev pub Outcome :
      ℕ
      → List (Backend X)
      → String
      → Option (MemMigration X)
      → Adb X
      → MemMigrations X
      → MemMigrations X
      → Bool
      → Adb X
      → List (Operation X)
      → Type 0
  Outcome fuel backends name from to_db ms ms' made from_db ops =
      ((ops ≡ []) × (made ≡ false) × (ms' ≡ ms))
      ⊎ ((m : MemMigration X) × (create fuel backends name from from_db to_db ops ≡ some (ok m))
          × (made ≡ true)
          × (ms' ≡ add_migration m ms)
          × (ops ≢ []))

  pub or_panic-ok {ℓ} : {A : Type ℓ} (o : Option A) (a : A) → or_panic {X = X} o ≡ ok a → o ≡ some a
  or_panic-ok none a h = absurd (cc)
  or_panic-ok (some b) a h = cc

  made_by :
      (ops : List (Operation X)) (call : Loop X (MemMigration X)) (ms ms' : MemMigrations X)
      (made : Bool)
      → add_made ops call ms ≡ some (ok (ms', made))
      → ((ops ≡ []) × (made ≡ false) × (ms' ≡ ms))
        ⊎ ((m : MemMigration X) × (call ≡ some (ok m))
            × (made ≡ true)
            × (ms' ≡ add_migration m ms)
            × (ops ≢ []))
  made_by [] call ms ms' made h =
      let e : ◌≡◌ {A = MemMigrations X × Bool} (ms, false) (ms', made) = cc in
      inl (refl, sym (ap (λ p. p.1) e), sym (ap (λ p. p.0) e))
  made_by (o ∷ ops) call ms ms' made h =
      let (m, h1, h2) = go_on-ok call _ h in
      let e : ◌≡◌ {A = MemMigrations X × Bool} (add_migration m ms, true) (ms', made) = cc in
      inr (m, h1, sym (ap (λ p. p.1) e), sym (ap (λ p. p.0) e), λ nothing. absurd (cc))

  pub create_migration_to_inv :
      (fuel : ℕ) (backends : List (Backend X)) (name : String) (from : Option (MemMigration X))
      (to_db : Adb X) (ms ms' : MemMigrations X) (made : Bool)
      → create_migration_to fuel backends name from to_db ms ≡ some (ok (ms', made))
      → (from_db : Adb X) × (ops : List (Operation X)) × (from_schema fuel from ≡ some (ok from_db))
        × (diff from_db to_db ≡ some ops)
        × Outcome fuel backends name from to_db ms ms' made from_db ops
  unfolding create_migration_to
  create_migration_to_inv fuel backends name from to_db ms ms' made h =
      let (from_db, e1, h1) = go_on-ok (from_schema fuel from) _ h in
      let (ops, e2, h2) = go_on-ok (some (or_panic (diff from_db to_db))) _ h1 in
      let same_ops : or_panic (diff from_db to_db) ≡ ok ops = cc in
      (
        from_db,
        ops,
        e1,
        or_panic-ok (diff from_db to_db) ops same_ops,
        made_by ops (create fuel backends name from from_db to_db ops) ms ms' made h2,
      )

  settled_name :
      (m m' : MemMigration X) (call : Edit X (Adb X))
      → settled (with_schema m call) ≡ some (ok m')
      → m'.name ≡ m.name
  settled_name m m' none h = absurd (cc)
  settled_name m m' (some (db, err e)) h = absurd (cc)
  settled_name m m' (some (db, ok done)) h =
      let e : record m { db = db } ≡ m' = cc in sym (ap (λ n. n.name) e)

  save_unmodified-name :
      (fuel : ℕ) (from : Option (MemMigration X)) (table : ATable X) (m m' : MemMigration X)
      → save_unmodified fuel from table m ≡ some (ok m')
      → m'.name ≡ m.name
  unfolding add_unmodified_table add_modified_table
  save_unmodified-name fuel none table m m' h = absurd (cc)
  save_unmodified-name fuel (some from) table m m' h =
      settled_name m m' (resolve_types fuel (replace_table table m.db)) h

  save_table-name :
      (fuel : ℕ) (from : Option (MemMigration X)) (names : List String) (table : ATable X)
      (m m' : MemMigration X)
      → save_table fuel from names table m ≡ some (ok m')
      → m'.name ≡ m.name
  unfolding save_table add_modified_table add_unmodified_table
  save_table-name fuel from names table m m' h = elim (Bool-cases (contains table.name names)) [
    | inl e ↦
        let e' : save_table fuel from names table m ≡ settled (add_modified_table fuel table m) =
          rw (save_table, e) refl in
        settled_name m m' (resolve_types fuel (replace_table table m.db)) (sym e' ∙ h)
    | inr e ↦
        let e' : save_table fuel from names table m ≡ save_unmodified fuel from table m =
          rw (save_table, e) refl in
        save_unmodified-name fuel from table m m' (sym e' ∙ h)
  ]

  save_tables-name :
      (fuel : ℕ) (from : Option (MemMigration X)) (names : List String)
      (l : List (String × ATable X)) (m m' : MemMigration X)
      → save_tables fuel from names l m ≡ some (ok m')
      → m'.name ≡ m.name
  unfolding save_tables
  save_tables-name fuel from names [] m m' h = let e : m ≡ m' = cc in sym (ap (λ n. n.name) e)
  save_tables-name fuel from names ((k, table) ∷ l) m m' h =
      let (n, h1, h2) = go_on-ok (save_table fuel from names table m) _ h in
      save_tables-name fuel from names l n m' h2 ∙ save_table-name fuel from names table m n h1

  add_texts-name :
      (l : List (Backend X)) (from_db to_db : Adb X) (ops : List (Operation X))
      (m m' : MemMigration X)
      → add_texts l from_db to_db ops m ≡ ok m'
      → m'.name ≡ m.name
  unfolding add_texts add_sql
  add_texts-name [] from_db to_db ops m m' h = let e : m ≡ m' = cc in sym (ap (λ n. n.name) e)
  add_texts-name (b ∷ l) from_db to_db ops m m' h =
      let (both, h1, h2) = both_ok (texts b from_db to_db ops) _ h in
      add_texts-name l from_db to_db ops (add_sql b.name both.0 both.1 m) m' h2

  -- The parts of a migration that has been made.
  pub create_inv :
      (fuel : ℕ) (backends : List (Backend X)) (name : String) (from : Option (MemMigration X))
      (from_db to_db : Adb X) (ops : List (Operation X)) (m : MemMigration X)
      → create fuel backends name from from_db to_db ops ≡ some (ok m)
      → (saved : MemMigration X) × (written : MemMigration X) × (saved.name ≡ name)
        × (add_texts backends from_db to_db (with_first from ops) saved ≡ ok written)
        × (m ≡ set_migration_from (name_of from) written)
  unfolding create
  create_inv fuel backends name from from_db to_db ops m h =
      let (saved, h1, h2) =
        go_on-ok
          (save_tables fuel from (modified_tables ops) to_db.tables.entries (new_migration name)) _
          h in
      let (written, h3, h4) =
        go_on-ok (some (add_texts backends from_db to_db (with_first from ops) saved)) _ h2 in
      (
        saved,
        written,
        save_tables-name fuel from (modified_tables ops) to_db.tables.entries (new_migration name)
            saved h1,
        cc,
        cc,
      )

  set_keeps_name :
      (prev : Option String) (m : MemMigration X) → (set_migration_from prev m).name ≡ m.name
  unfolding set_migration_from
  set_keeps_name prev m = refl

  set_from : (prev : Option String) (m : MemMigration X) → (set_migration_from prev m).from ≡ prev
  unfolding set_migration_from
  set_from prev m = refl

  name_of-get_named :
      (ms : MemMigrations X) (c : Option String) (l : List (MemMigration X))
      → IsWalk ms c l
      → name_of (get_named ms c) ≡ c
  unfolding IsWalk get_named
  name_of-get_named ms none l h = refl
  name_of-get_named ms (some n) [] h = elim h [ ]
  name_of-get_named ms (some n) (m ∷ l) (here, named, rest) = ap name_of here ∙ ap some named

  -- The latest of a chain stands under its own name.
  latest_name :
      (ms : MemMigrations X) (l : List (MemMigration X))
      → IsChain ms l
      → name_of (latest ms) ≡ ms.latest
  unfolding latest
  latest_name ms l h = name_of-get_named ms ms.latest l h

  put_before :
      (m : MemMigration X) (ms : MemMigrations X) (l : List (MemMigration X))
      → IsChain ms l
      → get_migration ms m.name ≡ none
      → m.from ≡ ms.latest
      → IsChain (add_migration m ms) (m ∷ l)
  put_before m ms l chain fresh m_from =
      elim (add_migration-IsChain m ms l chain fresh (λ none_yet. m_from ∙ none_yet)) [
        | inl (_, grown) ↦ grown
        | inr (apart, _) ↦ absurd (apart (m_from ∙ latest-newest ms ms.latest l chain))
      ]

  -- A migration that is created from the latest, under a new name, is put before the chain where
  -- `diff` gives any operation between the schema of the latest and the new one, and that is told;
  -- where it gives none, the migrations stay as they were, and that is told.
  pub create_migration_to-IsChain :
      (fuel : ℕ) (backends : List (Backend X)) (name : String) (to_db : Adb X)
      (ms ms' : MemMigrations X) (made : Bool) (l : List (MemMigration X))
      → IsChain ms l
      → get_migration ms name ≡ none
      → create_migration_to fuel backends name (latest ms) to_db ms ≡ some (ok (ms', made))
      → (from_db : Adb X) × (ops : List (Operation X)) × (from_schema fuel (latest ms)
          ≡ some (ok from_db))
        × (diff from_db to_db ≡ some ops)
        × (((ops ≡ []) × (made ≡ false) × (ms' ≡ ms) × IsChain ms' l)
            ⊎ ((m : MemMigration X) × (ops ≢ [])
                × (made ≡ true)
                × (m.name ≡ name)
                × IsChain ms' (m ∷ l)))
  create_migration_to-IsChain fuel backends name to_db ms ms' made l chain fresh h =
      let (from_db, ops, e1, e2, how) =
        create_migration_to_inv fuel backends name (latest ms) to_db ms ms' made h in
      (
        from_db,
        ops,
        e1,
        e2,
        elim how [
          | inl (nothing, not_made, as_before) ↦
              inl (nothing, not_made, as_before, rw as_before chain)
          | inr (m, created, is_made, added, differ) ↦
              let (saved, written, named, wrote, e) =
                create_inv fuel backends name (latest ms) from_db to_db ops m created in
              let m_name : m.name ≡ name =
                ap (λ n. n.name) e
                ∙ set_keeps_name (name_of (latest ms)) written
                ∙ add_texts-name backends from_db to_db (with_first (latest ms) ops) saved written
                    wrote
                ∙ named in
              let m_from : m.from ≡ ms.latest =
                ap (λ n. n.from) e
                ∙ set_from (name_of (latest ms)) written
                ∙ latest_name ms l chain in
              inr (
                m,
                differ,
                is_made,
                m_name,
                rw added (put_before m ms l chain (ap (get_migration ms) m_name ∙ fresh) m_from),
              )
        ],
      )
