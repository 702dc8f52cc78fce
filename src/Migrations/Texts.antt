-- ===== src/Migrations/Texts.antt =====
-- The texts of a migration that `create_migration_to` makes.
use mathlib.Core.List.{Memᴰ}
use mathlib.Core.Path.{subst}
use butane.Prelude.{
  ℕ, String, true, false, Option, none, some, List, [], ◌∷◌, ◌++◌, ok, both_ok, Bool-cases, inl,
  inr, ◌≡◌, refl, sym, ap, ◌∙◌, arith,
}
use butane.Prelude.Ord.{same, same_iff, string_ord}
use butane.Map.{get-insert}
use butane.Value.{Externals}
use butane.Schema.Types.{Adb, Operation}
use butane.Schema.Diff.{diff}
use butane.Migrations.Types.{
  MemMigration, MemMigrations, up_sql, down_sql, add_sql, set_migration_from, add_migration,
  migrations_table,
}
use butane.Migrations.Create.{
  Backend, from_schema, name_of, or_panic, with_first, texts, add_texts, create_migration_to,
}
use butane.Migrations.Created.{create_migration_to_inv, create_inv, or_panic-ok}

module _ {X : Externals} where
  -- The migration has the two texts for the backend.
  abbrev pub HasTexts : String → String × String → MemMigration X → Type 0
  HasTexts backend both m = (up_sql backend m ≡ some both.0) × (down_sql backend m ≡ some both.1)

  add_sql-HasTexts :
      (backend : String) (both : String × String) (m : MemMigration X)
      → HasTexts backend both (add_sql backend both.0 both.1 m)
  unfolding up_sql down_sql add_sql
  add_sql-HasTexts backend both m = (
    ground (arith, get-insert backend backend both.0 m.up, same_iff backend backend),
    ground (arith, get-insert backend backend both.1 m.down, same_iff backend backend),
  )

  add_sql_other-HasTexts :
      (backend n : String) (both other : String × String) (m : MemMigration X)
      → same n backend ≡ false
      → HasTexts backend both m
      → HasTexts backend both (add_sql n other.0 other.1 m)
  unfolding up_sql down_sql add_sql
  add_sql_other-HasTexts backend n both other m apart h = (
    ground (arith, get-insert n backend other.0 m.up),
    ground (arith, get-insert n backend other.1 m.down),
  )

  module _ (from_db to_db : Adb X) (ops : List (Operation X)) where
    -- Backends of one name give the same texts.
    abbrev pub Agree : List (Backend X) → Type 0
    Agree l =
        (b c : Backend X)
        → Memᴰ b l
        → Memᴰ c l
        → b.name ≡ c.name
        → texts b from_db to_db ops ≡ texts c from_db to_db ops

    add_texts_keeps :
        (l : List (Backend X)) (n : String) (both : String × String) (m m' : MemMigration X)
        → ((c : Backend X) → Memᴰ c l → c.name ≡ n → texts c from_db to_db ops ≡ ok both)
        → HasTexts n both m
        → add_texts l from_db to_db ops m ≡ ok m'
        → HasTexts n both m'
    unfolding add_texts
    add_texts_keeps [] n both m m' agree has h = let e : m ≡ m' = cc in rw (← e) has
    add_texts_keeps (c ∷ l) n both m m' agree has h =
        let (these, h1, h2) = both_ok (texts c from_db to_db ops) _ h in
        add_texts_keeps l n both (add_sql c.name these.0 these.1 m) m'
          (λ d in_l. agree d (Memᴰ.tail in_l))
          (elim (Bool-cases (same c.name n)) [
            | inl e ↦
                let named : c.name ≡ n = (same_iff c.name n).0 e in
                let one : texts c from_db to_db ops ≡ ok both = agree c (Memᴰ.head refl) named in
                let both_one : these ≡ both = cc in
                rw (← both_one, ← named) (add_sql-HasTexts c.name these m)
            | inr e ↦ add_sql_other-HasTexts n c.name both these m e has
          ])
          h2

    add_texts-HasTexts :
        (l : List (Backend X)) (b : Backend X) (m m' : MemMigration X)
        → Agree l
        → Memᴰ b l
        → add_texts l from_db to_db ops m ≡ ok m'
        → (both : String × String) × (texts b from_db to_db ops ≡ ok both) × HasTexts b.name both m'
    unfolding add_texts
    add_texts-HasTexts [] b m m' agree mem h = elim mem [ ]
    add_texts-HasTexts (c ∷ l) b m m' agree mem h =
        let (these, h1, h2) = both_ok (texts c from_db to_db ops) _ h in
        elim mem [
          | Memᴰ.head e ↦ (
            these,
            ap (λ d. texts d from_db to_db ops) e ∙ h1,
            rw e (
                add_texts_keeps l c.name these (add_sql c.name these.0 these.1 m) m'
                  (λ d in_l named. agree d c (Memᴰ.tail in_l) (Memᴰ.head refl) named ∙ h1)
                  (add_sql-HasTexts c.name these m) h2),
          )
          | Memᴰ.tail later ↦
              add_texts-HasTexts l b (add_sql c.name these.0 these.1 m) m'
                (λ x y in_x in_y. agree x y (Memᴰ.tail in_x) (Memᴰ.tail in_y)) later h2
        ]

  set_from-HasTexts :
      (backend : String) (both : String × String) (prev : Option String) (m : MemMigration X)
      → HasTexts backend both m
      → HasTexts backend both (set_migration_from prev m)
  unfolding up_sql down_sql set_migration_from
  set_from-HasTexts backend both prev m h = h

  -- Backends of one name are the same.
  abbrev pub OneByName : List (Backend X) → Type 0
  OneByName l = (b c : Backend X) → Memᴰ b l → Memᴰ c l → b.name ≡ c.name → b ≡ c

  texts-parts :
      (b : Backend X) (from_db to_db : Adb X) (ops : List (Operation X)) (both : String × String)
      → texts b from_db to_db ops ≡ ok both
      → (back : List (Operation X)) × (diff to_db from_db ≡ some back)
        × (b.create_migration_sql from_db ops ≡ ok both.0)
        × (b.create_migration_sql to_db back ≡ ok both.1)
  unfolding texts
  texts-parts b from_db to_db ops both h =
      let (up_text, e1, h1) = both_ok (b.create_migration_sql from_db ops) _ h in
      let (back, e2, h2) = both_ok (or_panic {X = X} (diff to_db from_db)) _ h1 in
      let (down_text, e3, h3) = both_ok (b.create_migration_sql to_db back) _ h2 in
      let q : ◌≡◌ {A = String × String} (up_text, down_text) both = cc in
      (
        back,
        or_panic-ok (diff to_db from_db) back e2,
        e1 ∙ ap (λ p. ok (p.0)) q,
        e3 ∙ ap (λ p. ok (p.1)) q,
      )

  -- The operations of a migration: the first of all also makes the table of applied migrations.
  with_first-written :
      (from : Option (MemMigration X)) (ops : List (Operation X))
      → with_first from ops ≡ elim from [
        | none ↦ ops ++ (Operation.add_table_if_not_exists migrations_table ∷ [])
        | some _ ↦ ops
      ]
  with_first-written none ops = refl
  with_first-written (some _) ops = refl

  -- A migration that is created where schemas differ is added to the others, and has two texts for
  -- every backend: up, what the backend writes on the old schema for the difference of the old to the
  -- new, to which the first of all migrations adds the table of applied migrations; down, what it
  -- writes on the new schema for the difference of the new to the old. No two backends have one name.
  pub create_migration_to-HasTexts :
      (fuel : ℕ) (backends : List (Backend X)) (name : String) (from : Option (MemMigration X))
      (from_db to_db : Adb X) (ops : List (Operation X)) (ms ms' : MemMigrations X) (b : Backend X)
      → from_schema fuel from ≡ some (ok from_db)
      → diff from_db to_db ≡ some ops
      → OneByName backends
      → create_migration_to fuel backends name from to_db ms ≡ some (ok (ms', true))
      → Memᴰ b backends
      → (m : MemMigration X) × (up_text down_text : String) × (back : List (Operation X)) × (ms'
          ≡ add_migration m ms)
        × (diff to_db from_db ≡ some back)
        × (b.create_migration_sql from_db (elim from [
          | none ↦ ops ++ (Operation.add_table_if_not_exists migrations_table ∷ [])
          | some _ ↦ ops
        ])
            ≡ ok up_text)
        × (b.create_migration_sql to_db back ≡ ok down_text)
        × (up_sql b.name m ≡ some up_text)
        × (down_sql b.name m ≡ some down_text)
  create_migration_to-HasTexts fuel backends name from from_db to_db ops ms ms' b e1 e2 one h mem =
      let (from_db', ops', e3, e4, how) =
        create_migration_to_inv fuel backends name from to_db ms ms' true h in
      let old : from_db ≡ from_db' = cc in
      let differ : ops ≡ ops' = cc in
      elim how [
        | inl (nothing, not_made, as_before) ↦ absurd (cc)
        | inr (m, created, is_made, added, _) ↦
            let (saved, written, named, wrote, e) =
              create_inv fuel backends name from from_db' to_db ops' m created in
            let wrote' : add_texts backends from_db to_db (with_first from ops) saved ≡ ok written =
              ap (λ d. add_texts backends d to_db (with_first from ops) saved) old
              ∙ ap (λ l. add_texts backends from_db' to_db (with_first from l) saved) differ
              ∙ wrote in
            let (both, gave, has) =
              add_texts-HasTexts from_db to_db (with_first from ops) backends b saved written
                (λ c d in_c in_d same_name.
                  ap (λ k. texts k from_db to_db (with_first from ops))
                    (one c d in_c in_d same_name))
                mem wrote' in
            let (back, reverted, up_written, down_written) =
              texts-parts b from_db to_db (with_first from ops) both gave in
            let (has_up, has_down) =
              subst (HasTexts b.name both) (sym e)
                (set_from-HasTexts b.name both (name_of from) written has) in
            (
              m,
              both.0,
              both.1,
              back,
              added,
              reverted,
              ap (b.create_migration_sql from_db) (sym (with_first-written from ops)) ∙ up_written,
              down_written,
              has_up,
              has_down,
            )
      ]
