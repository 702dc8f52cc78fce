-- ===== src/Migrations/Applied.antt =====
-- What `migrate` leaves to be done, on a database that records what it is told to.
use mathlib.Core.List.{reverse, reverse-cons}
use mathlib.Core.Path.{subst}
use butane.Prelude.{
  ℕ, ◌≤◌, String, Bool, true, ◌||◌, Option, none, some, List, [], ◌∷◌, ◌++◌, length, any, contains,
  Result, ok, err, both_ok, ◌==◌, eq_refl, ◌≡◌, refl, sym, arith, inl, inr, Bool-cases, ◌∙◌, ap,
}
use butane.Value.{Externals, SqlVal, Fault}
use butane.Migrations.Types.{MemMigration, MemMigrations, get_migration, up_sql}
use butane.Database.{Database}
use butane.Migrations.Database.{migrations_table_name, migrations_columns}
use butane.Migrations.Series.{unapplied_migrations}
use butane.Migrations.Run.{Run, and_then, text_or_unknown, mark_applied, apply, apply_all, migrate}
use butane.Migrations.Chain.{IsWalk, IsChain}
use butane.Migrations.Listing.{up_to}
use butane.Migrations.Pending.{is_applied, recorded, unapplied_migrations-IsChain}
use butane.Migrations.Runs.{migrate-apply_all}

pub any-append {ℓ} :
    {A : Type ℓ} (p : A → Bool) (a b : List A) → any p (a ++ b) ≡ (any p a || any p b)
unfolding any
any-append p [] b = refl
any-append p (x ∷ a) b = ground (arith, any-append p a b)

module _ {X : Externals} where
  -- The database's part: a transaction begins and ends with the table of applied migrations as it
  -- stands, and a name that is inserted into the table is read back beside the others.
  pub record Lawful (D : Database X) : Type 0 where
    pub transaction_keeps :
        (s s' : D.State) → D.transaction s ≡ ok s' → recorded D s' ≡ recorded D s
    pub commit_keeps : (s s' : D.State) → D.commit s ≡ ok s' → recorded D s' ≡ recorded D s
    pub insert_records :
        (n : String) (names : List String) (s s' : D.State)
        → recorded D s ≡ ok names
        → D.insert_only migrations_table_name migrations_columns (SqlVal.text n ∷ []) s ≡ ok s'
        → (names' : List String) × (recorded D s' ≡ ok names')
          × ((k : String) → contains k names' ≡ ((n == k) || contains k names))

  -- The migration's own statements leave the names of the applied migrations alone.
  unfoldable pub KeepsRecords : Database X → MemMigration X → Type 0
  KeepsRecords D m =
      (sql : String) (s s' : D.State)
      → up_sql D.backend_name m ≡ some sql
      → D.execute sql s ≡ ok s'
      → recorded D s' ≡ recorded D s

  -- Every migration of the list is in the series, under its name.
  unfoldable pub AllStored : MemMigrations X → List (MemMigration X) → Type 0
  AllStored ms [] = Unit
  AllStored ms (m ∷ l) = (get_migration ms m.name ≡ some m) × AllStored ms l

  AllStored-append :
      (ms : MemMigrations X) (a b : List (MemMigration X))
      → AllStored ms a
      → AllStored ms b
      → AllStored ms (a ++ b)
  unfolding AllStored
  AllStored-append ms [] b h k = k
  AllStored-append ms (m ∷ a) b (here, h) k = (here, AllStored-append ms a b h k)

  pub AllStored-reverse :
      (ms : MemMigrations X) (l : List (MemMigration X)) → AllStored ms l → AllStored ms (reverse l)
  unfolding AllStored
  AllStored-reverse ms [] h = h
  AllStored-reverse ms (m ∷ l) (here, h) =
      rw reverse-cons
        (AllStored-append ms (reverse l) (m ∷ []) (AllStored-reverse ms l h) (here, tt))

  pub up_to-AllStored :
      (ms : MemMigrations X) (p : MemMigration X → Bool) (c : Option String)
      (l : List (MemMigration X))
      → IsWalk ms c l
      → AllStored ms (up_to p l)
  unfolding AllStored IsWalk up_to
  up_to-AllStored ms p c [] h = tt
  up_to-AllStored ms p none (m ∷ l) h = elim h [ ]
  up_to-AllStored ms p (some n) (m ∷ l) (here, named, rest) = elim (Bool-cases (p m)) [
    | inl e ↦ rw e tt
    | inr e ↦ rw e (
      subst (λ k. get_migration ms k ≡ some m) (sym named) here,
      up_to-AllStored ms p m.from l rest,
    )
  ]

  -- Once the names of the missing migrations are recorded, none is missing.
  up_to-nothing :
      (names names' : List String) (l : List (MemMigration X))
      → ((k : String)
          → contains k names'
            ≡ (any (λ m. m.name == k) (reverse (up_to (is_applied names) l)) || contains k names))
      → up_to (is_applied names') l ≡ []
  unfolding up_to any
  up_to-nothing names names' [] reads = refl
  up_to-nothing names names' (m ∷ l) reads =
      let found : is_applied names' m ≡ true =
        reads m.name ∙ elim (Bool-cases (is_applied names m)) [
          | inl e ↦ rw e (ground arith)
          | inr e ↦
              rw
                (
                  e,
                  reverse-cons,
                  any-append (λ (k : MemMigration X). k.name == m.name),
                  eq_refl m.name,
                )
                (ground arith)
        ] in
      rw found refl

  module _ (D : Database X) (lawful : Lawful D) where
    text_or_unknown-known :
        (text : Option String) (sql : String) → text_or_unknown D text ≡ ok sql → text ≡ some sql
    text_or_unknown-known none sql h = cc
    text_or_unknown-known (some t) sql h = cc

    and_then-done :
        (r : Result (Fault X) D.State) (s : D.State) (f : D.State → Run D) (s' : D.State)
        → and_then D r s f ≡ (s', ok tt)
        → (s1 : D.State) × (r ≡ ok s1) × (f s1 ≡ (s', ok tt))
    and_then-done (ok s1) s f s' h = (s1, refl, h)
    and_then-done (err e) s f s' h = let q : err e ≡ ok tt = ap (λ r. r.1) h in absurd cc

    -- A migration that has been applied is recorded beside those that were.
    apply-recorded :
        (m : MemMigration X) (names : List String) (s s' : D.State)
        → KeepsRecords D m
        → recorded D s ≡ ok names
        → apply D m s ≡ ok s'
        → (names' : List String) × (recorded D s' ≡ ok names')
          × ((k : String) → contains k names' ≡ ((m.name == k) || contains k names))
    unfolding apply mark_applied KeepsRecords
    apply-recorded m names s s' keeps known h =
        let (begun, e1, h1) = both_ok (D.transaction s) _ h in
        let (sql, e2, h2) = both_ok (text_or_unknown D (up_sql D.backend_name m)) _ h1 in
        let (changed, e3, h3) = both_ok (D.execute sql begun) _ h2 in
        let (marked, e4, h4) = both_ok (mark_applied D m changed) _ h3 in
        let still : recorded D changed ≡ ok names =
          keeps sql begun changed (text_or_unknown-known (up_sql D.backend_name m) sql e2) e3
          ∙ lawful.transaction_keeps s begun e1
          ∙ known in
        let (names', now, reads) = lawful.insert_records m.name names changed marked still e4 in
        (names', lawful.commit_keeps marked s' h4 ∙ now, reads)

    apply_all-recorded :
        (ms : MemMigrations X) (l : List (MemMigration X)) (names : List String) (s s' : D.State)
        → ((m : MemMigration X) → get_migration ms m.name ≡ some m → KeepsRecords D m)
        → AllStored ms l
        → recorded D s ≡ ok names
        → apply_all D l s ≡ (s', ok tt)
        → (names' : List String) × (recorded D s' ≡ ok names')
          × ((k : String) → contains k names' ≡ (any (λ m. m.name == k) l || contains k names))
    unfolding apply_all AllStored any
    apply_all-recorded ms [] names s s' keeps stored known h =
        (names, rw (← ap (λ r. r.0) h) known, λ k. refl)
    apply_all-recorded ms (m ∷ l) names s s' keeps (here, stored) known h =
        let (s1, done, h1) = and_then-done (apply D m s) s (apply_all D l) s' h in
        let (names1, known1, reads1) = apply-recorded m names s s1 (keeps m here) known done in
        let (names2, known2, reads2) =
          apply_all-recorded ms l names1 s1 s' keeps stored known1 h1 in
        (names2, known2, λ k. let a = reads1 k in let b = reads2 k in ground (arith, a, b))

    -- After a `migrate` that succeeds, with fuel for the length of the chain, nothing of the chain is
    -- left to be applied, if the database is lawful and no migration's statements touch the names of
    -- the applied migrations.
    pub migrate_applies :
        (ms : MemMigrations X) (fuel : ℕ) (l : List (MemMigration X)) (s s' : D.State)
        (names : List String)
        → IsChain ms l
        → length l ≤ fuel
        → ((m : MemMigration X) → get_migration ms m.name ≡ some m → KeepsRecords D m)
        → recorded D s ≡ ok names
        → migrate D fuel ms s ≡ some (s', ok tt)
        → unapplied_migrations D fuel ms s' ≡ some (ok [])
    migrate_applies ms fuel l s s' names h enough keeps known done =
        let ran : apply_all D (reverse (up_to (is_applied names) l)) s ≡ (s', ok tt) =
          let p = migrate-apply_all D ms fuel l s names h enough known in cc in
        let stored = AllStored-reverse ms _ (up_to-AllStored ms (is_applied names) ms.latest l h) in
        let (names', known', reads) =
          apply_all-recorded ms (reverse (up_to (is_applied names) l)) names s s' keeps stored known
            ran in
        unapplied_migrations-IsChain D ms fuel l s' names' h enough known'
        ∙ rw (up_to-nothing names names' l reads) refl
