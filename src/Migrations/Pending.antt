-- ===== src/Migrations/Pending.antt =====
-- Which migrations the database lacks, against the chain as a list, newest first.
use mathlib.Core.List.{reverse}
use butane.Prelude.{
  ℕ, ◌≤◌, String, Bool, true, false, none, some, List, [], ◌∷◌, length, any, find, contains, Result,
  ok, Result-cases, ◌>>=◌, ◌≡◌, ◌⊎◌, refl, arith, inl, inr, Bool-cases, Option-cases, if◌then◌else◌,
  ◌∙◌, ap,
}
use butane.Prelude.Ord.{same, same_iff, string_ord}
use butane.Value.{Externals, Fault}
use butane.Migrations.Types.{MemMigration, MemMigrations, migration_eq, latest}
use butane.Database.{Database}
use butane.Migrations.Database.{migrations_table_name, applied_names}
use butane.Migrations.Series.{last_applied_migration, unapplied_migrations}
use butane.Migrations.Chain.{IsChain}
use butane.Migrations.Listing.{
  before, up_to, since_result, all_migrations-IsChain, migrations_since-IsChain, last_loop-IsWalk,
}

module _ {X : Externals} where
  -- The test of a migration that is recorded under these names.
  abbrev pub is_applied : List String → MemMigration X → Bool
  is_applied names m = contains m.name names

  find-is_applied :
      (names : List String) (l : List (MemMigration X)) (m : MemMigration X)
      → find (is_applied names) l ≡ some m
      → is_applied names m ≡ true
  unfolding find
  find-is_applied names [] m h = cc
  find-is_applied names (k ∷ l) m h = elim (Bool-cases (is_applied names k)) [
    | inl e ↦ ground (arith, h, e)
    | inr e ↦ find-is_applied names l m (ground (arith, h, e))
  ]

  up_to-none :
      (names : List String) (l : List (MemMigration X))
      → find (is_applied names) l ≡ none
      → up_to (is_applied names) l ≡ l
  unfolding find up_to
  up_to-none names [] h = refl
  up_to-none names (k ∷ l) h = ground (arith, up_to-none names l)

  before-found :
      (names : List String) (l : List (MemMigration X)) (m : MemMigration X)
      → find (is_applied names) l ≡ some m
      → before (λ k. migration_eq k m) l ≡ some (up_to (is_applied names) l)
  unfolding find up_to before migration_eq
  before-found names [] m h = cc
  before-found names (k ∷ l) m h = elim (Bool-cases (is_applied names k)) [
    | inl e ↦ ground (arith, h, e, same_iff k.name m.name)
    | inr e ↦
        let later : find (is_applied names) l ≡ some m = ground (arith, h, e) in
        let found = find-is_applied names l m later in
        let recur = before-found names l m later in
        elim (Bool-cases (same k.name m.name)) [
          | inl q ↦ absurd (let n = (same_iff k.name m.name).0 q in cc)
          | inr q ↦ rw (e, q, recur) refl
        ]
  ]

  -- What is applied: the names in the table, or none if there is no table.
  module _ (D : Database X) where
    unfoldable pub recorded : D.State → Result (Fault X) (List String)
    recorded s = do
      here ← D.has_table migrations_table_name s
      if here then applied_names D s else ok []

    -- What the table of applied migrations says, where it can be read.
    pub recorded-cases :
        (s : D.State) (names : List String)
        → recorded s ≡ ok names
        → ((D.has_table migrations_table_name s ≡ ok false) × (names ≡ []))
          ⊎ ((D.has_table migrations_table_name s ≡ ok true) × (applied_names D s ≡ ok names))
    unfolding recorded
    recorded-cases s names h = elim (Result-cases (D.has_table migrations_table_name s)) [
      | inl (e, failed) ↦ absurd (ground (arith, h, failed))
      | inr (false, here) ↦ inl (here, ground (arith, h, here))
      | inr (true, here) ↦ inr (here, ground (arith, h, here))
    ]

    find-nowhere : (l : List (MemMigration X)) → find (is_applied []) l ≡ none
    unfolding find contains any
    find-nowhere [] = refl
    find-nowhere (m ∷ l) = find-nowhere l

    -- The newest migration of the chain that is recorded as applied is the last applied one.
    pub last_applied_migration-IsChain :
        (ms : MemMigrations X) (fuel : ℕ) (l : List (MemMigration X)) (s : D.State)
        (names : List String)
        → IsChain ms l
        → length l ≤ fuel
        → recorded s ≡ ok names
        → last_applied_migration D fuel ms s ≡ some (ok (find (is_applied names) l))
    unfolding recorded last_applied_migration latest
    last_applied_migration-IsChain ms fuel l s names h enough known =
        elim (recorded-cases s names known) [
          | inl (gone, e) ↦ rw (gone, e, find-nowhere l) refl
          | inr (here, e) ↦ rw (here, e) (last_loop-IsWalk ms names fuel ms.latest l h enough)
        ]

    -- The migrations that are not applied are those of the chain after the newest that is recorded
    -- as applied, the oldest first; the chain is searched to its end with as much fuel as it is long.
    pub unapplied_migrations-IsChain :
        (ms : MemMigrations X) (fuel : ℕ) (l : List (MemMigration X)) (s : D.State)
        (names : List String)
        → IsChain ms l
        → length l ≤ fuel
        → recorded s ≡ ok names
        → unapplied_migrations D fuel ms s ≡ some (ok (reverse (up_to (is_applied names) l)))
    unfolding unapplied_migrations
    unapplied_migrations-IsChain ms fuel l s names h enough known =
        let last = last_applied_migration-IsChain ms fuel l s names h enough known in
        elim (Option-cases (find (is_applied names) l)) [
          | inl e ↦ rw (last, e, up_to-none names l e) (all_migrations-IsChain ms fuel l h enough)
          | inr (m, e) ↦
              rw (last, e)
                (migrations_since-IsChain ms m fuel l h enough
                  ∙ ap (λ o. some (since_result o)) (before-found names l m e))
        ]
