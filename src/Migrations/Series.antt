-- ===== src/Migrations/Series.antt =====
-- The loops along a series of migrations, of the trait `Migrations` of
-- butane_core/src/migrations/mod.rs for `MemMigrations`, whose `migration_from` does not fail. The loops
-- follow names that any migration may hold, and so run on fuel: `none` is that the fuel ran out.
use mathlib.Core.List.{reverse}
use butane.Prelude.{
  ℕ, zero, suc, String, true, false, Option, none, some, List, [], ◌∷◌, ◌++◌, contains, ok, err,
  if◌then◌else◌,
}
use butane.Value.{Externals, Error, Fault, Loop}
use butane.Migrations.Types.{MemMigration, MemMigrations, migration_eq, get_named, latest}
use butane.Database.{Database}
use butane.Migrations.Database.{migrations_table_name, applied_names}

module _ {X : Externals} where
  abbrev pub not_in_chain : Fault X
  not_in_chain = Fault.raised (Error.migration_error "Migration not in chain")

  -- The migration before this one.
  unfoldable pub previous : MemMigrations X → MemMigration X → Option (MemMigration X)
  unfolding get_named
  previous ms m = get_named ms m.from

  unfoldable pub since_loop :
      ℕ
      → MemMigrations X
      → MemMigration X
      → Option (MemMigration X)
      → List (MemMigration X)
      → Loop X (List (MemMigration X))
  unfolding previous
  since_loop fuel ms since none accum = some (err not_in_chain)
  since_loop zero ms since (some m) accum = none
  since_loop (suc fuel) ms since (some m) accum =
      let rest = since_loop fuel ms since (previous ms m) (accum ++ (m ∷ [])) in
      if migration_eq m since then some (ok (reverse accum)) else rest

  unfoldable pub migrations_since :
      ℕ → MemMigrations X → MemMigration X → Loop X (List (MemMigration X))
  unfolding since_loop
  migrations_since fuel ms since = since_loop fuel ms since (latest ms) []

  unfoldable pub all_loop :
      ℕ
      → MemMigrations X
      → Option (MemMigration X)
      → List (MemMigration X)
      → Loop X (List (MemMigration X))
  unfolding previous
  all_loop fuel ms none accum = some (ok (reverse accum))
  all_loop zero ms (some m) accum = none
  all_loop (suc fuel) ms (some m) accum = all_loop fuel ms (previous ms m) (accum ++ (m ∷ []))

  unfoldable pub all_migrations : ℕ → MemMigrations X → Loop X (List (MemMigration X))
  unfolding all_loop
  all_migrations fuel ms = all_loop fuel ms (latest ms) []

  unfoldable pub last_loop :
      ℕ → MemMigrations X → List String → Option (MemMigration X) → Loop X (Option (MemMigration X))
  unfolding previous contains
  last_loop fuel ms names none = some (ok none)
  last_loop zero ms names (some m) = none
  last_loop (suc fuel) ms names (some m) =
      let rest = last_loop fuel ms names (previous ms m) in
      if contains m.name names then some (ok (some m)) else rest

  -- A chain of calls, some of which loop.
  abbrev pub then_loop {ℓ κ} : {A : Type ℓ} {B : Type κ} → Loop X A → (A → Loop X B) → Loop X B
  then_loop none f = none
  then_loop (some (err e)) f = some (err e)
  then_loop (some (ok a)) f = f a

  module _ (D : Database X) where
    unfoldable pub last_applied_migration :
        ℕ → MemMigrations X → D.State → Loop X (Option (MemMigration X))
    unfolding last_loop applied_names
    last_applied_migration fuel ms s =
        then_loop (some (D.has_table migrations_table_name s)) λ here. elim here [
          | false ↦ some (ok none)
          | true ↦ then_loop (some (applied_names D s)) λ names. last_loop fuel ms names (latest ms)
        ]

    unfoldable pub unapplied_migrations :
        ℕ → MemMigrations X → D.State → Loop X (List (MemMigration X))
    unfolding last_applied_migration all_migrations migrations_since
    unapplied_migrations fuel ms s =
        then_loop (last_applied_migration fuel ms s)
          λ last. elim last [ none ↦ all_migrations fuel ms | some m ↦ migrations_since fuel ms m ]
