-- ===== src/Migrations/Run.antt =====
-- Applying and undoing migrations: `Migration::apply`, `mark_applied` and `downgrade` of
-- butane_core/src/migrations/migration.rs, `migrate` and `unmigrate` of
-- butane_core/src/migrations/mod.rs.
use butane.Prelude.{ℕ, zero, suc, String, Option, none, some, List, [], ◌∷◌, Result, ok, err, ◌>>=◌}
use butane.Value.{Externals, SqlVal, Error, Fault}
use butane.Query.Types.{BoolExpr, Expr}
use butane.Migrations.Types.{MemMigration, MemMigrations, get_migration, up_sql, down_sql}
use butane.Database.{Database}
use butane.Migrations.Database.{migrations_table_name, migrations_columns}
use butane.Migrations.Series.{last_applied_migration, unapplied_migrations}

module _ {X : Externals} (D : Database X) where
  -- `Option::ok_or_else` on the text for the connection's backend
  abbrev pub text_or_unknown : Option String → Result (Fault X) String
  text_or_unknown none = err (Fault.raised (Error.unknown_backend D.backend_name))
  text_or_unknown (some sql) = ok sql

  unfoldable pub mark_applied : MemMigration X → D.State → Result (Fault X) D.State
  mark_applied m s =
      D.insert_only migrations_table_name migrations_columns (SqlVal.text m.name ∷ []) s

  unfoldable pub apply : MemMigration X → D.State → Result (Fault X) D.State
  apply m s = do
    begun ← D.transaction s
    sql ← text_or_unknown (up_sql D.backend_name m)
    changed ← D.execute sql begun
    marked ← mark_applied m changed
    D.commit marked

  unfoldable pub downgrade : MemMigration X → D.State → Result (Fault X) D.State
  downgrade m s = do
    begun ← D.transaction s
    sql ← text_or_unknown (down_sql D.backend_name m)
    changed ← D.execute sql begun
    unmarked ←
        D.delete_where migrations_table_name (BoolExpr.eq "name" (Expr.val (SqlVal.text m.name)))
          changed
    D.commit unmarked

  -- A run over several migrations: the state that it leaves, and how it ended.
  abbrev pub Run : Type 0
  Run = D.State × Result (Fault X) Unit

  abbrev pub and_then : Result (Fault X) D.State → D.State → (D.State → Run) → Run
  and_then (err e) s f = (s, err e)
  and_then (ok s') s f = f s'

  -- The loop of `migrate`.
  unfoldable pub apply_all : List (MemMigration X) → D.State → Run
  apply_all [] s = (s, ok tt)
  apply_all (m ∷ l) s = and_then (apply m s) s (apply_all l)

  unfoldable pub migrate : ℕ → MemMigrations X → D.State → Option Run
  migrate fuel ms s = elim (unapplied_migrations D fuel ms s) [
    | none ↦ none
    | some (err e) ↦ some (s, err e)
    | some (ok to_apply) ↦ some (apply_all to_apply s)
  ]

  -- The loop of `unmigrate`, from the name before a migration that has been undone.
  unfoldable pub downgrade_loop : ℕ → MemMigrations X → Option String → D.State → Option Run
  downgrade_loop fuel ms none s = some (s, ok tt)
  downgrade_loop zero ms (some name) s = none
  downgrade_loop (suc fuel) ms (some name) s = elim (get_migration ms name) [
    | none ↦ some (s, err (Fault.raised (Error.migration_error "Migration not in chain")))
    | some m ↦ elim (downgrade m s) [
      | err e ↦ some (s, err e)
      | ok s' ↦ downgrade_loop fuel ms m.from s'
    ]
  ]

  unfoldable pub unmigrate : ℕ → MemMigrations X → D.State → Option Run
  unmigrate fuel ms s = elim (last_applied_migration D fuel ms s) [
    | none ↦ none
    | some (err e) ↦ some (s, err e)
    | some (ok none) ↦ some (s, ok tt)
    | some (ok (some m)) ↦ elim (downgrade m s) [
      | err e ↦ some (s, err e)
      | ok s' ↦ downgrade_loop fuel ms m.from s'
    ]
  ]
