-- ===== src/Migrations/Edit.antt =====
-- The operations of `MigrationMut` for `MemMigration`, butane_core/src/migrations/memmigrations.rs,
-- that resolve the types of the schema, and `copy_migration` of butane_core/src/migrations/mod.rs.
use butane.Prelude.{ℕ, String, Option, none, some, List, [], ◌∷◌, Result, ok, err, ◌≡◌, refl}
use butane.Value.{Externals, Fault, Loop}
use butane.Schema.Keys.{TypeKey}
use butane.Schema.Types.{DeferredSqlType, ATable, Adb}
use butane.Schema.Operations.{replace_table, add_type}
use butane.Schema.Resolve.Rounds.{resolve_types}
use butane.Migrations.Types.{
  MemMigration, up_sql, down_sql, sql_backends, add_sql, set_migration_from,
}

-- The `?` operator on a call that may not end.
abbrev pub go_on {ℓ κ} :
    {X : Externals} {A : Type ℓ} {B : Type κ} → Loop X A → (A → Loop X B) → Loop X B
go_on none next = none
go_on (some (err e)) next = some (err e)
go_on (some (ok a)) next = next a

pub go_on-ok {ℓ κ} :
    {X : Externals} {A : Type ℓ} {B : Type κ} (call : Loop X A) (next : A → Loop X B) {b : B}
    → go_on call next ≡ some (ok b)
    → (a : A) × (call ≡ some (ok a)) × (next a ≡ some (ok b))
go_on-ok none next h = absurd (cc)
go_on-ok (some (err e)) next h = absurd (cc)
go_on-ok (some (ok a)) next h = (a, refl, h)

-- What a call has changed, and how it ended.
abbrev pub Edit : Externals → Type 0 → Type 0
Edit X S = Option (S × Result (Fault X) (Unit {0}))

module _ {X : Externals} where
  -- The state that a call leaves, when it succeeds.
  abbrev pub settled : {S : Type 0} → Edit X S → Loop X S
  settled none = none
  settled (some (s, err e)) = some (err e)
  settled (some (s, ok _)) = some (ok s)

  abbrev pub with_schema : MemMigration X → Edit X (Adb X) → Edit X (MemMigration X)
  with_schema m none = none
  with_schema m (some (db, end)) = some (record m { db = db }, end)

  -- `Migration::db`, on a copy of the schema.
  unfoldable pub migration_db : ℕ → MemMigration X → Loop X (Adb X)
  migration_db fuel m = settled (resolve_types fuel m.db)

  unfoldable pub add_modified_table : ℕ → ATable X → MemMigration X → Edit X (MemMigration X)
  add_modified_table fuel table m = with_schema m (resolve_types fuel (replace_table table m.db))

  -- The name of the migration that the table comes from is not used.
  unfoldable pub add_unmodified_table :
      ℕ → ATable X → String → MemMigration X → Edit X (MemMigration X)
  add_unmodified_table fuel table from_migration_name m = add_modified_table fuel table m

  unfoldable pub add_declared_type :
      ℕ → TypeKey → DeferredSqlType X → MemMigration X → Edit X (MemMigration X)
  add_declared_type fuel key sqltype m =
      with_schema m (resolve_types fuel (add_type key sqltype m.db))

  -- The loops of `copy_migration`.
  unfoldable pub copy_tables :
      ℕ → List (String × ATable X) → MemMigration X → Loop X (MemMigration X)
  copy_tables fuel [] to = some (ok to)
  copy_tables fuel ((k, table) ∷ l) to =
      go_on (settled (add_modified_table fuel table to)) (copy_tables fuel l)

  unfoldable pub copy_types :
      ℕ → List (TypeKey × DeferredSqlType X) → MemMigration X → Loop X (MemMigration X)
  copy_types fuel [] to = some (ok to)
  copy_types fuel ((key, sqltype) ∷ l) to =
      go_on (settled (add_declared_type fuel key sqltype to)) (copy_types fuel l)

  abbrev pub copy_text : String → Option String → Option String → MemMigration X → MemMigration X
  copy_text backend (some up_text) (some down_text) to = add_sql backend up_text down_text to
  copy_text backend (some up_text) none to = to
  copy_text backend none down_text to = to

  unfoldable pub copy_texts : MemMigration X → List String → MemMigration X → MemMigration X
  copy_texts from [] to = to
  copy_texts from (backend ∷ l) to =
      copy_texts from l (copy_text backend (up_sql backend from) (down_sql backend from) to)

  -- When the call fails the migration that it writes to is left half written, which no caller reads.
  unfoldable pub copy_migration : ℕ → MemMigration X → MemMigration X → Loop X (MemMigration X)
  copy_migration fuel from to = go_on (migration_db fuel from) λ db.
      go_on (copy_tables fuel db.tables.entries (set_migration_from from.from to)) λ with_tables.
        go_on (copy_types fuel db.extra_types.entries with_tables)
          λ with_types. some (ok (copy_texts from (sql_backends from) with_types))
