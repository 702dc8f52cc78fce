-- ===== src/Files/Series.antt =====
-- `FsMigrations` of butane_core/src/migrations/fsmigrations.rs, with the loops of the trait
-- `Migrations` of butane_core/src/migrations/mod.rs as they run on it. A migration is its directory's
-- name. The loops follow names that any file may hold, and so run on fuel: `none` is that it ran out.
use mathlib.Core.List.{reverse}
use butane.Prelude.{
  ℕ, zero, suc, String, Bool, true, false, not, Option, none, some, List, [], ◌∷◌, ◌++◌, ◌==◌, ◌||◌,
  contains, retain, Result, ok, err, ◌>>=◌, if◌then◌else◌,
}
use butane.Prelude.Ord.{string_ord, same}
use butane.Map
use butane.Value.{Externals, Error, Fault, Loop}
use butane.Migrations.Edit.{go_on}
use butane.Files.Types.{MigrationsState, new_state, Formats, Folder, Root, new_folder, found}
use butane.Files.Folder.{read_or, migration_from, delete_db}

module _ {X : Externals} where
  abbrev pub in_chain_only : Fault X
  in_chain_only = Fault.raised (Error.migration_error "Migration not in chain")

  abbrev pub or_migration_error {ℓ} : {A : Type ℓ} → String → Option A → Result (Fault X) A
  or_migration_error text none = err (Fault.raised (Error.migration_error text))
  or_migration_error text (some a) = ok a

-- Whether a migration comes after the latest one, or there is none.
abbrev pub is_next : Option String → Option String → Bool
is_next none from = true
is_next (some latest_name) none = false
is_next (some latest_name) (some name) = same latest_name name

module _ {X : Externals} {F : Formats X} where
  -- The files of a migration; a file is missing where the directory is.
  abbrev pub or_new : Option (Folder F) → Folder F
  or_new none = new_folder
  or_new (some f) = f

  unfoldable pub folder : Root F → String → Folder F
  folder root m = or_new (Map.get m root.folders)

  unfoldable pub put : String → Folder F → Root F → Root F
  put m f root = record root { folders = Map.insert m f root.folders }

  -- A call on a migration, which writes files.
  unfoldable pub edit :
      String → (Folder F → Result (Fault X) (Folder F)) → Root F → Result (Fault X) (Root F)
  unfolding folder put
  edit m call root = do f ← call (folder root m); ok (put m f root)

  abbrev pub name_there : String → Option (Folder F) → Option String
  name_there m none = none
  name_there m (some f) = some m

  unfoldable pub get_migration : Root F → String → Option String
  get_migration root m = name_there m (Map.get m root.folders)

  unfoldable pub get_named : Root F → Option String → Option String
  unfolding get_migration
  get_named root none = none
  get_named root (some m) = get_migration root m

  unfoldable pub get_state : Root F → Result (Fault X) MigrationsState
  get_state root = read_or F.state.read new_state root.state

  unfoldable pub save_state : MigrationsState → Root F → Result (Fault X) (Root F)
  save_state state root = do
    t ← F.state.write state
    ok (record root { state = some t; has_gitignore = true })

  -- A state that cannot be read is as one that names no migration.
  abbrev pub named_latest : Root F → Result (Fault X) MigrationsState → Option String
  named_latest root (err e) = none
  named_latest root (ok state) = get_named root state.latest

  unfoldable pub latest : Root F → Option String
  unfolding get_state get_named
  latest root = named_latest root (get_state root)

  -- The migration before this one.
  unfoldable pub previous : Root F → String → Result (Fault X) (Option String)
  unfolding folder get_named
  previous root m = do from ← migration_from (folder root m); ok (get_named root from)

  unfoldable pub since_loop :
      ℕ → Root F → String → Option String → List String → Loop X (List String)
  unfolding previous
  since_loop fuel root since none accum = some (err in_chain_only)
  since_loop zero root since (some m) accum = none
  since_loop (suc fuel) root since (some m) accum =
      let rest =
        go_on (some (previous root m))
          λ last. since_loop fuel root since last (accum ++ (m ∷ [])) in
      if same m since then some (ok (reverse accum)) else rest

  unfoldable pub migrations_since : ℕ → Root F → String → Loop X (List String)
  unfolding since_loop latest
  migrations_since fuel root since = since_loop fuel root since (latest root) []

  unfoldable pub all_loop : ℕ → Root F → Option String → List String → Loop X (List String)
  unfolding previous
  all_loop fuel root none accum = some (ok (reverse accum))
  all_loop zero root (some m) accum = none
  all_loop (suc fuel) root (some m) accum =
      go_on (some (previous root m)) λ last. all_loop fuel root last (accum ++ (m ∷ []))

  unfoldable pub all_migrations : ℕ → Root F → Loop X (List String)
  unfolding all_loop latest
  all_migrations fuel root = all_loop fuel root (latest root) []

  unfoldable pub last_loop : ℕ → Root F → List String → Option String → Loop X (Option String)
  unfolding previous
  last_loop fuel root names none = some (ok none)
  last_loop zero root names (some m) = none
  last_loop (suc fuel) root names (some m) =
      let rest = go_on (some (previous root m)) (last_loop fuel root names) in
      if contains m names then some (ok (some m)) else rest

  -- `FsMigrations::detach_latest_migration`
  unfoldable pub detach_latest_migration : Root F → Result (Fault X) (Root F)
  detach_latest_migration root = do
    m ← or_migration_error "There are no migrations" (latest root)
    from ← migration_from (folder root m)
    from_name ← or_migration_error "There is no previous migration" from
    state ← get_state root
    save_state (record state { latest = some from_name }) root

  -- The directories, and not "current", that are not in the series.
  unfoldable pub detached_migration_paths : ℕ → Root F → Loop X (List String)
  unfolding all_migrations
  detached_migration_paths fuel root = go_on (all_migrations fuel root) λ series.
      some (ok (retain (λ m. not ((m == "current") || contains m series)) (Map.keys root.folders)))

  unfoldable pub clear_current : Root F → Result (Fault X) (Root F)
  clear_current root = do
    f ← found F (Map.get "current" root.folders)
    ok (record root { folders = Map.remove "current" root.folders })

  abbrev pub set_latest : Bool → String → MigrationsState → Root F → Result (Fault X) (Root F)
  set_latest true m state root = save_state (record state { latest = some m }) root
  set_latest false m state root = ok root

  unfoldable pub add_migration : String → Root F → Result (Fault X) (Root F)
  add_migration m root = do
    from_name ← migration_from (folder root m)
    state ← get_state root
    set_latest (is_next state.latest from_name) m state root

  -- Everything but "current" is deleted.
  abbrev pub keep_current : Option (Folder F) → Root F
  keep_current current = record {
    state = none;
    has_gitignore = false;
    folders = elim current [ none ↦ Map.empty | some f ↦ Map.insert "current" f Map.empty ];
  }

  unfoldable pub delete_migrations : Root F → Root F
  delete_migrations root = keep_current (Map.get "current" root.folders)

  -- `FsMigration::delete_db`, which lists the directory.
  unfoldable pub delete_migration_db : String → Root F → Result (Fault X) (Root F)
  unfolding put
  delete_migration_db m root = do
    f ← found F (Map.get m root.folders)
    bare ← delete_db f
    ok (put m bare root)
