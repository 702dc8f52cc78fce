-- ===== src/Files/Kept.antt =====
-- What becomes of the series when the files of its migrations are written, and when the latest
-- migration is detached.
use mathlib.Core.Path.{subst}
use butane.Prelude.{
  String, true, Option, none, some, List, [], ◌∷◌, Result, both_ok, ok, ◌>>=◌, ◌≡◌, refl, ap, inl,
  inr, Bool-cases, ◌∙◌, if◌then◌else◌,
}
use butane.Prelude.Ord.{same, same_iff, string_ord}
use butane.Map.{get-insert}
use butane.Value.{Externals, Fault}
use butane.Files.Types.{MigrationsState, ReadsBack, Keeps, Formats, Folder, Root}
use butane.Files.Folder.{migration_from}
use butane.Files.Series.{
  folder, put, edit, get_migration, get_state, save_state, detach_latest_migration, add_migration,
}
use butane.Files.Chain.{IsWalk, IsChain, get_named-IsWalk, latest-IsChain}
use butane.Files.Edits.{FileCall, run_call, run_call-from}

module _ {X : Externals} {F : Formats X} where
  pub folder-put :
      (m k : String) (f : Folder F) (root : Root F)
      → folder (put m f root) k ≡ (if same m k then f else folder root k)
  unfolding folder put
  folder-put m k f root = elim (Bool-cases (same m k)) [
    | inl e ↦ rw (get-insert m k f root.folders, e) refl
    | inr e ↦ rw (get-insert m k f root.folders, e) refl
  ]

  pub get_migration-put :
      (m k : String) (f : Folder F) (root : Root F)
      → get_migration root k ≡ some k
      → get_migration (put m f root) k ≡ some k
  unfolding get_migration put
  get_migration-put m k f root h = elim (Bool-cases (same m k)) [
    | inl e ↦ rw (get-insert m k f root.folders, e) refl
    | inr e ↦ rw (get-insert m k f root.folders, e) h
  ]

  -- Files that say the same about what the migration comes after leave the walks.
  pub put-IsWalk :
      (m : String) (f : Folder F) (root : Root F) (c : Option String) (l : List String)
      → migration_from f ≡ migration_from (folder root m)
      → IsWalk root c l
      → IsWalk (put m f root) c l
  unfolding IsWalk
  put-IsWalk m f root none [] says h = h
  put-IsWalk m f root none (k ∷ l) says h = elim h [ ]
  put-IsWalk m f root (some n) [] says h = elim h [ ]
  put-IsWalk m f root (some n) (k ∷ l) says (named, here, from, read, rest) =
      let still : migration_from (folder (put m f root) k) ≡ ok from =
        elim (Bool-cases (same m k)) [
          | inl e ↦
              let q : m ≡ k = (same_iff m k).0 e in
              rw (folder-put m k f root, e)
                (says ∙ ap (λ j. migration_from (folder root j)) q ∙ read)
          | inr e ↦ rw (folder-put m k f root, e) read
        ] in
      (named, get_migration-put m k f root here, from, still, put-IsWalk m f root from l says rest)

  -- Calls on migrations by their names, one after the other.
  unfoldable pub run_calls : List (String × FileCall X) → Root F → Result (Fault X) (Root F)
  unfolding edit
  run_calls [] root = ok root
  run_calls ((m, call) ∷ l) root = do after ← edit m (run_call call) root; run_calls l after

  -- A call on one migration leaves the series.
  pub edit-IsChain :
      (law : ReadsBack F.info) (m : String) (call : FileCall X) (root root' : Root F)
      (l : List String)
      → IsChain root l
      → edit m (run_call call) root ≡ ok root'
      → IsChain root' l
  unfolding edit get_state put
  edit-IsChain law m call root root' l (state, known, h) done =
      let (f, e, h1) = both_ok (run_call call (folder root m)) _ done in
      let q : put m f root ≡ root' = cc in
      subst (λ r. IsChain r l) q
        (
          state,
          known,
          put-IsWalk m f root state.latest l (run_call-from law call (folder root m) f e) h,
        )

  -- Whatever calls write tables, types or SQL of migrations, take tables over or delete what they
  -- hold, the series stays the same, in the same order, if what is written of a migration is read back.
  pub run_calls-IsChain :
      (law : ReadsBack F.info) (calls : List (String × FileCall X)) (root root' : Root F)
      (l : List String)
      → IsChain root l
      → run_calls calls root ≡ ok root'
      → IsChain root' l
  unfolding run_calls
  run_calls-IsChain law [] root root' l h done =
      let q : root ≡ root' = cc in subst (λ r. IsChain r l) q h
  run_calls-IsChain law ((m, call) ∷ calls) root root' l h done =
      let (after, e, rest) = both_ok (edit m (run_call call) root) _ done in
      run_calls-IsChain law calls after root' l (edit-IsChain law m call root after l h e) rest

  pub saved-IsWalk :
      (root root' : Root F) (c : Option String) (l : List String)
      → root'.folders ≡ root.folders
      → IsWalk root c l
      → IsWalk root' c l
  unfolding IsWalk folder get_migration
  saved-IsWalk root root' none [] e h = h
  saved-IsWalk root root' none (m ∷ l) e h = elim h [ ]
  saved-IsWalk root root' (some n) [] e h = elim h [ ]
  saved-IsWalk root root' (some n) (m ∷ l) e (named, here, from, read, rest) =
      (named, rw e here, from, rw e read, saved-IsWalk root root' from l e rest)

  pub folder-same :
      (root root' : Root F) (m : String)
      → root'.folders ≡ root.folders
      → folder root' m ≡ folder root m
  unfolding folder
  folder-same root root' m e = rw e refl

  module _ (keeps : Keeps F.state) where
    -- A state that is saved is read, and the migrations stay.
    pub saved :
        (state : MigrationsState) (root : Root F)
        → (root' : Root F) × (save_state state root ≡ ok root')
          × (get_state root' ≡ ok state)
          × (root'.folders ≡ root.folders)
    unfolding save_state get_state
    saved state root =
        let (t, written, read) = keeps state in
        (record root { state = some t; has_gitignore = true }, rw written refl, read, refl)

    -- Detaching the latest of at least two migrations leaves the series without it, and adding it
    -- again brings the series back, if the state of the series can be written and read back.
    pub detach-add_migration :
        (root : Root F) (m n : String) (l : List String)
        → IsChain root (m ∷ n ∷ l)
        → (detached : Root F) × (detach_latest_migration root ≡ ok detached)
          × IsChain detached (n ∷ l)
          × (again : Root F) × (add_migration m detached ≡ ok again)
          × IsChain again (m ∷ n ∷ l)
    unfolding detach_latest_migration add_migration
    detach-add_migration root m n l (state, known, h) =
        let (here, starts, from, read, rest) = get_named-IsWalk root state.latest m (n ∷ l) h in
        let (_, comes_after, _, _, _) = get_named-IsWalk root from n l rest in
        let (detached, wrote, then_known, same_folders) =
          saved (record state { latest = some n }) root in
        let (again, rewrote, again_known, same_again) =
          saved (record state { latest = some m }) detached in
        let still : folder detached m ≡ folder root m = folder-same root detached m same_folders in
        (
          detached,
          rw (latest-IsChain root state known, here, read, comes_after, known) wrote,
          (
            record state { latest = some n },
            then_known,
            saved-IsWalk root detached (some n) (n ∷ l) same_folders
                (subst (λ c. IsWalk root c (n ∷ l)) comes_after rest),
          ),
          again,
          rw (still, read, comes_after, then_known, (same_iff n n).1 refl) rewrote,
          (
            record state { latest = some m },
            again_known,
            saved-IsWalk root again (some m) (m ∷ n ∷ l) (same_again ∙ same_folders)
                (subst (λ c. IsWalk root c (m ∷ n ∷ l)) starts h),
          ),
        )
