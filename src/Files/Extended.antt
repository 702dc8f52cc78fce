-- ===== src/Files/Extended.antt =====
-- A migration that is created on files is put before the series.
use mathlib.Core.Path.{subst}
use butane.Prelude.{
  ℕ, String, Bool, true, false, Option, none, some, List, [], ◌∷◌, contains, any, both_ok, ok,
  ◌>>=◌, eq_iff, ◌≡◌, refl, sym, ap, arith, inl, inr, ◌⊎◌, ◌∙◌, ◌≢◌,
}
use butane.Prelude.Ord.{same, same_iff, string_ord}
use butane.Map.{get-insert}
use butane.Value.{Externals, Loop}
use butane.Schema.Types.{Adb, Operation}
use butane.Schema.Diff.{diff}
use butane.Migrations.Edit.{go_on-ok}
use butane.Migrations.Created.{or_panic-ok}
use butane.Migrations.Create.{Backend, modified_tables, or_panic}
use butane.Files.Types.{ReadsBack, Keeps, Formats, Folder, Root}
use butane.Files.Folder.{migration_from, read_info, set_migration_from}
use butane.Files.Series.{
  folder, put, edit, get_migration, get_state, is_next, add_migration, latest,
}
use butane.Files.Schema.{
  from_schema, save_tables, add_texts, with_migrations_table, create, made, create_migration_to,
}
use butane.Files.Chain.{IsWalk, IsChain, latest-IsChain, get_named-IsWalk, get_named-nil}
use butane.Files.Edits.{from-write_info}
use butane.Files.Kept.{folder-put, get_migration-put, saved, saved-IsWalk, folder-same}
use butane.Files.Created.{save_tables-IsChain, add_texts-IsChain}

-- The first of the names, newest first.
abbrev pub newest : List String → Option String
newest [] = none
newest (m ∷ l) = some m

next_itself : (c : Option String) → is_next c c ≡ true
next_itself none = refl
next_itself (some n) = (same_iff n n).1 refl

module _ {X : Externals} {F : Formats X} where
  -- The files of a migration that is not met do not matter.
  put_other-IsWalk :
      (m : String) (f : Folder F) (root : Root F) (c : Option String) (l : List String)
      → contains m l ≡ false
      → IsWalk root c l
      → IsWalk (put m f root) c l
  unfolding IsWalk contains any
  put_other-IsWalk m f root none [] other h = h
  put_other-IsWalk m f root none (k ∷ l) other h = elim h [ ]
  put_other-IsWalk m f root (some n) [] other h = elim h [ ]
  put_other-IsWalk m f root (some n) (k ∷ l) other (named, here, from, read, rest) =
      let apart : same m k ≡ false = ground (arith, other, same_iff m k, eq_iff k m) in
      (
        named,
        get_migration-put m k f root here,
        from,
        rw (folder-put m k f root, apart) read,
        put_other-IsWalk m f root from l (ground (arith, other)) rest,
      )

  -- The state is another file.
  pub get_state-put :
      (m : String) (f : Folder F) (root : Root F) → get_state (put m f root) ≡ get_state root
  unfolding get_state put
  get_state-put m f root = refl

  get_migration-put_self :
      (m : String) (f : Folder F) (root : Root F) → get_migration (put m f root) m ≡ some m
  unfolding get_migration put
  get_migration-put_self m f root = rw (get-insert m m f root.folders, (same_iff m m).1 refl) refl

  get_migration-same :
      (root root' : Root F) (m : String)
      → root'.folders ≡ root.folders
      → get_migration root' m ≡ get_migration root m
  unfolding get_migration
  get_migration-same root root' m e = rw e refl

  -- A walk begins at the name of its first migration.
  head-IsWalk :
      (root : Root F) (c : Option String) (l : List String) → IsWalk root c l → c ≡ newest l
  unfolding IsWalk
  head-IsWalk root none [] h = refl
  head-IsWalk root (some n) [] h = elim h [ ]
  head-IsWalk root none (m ∷ l) h = elim h [ ]
  head-IsWalk root (some n) (m ∷ l) (named, _, _, _, _) = rw named refl

  -- The latest migration is the first of the series.
  pub newest-IsChain : (root : Root F) (l : List String) → IsChain root l → latest root ≡ newest l
  newest-IsChain root [] (state, known, h) =
      latest-IsChain root state known ∙ get_named-nil root state.latest h
  newest-IsChain root (m ∷ l) (state, known, h) =
      let (here, starts, from, read, rest) = get_named-IsWalk root state.latest m l h in
      latest-IsChain root state known ∙ here

  module _ (law : ReadsBack F.info) (keeps : Keeps F.state) where
    linked :
        (name : String) (from : Option String) (root root' : Root F) (l : List String)
        → edit name (set_migration_from from) root ≡ ok root'
        → contains name l ≡ false
        → IsChain root l
        → (get_migration root' name ≡ some name)
          × (migration_from (folder root' name) ≡ ok from)
          × IsChain root' l
    unfolding edit set_migration_from
    linked name from root root' l h other (state, known, walk) =
        let (f, e, h1) = both_ok (set_migration_from from (folder root name)) _ h in
        let (info, e1, e2) = both_ok (read_info (folder root name)) _ e in
        let q : put name f root ≡ root' = cc in
        let reads : migration_from f ≡ ok from =
          from-write_info law (record info { from_name = from }) (folder root name) f e2 in
        let at : folder (put name f root) name ≡ f =
          folder-put name name f root ∙ rw ((same_iff name name).1 refl) refl in
        subst
          (λ r.
            (get_migration r name ≡ some name)
            × (migration_from (folder r name) ≡ ok from)
            × IsChain r l)
          q
          (
            get_migration-put_self name f root,
            rw at reads,
            (
              state,
              get_state-put name f root ∙ known,
              put_other-IsWalk name f root state.latest l other walk,
            ),
          )

    -- A migration that comes after the latest is put before the series.
    added-IsChain :
        (name : String) (root root' : Root F) (l : List String)
        → IsChain root l
        → get_migration root name ≡ some name
        → migration_from (folder root name) ≡ ok (newest l)
        → add_migration name root ≡ ok root'
        → IsChain root' (name ∷ l)
    unfolding add_migration IsWalk
    added-IsChain name root root' l (state, known, walk) here reads h =
        let reads_latest : migration_from (folder root name) ≡ ok state.latest =
          reads ∙ ap ok (sym (head-IsWalk root state.latest l walk)) in
        let (root1, wrote, known1, kept) = saved keeps (record state { latest = some name }) root in
        let done : add_migration name root ≡ ok root1 =
          rw (reads_latest, known, next_itself state.latest) wrote in
        let q : root1 ≡ root' = cc in
        subst (λ r. IsChain r (name ∷ l)) q
          (
            record state { latest = some name },
            known1,
            (
              refl,
              get_migration-same root root1 name kept ∙ here,
              state.latest,
              ap migration_from (folder-same root root1 name kept) ∙ reads_latest,
              saved-IsWalk root root1 state.latest l kept walk,
            ),
          )

    ended :
        (name : String) (from : Option String) (root root' : Root F) (l : List String)
        (backends : List (Backend X)) (from_db to_db : Adb X) (ops : List (Operation X))
        → from ≡ newest l
        → (do
          written ← add_texts backends from_db to_db ops name root
          after ← edit name (set_migration_from from) written
          add_migration name after)
          ≡ ok root'
        → IsChain root l
        → contains name l ≡ false
        → IsChain root' (name ∷ l)
    ended name from root root' l backends from_db to_db ops e h chain other =
        let (written, e1, h1) = both_ok (add_texts backends from_db to_db ops name root) _ h in
        let (after, e2, h2) = both_ok (edit name (set_migration_from from) written) _ h1 in
        let chain1 =
          add_texts-IsChain law backends from_db to_db ops name root written l e1 chain in
        let (here, reads, chain2) = linked name from written after l e2 other chain1 in
        added-IsChain name after root' l chain2 here (reads ∙ ap ok e) h2

    created-IsChain :
        (fuel : ℕ) (backends : List (Backend X)) (name : String) (from_db to_db : Adb X)
        (ops : List (Operation X)) (root root' : Root F) (l : List String)
        → create fuel backends name (newest l) from_db to_db ops root ≡ some (ok root')
        → IsChain root l
        → contains name l ≡ false
        → IsChain root' (name ∷ l)
    unfolding create
    created-IsChain fuel backends name from_db to_db ops root root' l h chain other =
        let (kept, h1, h2) =
          go_on-ok
            (save_tables fuel (newest l) (modified_tables ops) to_db.tables.entries name root) _
            h in
        let rest : (do
          written ←
              add_texts backends from_db to_db (with_migrations_table (newest l) ops) name kept
          after ← edit name (set_migration_from (newest l)) written
          add_migration name after)
            ≡ ok root' =
          cc in
        let chain1 =
          save_tables-IsChain law fuel (newest l) (modified_tables ops) to_db.tables.entries name
            root kept l h1 chain in
        ended name (newest l) kept root' l backends from_db to_db
          (with_migrations_table (newest l) ops) refl rest chain1 other

    made_by :
        (ops : List (Operation X)) (call : Loop X (Root F)) (root root' : Root F) (b : Bool)
        → made ops call root ≡ some (ok (root', b))
        → ((ops ≡ []) × (b ≡ false) × (root ≡ root'))
          ⊎ ((ops ≢ []) × (b ≡ true) × (call ≡ some (ok root')))
    made_by [] call root root' b h =
        let e : ◌≡◌ {A = Root F × Bool} (root, false) (root', b) = cc in
        inl (refl, sym (ap (λ p. p.1) e), ap (λ p. p.0) e)
    made_by (o ∷ ops) call root root' b h =
        let (done, h1, h2) = go_on-ok call _ h in
        let e : ◌≡◌ {A = Root F × Bool} (done, true) (root', b) = cc in
        inr (
          λ nothing. absurd (cc),
          sym (ap (λ p. p.1) e),
          subst (λ r. call ≡ some (ok r)) (ap (λ p. p.0) e) h1,
        )

    -- A migration that is created after the latest, under a name that the series does not have, is put
    -- before the series if the schema of the latest and the new one differ, which is if `diff` gives any
    -- operation, and that is told; else the files and the series stay, and that is told. This is if what
    -- is written of a migration is read back, and the state of the series can be written and read back.
    pub create_migration_to-extends :
        (fuel : ℕ) (backends : List (Backend X)) (name : String) (to_db : Adb X)
        (root root' : Root F) (b : Bool) (l : List String)
        → create_migration_to fuel backends name (newest l) to_db root ≡ some (ok (root', b))
        → IsChain root l
        → contains name l ≡ false
        → (from_db : Adb X) × (ops : List (Operation X)) × (from_schema fuel root (newest l)
            ≡ some (ok from_db))
          × (diff from_db to_db ≡ some ops)
          × (((ops ≡ []) × (b ≡ false) × (root' ≡ root) × IsChain root' l)
              ⊎ ((ops ≢ []) × (b ≡ true) × IsChain root' (name ∷ l)))
    unfolding create_migration_to
    create_migration_to-extends fuel backends name to_db root root' b l h chain other =
        let (from_db, e1, h1) = go_on-ok (from_schema fuel root (newest l)) _ h in
        let (ops, e2, h2) = go_on-ok (some (or_panic (diff from_db to_db))) _ h1 in
        let gives : or_panic {X = X} (diff from_db to_db) ≡ ok ops = cc in
        (
          from_db,
          ops,
          e1,
          or_panic-ok (diff from_db to_db) ops gives,
          elim (made_by ops (create fuel backends name (newest l) from_db to_db ops root) root root'
              b h2) [
                | inl (nothing, not_made, q) ↦
                    inl (nothing, not_made, sym q, subst (λ r. IsChain r l) q chain)
                | inr (differ, is_made, done) ↦ inr (
                  differ,
                  is_made,
                  created-IsChain fuel backends name from_db to_db ops root root' l done chain
                      other,
                )
              ],
        )
