-- ===== src/Cli/Backends.antt =====
-- What `add_backend` and `remove_backend` of butane_cli/src/lib.rs do to every migration of the series.
use mathlib.Core.List.{reverse}
use mathlib.Core.Path.{subst}
use butane.Prelude.{
  ℕ, ◌≤◌, String, true, not, none, some, List, [], ◌∷◌, length, contains, retain, Result-cases,
  both_ok, ok, err, ◌==◌, ◌=ℕ◌, ◌≡◌, refl, sym, ap, inl, inr, ◌∙◌,
}
use butane.Prelude.Ord.{same_iff, string_ord}
use butane.Map
use butane.Map.{get-insert, get-remove}
use butane.Value.{Externals}
use butane.Migrations.Create.{Backend}
use butane.Files.Types.{ReadsBack, Formats, Folder, Root, found}
use butane.Files.Folder.{read_info, up_sql, down_sql, remove_sql}
use butane.Files.Series.{folder, edit, all_migrations}
use butane.Files.Chain.{IsChain, all_migrations-lists}
use butane.Files.Edits.{FileCall, run_call, run_call-from}
use butane.Files.Listed.{is_there, read-write_info}
use butane.Cli.Types.{Project, Backends, tried, stop_if, or_message, get_migrations}
use butane.Cli.Embed.{load_latest_migration_backends, remove_each, remove_backend}
use butane.Cli.Lists.{contains-reverse}
use butane.Cli.Rewrites.{Rewrites, edit-ok, reached, rewritten-IsChain}
use butane.Cli.Collapsed.{next-ok, tried-ok, saved-migrations}

module _ {X : Externals} {F : Formats X} where
  -- Without, and with, SQL for the backend.
  abbrev pub Without : String → Folder F → Type 0
  Without backend f = (up_sql backend f ≡ none) × (down_sql backend f ≡ none)

  abbrev pub With : String → Folder F → Type 0
  With backend f = (is_there (up_sql backend f) ≡ true) × (is_there (down_sql backend f) ≡ true)

  module _ (law : ReadsBack F.info) where
    remove_sql-Without :
        (backend : String) (f f' : Folder F) → remove_sql backend f ≡ ok f' → Without backend f'
    unfolding remove_sql up_sql down_sql
    remove_sql-Without backend f f' h =
        let (_, _, h1) = both_ok (found F (Map.get backend f.up)) _ h in
        let (_, _, h2) = both_ok (found F (Map.get backend f.down)) _ h1 in
        let (info, e, h3) = both_ok (read_info f) _ h2 in
        let (_, ups, downs) =
          read-write_info law
            (record info { backends = retain (λ x. not (x == backend)) info.backends })
            (record f { up = Map.remove backend f.up; down = Map.remove backend f.down }) f' h3 in
        (
          ap (Map.get backend) ups
              ∙ get-remove backend backend f.up
              ∙ rw ((same_iff backend backend).1 refl) refl,
          ap (Map.get backend) downs
              ∙ get-remove backend backend f.down
              ∙ rw ((same_iff backend backend).1 refl) refl,
        )

    remove_each-Rewrites :
        (backend : String) (l : List String) (root root' : Root F)
        → remove_each backend l root ≡ ok root'
        → Rewrites (Without backend) root l root'
    unfolding remove_each run_call
    remove_each-Rewrites backend [] root root' h =
        let q : root ≡ root' = cc in subst (Rewrites (Without backend) root []) q Rewrites.rewritten
    remove_each-Rewrites backend (m ∷ l) root root' h =
        elim (Result-cases (edit m (remove_sql backend) root)) [
          | inl (e, failed) ↦
              let e' : remove_each backend (m ∷ l) root ≡ err e = rw (remove_each, failed) refl in
              absurd (cc)
          | inr (after, done) ↦
              let e' : remove_each backend (m ∷ l) root ≡ remove_each backend l after =
                rw (remove_each, done) refl in
              let (f, e, q) = edit-ok m (remove_sql backend) root after done in
              Rewrites.rewrite f (remove_sql-Without backend (folder root m) f e)
                (run_call-from law (FileCall.sql_removed backend) (folder root m) f e)
                (subst (λ r. Rewrites (Without backend) r l root') (sym q)
                  (remove_each-Rewrites backend l after root' (sym e' ∙ h)))
        ]

    -- When a backend has been removed, no migration of the series has SQL for it, for either direction,
    -- and the series is as before; the fuel is the length of the series, and what is written of a
    -- migration is read back.
    pub remove_backend-Without :
        (fuel : ℕ) (B : Backends X) (name : String) (backend : Backend X) (p p' : Project F)
        (root : Root F) (c : List String)
        → B.get_backend name ≡ some backend
        → p.migrations ≡ some root
        → IsChain root c
        → length c ≤ fuel
        → remove_backend fuel B name p ≡ some (ok p')
        → (root' : Root F) × (p'.migrations ≡ some root')
          × IsChain root' c
          × ((m : String) → contains m c ≡ true → Without backend.name (folder root' m))
    unfolding remove_backend get_migrations
    remove_backend-Without fuel B name backend p p' root c known here chain enough h =
        let (existing, _, h1) = next-ok (load_latest_migration_backends B p) _ h in
        let (_, _, h2) =
          next-ok (stop_if (length existing =ℕ 1) "Can not remove the last backend.") _ h1 in
        let (b, e3, h3) = next-ok (or_message "Backend not found" (B.get_backend name)) _ h2 in
        let (r, e4, h4) = next-ok (get_migrations p) _ h3 in
        let (all, e5, h5) = next-ok (tried (all_migrations fuel r)) _ h4 in
        let (root', e6, h6) = next-ok (tried (some (remove_each b.name all r))) _ h5 in
        let same_backend : b ≡ backend =
          let q : or_message {X = X} "Backend not found" (B.get_backend name) ≡ some (ok backend) =
            rw known refl in
          cc in
        let same_root : r ≡ root =
          let q : get_migrations p ≡ some (ok root) = rw (get_migrations, here) refl in cc in
        let listed : all ≡ reverse c =
          let q : tried (all_migrations fuel r) ≡ some (ok (reverse c)) =
            rw (same_root, all_migrations-lists root fuel c chain enough) refl in
          cc in
        let removed : remove_each backend.name (reverse c) root ≡ ok root' =
          let q : remove_each b.name all r ≡ ok root' =
            tried-ok (remove_each b.name all r) root' e6 in
          rw (← same_backend, ← listed, ← same_root) q in
        let ran = remove_each-Rewrites backend.name (reverse c) root root' removed in
        (
          root',
          saved-migrations fuel p p' root' h6,
          rewritten-IsChain (Without backend.name) (reverse c) c root root' ran chain,
          λ m met.
              reached (Without backend.name) m (reverse c) root root' ran
                (contains-reverse m c ∙ met),
        )
