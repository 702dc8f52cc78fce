-- ===== src/Cli/Added.antt =====
-- What `add_backend` of butane_cli/src/lib.rs does to every migration of the series.
use mathlib.Core.List.{reverse}
use mathlib.Core.Path.{subst}
use butane.Prelude.{
  ℕ, ◌≤◌, String, true, not, some, List, [], ◌∷◌, ◌++◌, length, any, contains, is_empty, both_ok,
  ok, ◌==◌, ◌≡◌, refl, sym, ap, inl, inr, Bool-cases, ◌∙◌,
}
use butane.Prelude.Ord.{same_iff, string_ord}
use butane.Map
use butane.Map.{get-insert, get-remove}
use butane.Value.{Externals}
use butane.Schema.Types.{Adb}
use butane.Schema.Operations.{new_adb}
use butane.Schema.Diff.{diff}
use butane.Migrations.Create.{Backend, or_panic, texts}
use butane.Files.Types.{MigrationInfo, ReadsBack, Formats, Folder, Root}
use butane.Files.Folder.{line_ended, read_info, write_info, up_sql, down_sql, note_backend, add_sql}
use butane.Files.Series.{folder, edit, all_migrations}
use butane.Files.Schema.{migration_db}
use butane.Files.Chain.{IsChain, all_migrations-lists}
use butane.Files.Edits.{FileCall, run_call, run_call-from}
use butane.Files.Listed.{is_there, read-write_info}
use butane.Cli.Types.{Project, Backends, tried, stop_if, or_message, get_migrations}
use butane.Cli.Embed.{check, with_first, load_latest_migration_backends, add_each, add_backend}
use butane.Cli.Lists.{contains-reverse}
use butane.Cli.Backends.{With}
use butane.Cli.Rewrites.{Rewrites, edit-ok, reached, rewritten-IsChain}
use butane.Cli.Collapsed.{next-ok, tried-ok, saved-migrations}

inserted_there :
    (k text : String) (d : Map.Map String String)
    → is_there (Map.get k (Map.insert k text d)) ≡ true
inserted_there k text d =
    let there : Map.get k (Map.insert k text d) ≡ some text =
      get-insert k k text d ∙ rw ((same_iff k k).1 refl) refl in
    rw there refl

module _ {X : Externals} {F : Formats X} (law : ReadsBack F.info) where
  note_backend-files :
      (backend : String) (info : MigrationInfo) (f f' : Folder F)
      → note_backend backend info f ≡ ok f'
      → (f'.up ≡ f.up) × (f'.down ≡ f.down)
  note_backend-files backend info f f' h = elim (Bool-cases (contains backend info.backends)) [
    | inl e ↦
        let e' : note_backend backend info f ≡ ok f = rw e refl in
        let q : f ≡ f' = cc in (sym (ap (λ g. g.up) q), sym (ap (λ g. g.down) q))
    | inr e ↦
        let more : MigrationInfo = record info { backends = info.backends ++ (backend ∷ []) } in
        let e' : note_backend backend info f ≡ write_info more f = rw e refl in
        let (_, ups, downs) = read-write_info law more f f' (sym e' ∙ h) in (ups, downs)
  ]

  add_sql-With :
      (backend up_text down_text : String) (f f' : Folder F)
      → add_sql backend up_text down_text f ≡ ok f'
      → With backend f'
  unfolding add_sql up_sql down_sql
  add_sql-With backend up_text down_text f f' h =
      let (up_file, _, h1) = both_ok (line_ended up_text) _ h in
      let (down_file, _, h2) = both_ok (line_ended down_text) _ h1 in
      let (info, e, h3) = both_ok (read_info f) _ h2 in
      let (ups, downs) =
        note_backend-files backend info
          (record f {
            up = Map.insert backend up_file f.up;
            down = Map.insert backend down_file f.down;
          })
          f' h3 in
      (
        ap (λ d. is_there (Map.get backend d)) ups ∙ inserted_there backend up_file f.up,
        ap (λ d. is_there (Map.get backend d)) downs ∙ inserted_there backend down_file f.down,
      )

  add_step :
      (backend up_text down_text m : String) (l : List String) (root after root' : Root F)
      → edit m (add_sql backend up_text down_text) root ≡ ok after
      → Rewrites (With backend) after l root'
      → Rewrites (With backend) root (m ∷ l) root'
  unfolding run_call
  add_step backend up_text down_text m l root after root' done rest =
      let (f, e, q) = edit-ok m (add_sql backend up_text down_text) root after done in
      Rewrites.rewrite f (add_sql-With backend up_text down_text (folder root m) f e)
        (run_call-from law (FileCall.sql_added backend up_text down_text) (folder root m) f e)
        (subst (λ r. Rewrites (With backend) r l root') (sym q) rest)

  add_each-Rewrites :
      (fuel : ℕ) (backend : Backend X) (l : List String) (from_db : Adb X) (root root' : Root F)
      → add_each fuel backend l from_db root ≡ some (ok root')
      → Rewrites (With backend.name) root l root'
  unfolding add_each
  add_each-Rewrites fuel backend [] from_db root root' h =
      let q : root ≡ root' = cc in subst (Rewrites (With backend.name) root []) q Rewrites.rewritten
  add_each-Rewrites fuel backend (m ∷ l) from_db root root' h =
      let (to_db, _, h1) = next-ok (tried (migration_db fuel root m)) _ h in
      let (ops, _, h2) = next-ok (tried (some (or_panic (diff from_db to_db)))) _ h1 in
      let (_, _, h3) = next-ok (check (not (is_empty ops))) _ h2 in
      let (both, _, h4) =
        next-ok (tried (some (texts backend from_db to_db (with_first from_db ops)))) _ h3 in
      let (after, e5, h5) =
        next-ok (tried (some (edit m (add_sql backend.name both.0 both.1) root))) _ h4 in
      let done = tried-ok (edit m (add_sql backend.name both.0 both.1) root) after e5 in
      add_step backend.name both.0 both.1 m l root after root' done
        (add_each-Rewrites fuel backend l to_db after root' h5)

  -- When a backend has been added, every migration of the series has SQL for it, for both directions,
  -- and the series is as before; the fuel is the length of the series, and what is written of a
  -- migration is read back.
  pub add_backend-With :
      (fuel : ℕ) (B : Backends X) (name : String) (backend : Backend X) (p p' : Project F)
      (root : Root F) (c : List String)
      → B.get_backend name ≡ some backend
      → p.migrations ≡ some root
      → IsChain root c
      → length c ≤ fuel
      → add_backend fuel B name p ≡ some (ok p')
      → (root' : Root F) × (p'.migrations ≡ some root')
        × IsChain root' c
        × ((m : String) → contains m c ≡ true → With backend.name (folder root' m))
  unfolding add_backend get_migrations
  add_backend-With fuel B name backend p p' root c known here chain enough h =
      let (existing, _, h1) = next-ok (load_latest_migration_backends B p) _ h in
      let (_, _, h2) =
        next-ok
          (stop_if (any (λ b. b.name == name) existing) "Backend already present in migrations.") _
          h1 in
      let (b, e3, h3) = next-ok (or_message "Backend not found" (B.get_backend name)) _ h2 in
      let (r, e4, h4) = next-ok (get_migrations p) _ h3 in
      let (all, e5, h5) = next-ok (tried (all_migrations fuel r)) _ h4 in
      let (root', e6, h6) = next-ok (add_each fuel b all new_adb r) _ h5 in
      let same_backend : b ≡ backend =
        let q : or_message {X = X} "Backend not found" (B.get_backend name) ≡ some (ok backend) =
          rw known refl in
        cc in
      let same_root : r ≡ root =
        let q : get_migrations p ≡ some (ok root) = rw (get_migrations, here) refl in cc in
      let listed : all ≡ reverse c =
        let q : tried (all_migrations fuel r) ≡ some (ok (reverse c)) =
          rw (same_root, all_migrations-lists root fuel c chain enough) refl in
        cc in
      let added : add_each fuel backend (reverse c) new_adb root ≡ some (ok root') =
        rw (← same_backend, ← listed, ← same_root) e6 in
      let ran = add_each-Rewrites fuel backend (reverse c) new_adb root root' added in
      (
        root',
        saved-migrations fuel p p' root' h6,
        rewritten-IsChain (With backend.name) (reverse c) c root root' ran chain,
        λ m met.
            reached (With backend.name) m (reverse c) root root' ran (contains-reverse m c ∙ met),
      )
