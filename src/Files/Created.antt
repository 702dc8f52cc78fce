-- ===== src/Files/Created.antt =====
-- What a new migration holds is written without changing the series.
use mathlib.Core.Path.{subst}
use butane.Prelude.{
  ℕ, String, Option, none, some, List, [], ◌∷◌, contains, find, both_ok, ok, ◌==◌, ◌≡◌, refl, sym,
  inl, inr, Bool-cases, ◌∙◌,
}
use butane.Prelude.Ord.{string_ord}
use butane.Value.{Externals}
use butane.Schema.Types.{ATable, Adb, Operation}
use butane.Migrations.Edit.{go_on-ok}
use butane.Migrations.Create.{Backend, texts}
use butane.Files.Types.{ReadsBack, Formats, Root}
use butane.Files.Folder.{read_info, add_modified_table, add_sql}
use butane.Files.Series.{folder, edit, or_migration_error, all_migrations}
use butane.Files.Schema.{
  note_base, add_unmodified_table, save_unmodified, save_table, save_tables, add_texts,
}
use butane.Files.Chain.{IsChain}
use butane.Files.Edits.{FileCall, run_call}
use butane.Files.Kept.{edit-IsChain}

module _ {X : Externals} {F : Formats X} (law : ReadsBack F.info) where
  note_base-IsChain :
      (series : List String) (table from m : String) (root root' : Root F) (l : List String)
      → note_base series table from m root ≡ ok root'
      → IsChain root l
      → IsChain root' l
  unfolding note_base run_call
  note_base-IsChain series table from m root root' l h chain =
      let (k, _, h1) =
        both_ok (or_migration_error "Migration not found" (find (λ j. j == from) series)) _ h in
      let (from_info, _, h2) = both_ok (read_info (folder root k)) _ h1 in
      edit-IsChain law m (FileCall.unmodified_table from_info table from) root root' l chain h2

  save_unmodified-IsChain :
      (fuel : ℕ) (from : Option String) (table : ATable X) (m : String) (root root' : Root F)
      (l : List String)
      → save_unmodified fuel from table m root ≡ some (ok root')
      → IsChain root l
      → IsChain root' l
  unfolding add_unmodified_table
  save_unmodified-IsChain fuel none table m root root' l h chain = absurd cc
  save_unmodified-IsChain fuel (some from) table m root root' l h chain =
      let (series, _, h1) = go_on-ok (all_migrations fuel root) _ h in
      let noted : note_base series table.name from m root ≡ ok root' = cc in
      note_base-IsChain series table.name from m root root' l noted chain

  save_table-IsChain :
      (fuel : ℕ) (from : Option String) (names : List String) (table : ATable X) (m : String)
      (root root' : Root F) (l : List String)
      → save_table fuel from names table m root ≡ some (ok root')
      → IsChain root l
      → IsChain root' l
  unfolding save_table run_call
  save_table-IsChain fuel from names table m root root' l h chain =
      elim (Bool-cases (contains table.name names)) [
        | inl e ↦
            let e' : save_table fuel from names table m root
                ≡ some (edit m (add_modified_table table) root) =
              rw (save_table, e) refl in
            let done : edit m (add_modified_table table) root ≡ ok root' = cc in
            edit-IsChain law m (FileCall.modified_table table) root root' l chain done
        | inr e ↦
            let e' : save_table fuel from names table m root
                ≡ save_unmodified fuel from table m root =
              rw (save_table, e) refl in
            save_unmodified-IsChain fuel from table m root root' l (sym e' ∙ h) chain
      ]

  -- Saving the tables of a migration leaves the series.
  pub save_tables-IsChain :
      (fuel : ℕ) (from : Option String) (names : List String) (tables : List (String × ATable X))
      (m : String) (root root' : Root F) (l : List String)
      → save_tables fuel from names tables m root ≡ some (ok root')
      → IsChain root l
      → IsChain root' l
  unfolding save_tables
  save_tables-IsChain fuel from names [] m root root' l h chain =
      let q : root ≡ root' = cc in subst (λ r. IsChain r l) q chain
  save_tables-IsChain fuel from names ((k, table) ∷ tables) m root root' l h chain =
      let (after, h1, h2) = go_on-ok (save_table fuel from names table m root) _ h in
      save_tables-IsChain fuel from names tables m after root' l h2
        (save_table-IsChain fuel from names table m root after l h1 chain)

  -- So does adding its texts.
  pub add_texts-IsChain :
      (backends : List (Backend X)) (from_db to_db : Adb X) (ops : List (Operation X)) (m : String)
      (root root' : Root F) (l : List String)
      → add_texts backends from_db to_db ops m root ≡ ok root'
      → IsChain root l
      → IsChain root' l
  unfolding add_texts run_call
  add_texts-IsChain [] from_db to_db ops m root root' l h chain =
      let q : root ≡ root' = cc in subst (λ r. IsChain r l) q chain
  add_texts-IsChain (backend ∷ backends) from_db to_db ops m root root' l h chain =
      let (both, _, h1) = both_ok (texts backend from_db to_db ops) _ h in
      let (written, e, h2) = both_ok (edit m (add_sql backend.name both.0 both.1) root) _ h1 in
      add_texts-IsChain backends from_db to_db ops m written root' l h2
        (edit-IsChain law m (FileCall.sql_added backend.name both.0 both.1) root written l chain e)
