-- ===== src/Files/Bases.antt =====
-- The tables that a migration takes over from an earlier one, and the files that have them.
use mathlib.Core.Path.{subst}
use butane.Prelude.{
  ℕ, String, true, some, List, [], ◌∷◌, find, both_ok, ok, ◌==◌, eq_iff, ◌≡◌, refl, sym, ap, arith,
  inl, inr, Bool-cases, Option-cases, ◌∙◌,
}
use butane.Prelude.Ord.{same, same_iff, string_ord}
use butane.Map
use butane.Map.{get-insert}
use butane.Value.{Externals}
use butane.Schema.Types.{ATable}
use butane.Migrations.Edit.{go_on-ok}
use butane.Files.Types.{MigrationInfo, ReadsBack, Formats, Folder, Root}
use butane.Files.Folder.{read_info, write_info}
use butane.Files.Series.{folder, put, edit, or_migration_error, all_migrations}
use butane.Files.Schema.{base_of, add_base, note_base, add_unmodified_table}
use butane.Files.Listed.{is_there, read-write_info}
use butane.Files.Kept.{folder-put}

pub find_name : (name k : String) (l : List String) → find (λ j. j == name) l ≡ some k → k ≡ name
unfolding find
find_name name k [] h = absurd cc
find_name name k (j ∷ l) h = ground (arith, find_name name k l, eq_iff j name)

module _ {X : Externals} where
  found_name :
      (name k : String) (l : List String)
      → or_migration_error {X = X} "Migration not found" (find (λ j. j == name) l) ≡ ok k
      → k ≡ name
  found_name name k l h = elim (Option-cases (find (λ j. j == name) l)) [
    | inl e ↦ absurd (ground (arith, h, e))
    | inr (j, e) ↦ ground (arith, h, e, find_name name j l e)
  ]

module _ {X : Externals} {F : Formats X} where
  -- The directory has the file of the table.
  unfoldable pub HasFile : Root F → String → String → Type 0
  HasFile root m table = is_there (Map.get table (folder root m).tables) ≡ true

  -- The migration finds the table: where it says the table is, or else with itself, there is its file.
  abbrev pub Finds : Root F → String → String → Type 0
  Finds root m table =
      (info : MigrationInfo) × (read_info (folder root m) ≡ ok info)
      × HasFile root (base_of info table m) table

  -- Every table that the migration takes over is where it says.
  abbrev pub IsBased : Root F → String → Type 0
  IsBased root m =
      (info : MigrationInfo) × (read_info (folder root m) ≡ ok info)
      × ((table base : String)
          → Map.get table info.table_bases ≡ some base
          → HasFile root base table)

  module _ (law : ReadsBack F.info) where
    -- Writing the information of a migration leaves the files of tables.
    HasFile-put :
        (root : Root F) (m base table : String) (f : Folder F)
        → f.tables ≡ (folder root m).tables
        → HasFile root base table
        → HasFile (put m f root) base table
    unfolding HasFile
    HasFile-put root m base table f kept h = elim (Bool-cases (same m base)) [
      | inl e ↦
          let q : m ≡ base = (same_iff m base).0 e in rw (folder-put m base f root, e, kept, q) h
      | inr e ↦ rw (folder-put m base f root, e) h
    ]

    tables-write_info :
        (info : MigrationInfo) (f f' : Folder F) → write_info info f ≡ ok f' → f'.tables ≡ f.tables
    unfolding write_info
    tables-write_info info f f' h =
        let (t, e, h1) = both_ok (F.info.write info) _ h in
        let q : record f { info = some t } ≡ f' = cc in sym (ap (λ g. g.tables) q)

    inserted_base :
        (root : Root F) (table base : String) (bases : Map.Map String String)
        → HasFile root base table
        → ((t b : String) → Map.get t bases ≡ some b → HasFile root b t)
        → (t b : String) → Map.get t (Map.insert table base bases) ≡ some b
        → HasFile root b t
    inserted_base root table base bases there based t b e = elim (Bool-cases (same table t)) [
      | inl q ↦
          let found : Map.get t (Map.insert table base bases) ≡ some base =
            get-insert table t base bases ∙ rw q refl in
          let same_table : table ≡ t = (same_iff table t).0 q in
          let same_base : base ≡ b = cc in
          subst (λ k. HasFile root b k) same_table
            (subst (λ k. HasFile root k table) same_base there)
      | inr q ↦
          let found : Map.get t (Map.insert table base bases) ≡ Map.get t bases =
            get-insert table t base bases ∙ rw q refl in
          based t b (sym found ∙ e)
    ]

    named-IsBased :
        (root : Root F) (m table base : String) (info : MigrationInfo) (f : Folder F)
        → HasFile root base table
        → ((t b : String) → Map.get t info.table_bases ≡ some b → HasFile root b t)
        → write_info
            (record info { table_bases = Map.insert table base info.table_bases })
            (folder root m)
          ≡ ok f
        → Finds (put m f root) m table × IsBased (put m f root) m
    named-IsBased root m table base info f there based h =
        let named : MigrationInfo = record info {
          table_bases = Map.insert table base info.table_bases;
        } in
        let (read, _, _) = read-write_info law named (folder root m) f h in
        let now : folder (put m f root) m ≡ f =
          folder-put m m f root ∙ rw ((same_iff m m).1 refl) refl in
        let known : read_info (folder (put m f root) m) ≡ ok named = rw now read in
        let kept = tables-write_info named (folder root m) f h in
        let here : Map.get table named.table_bases ≡ some base =
          get-insert table table base info.table_bases ∙ rw ((same_iff table table).1 refl) refl in
        (
          (named, known, rw (base_of, here) (HasFile-put root m base table f kept there)),
          (
            named,
            known,
            λ t b e.
                HasFile-put root m b t f kept
                  (inserted_base root table base info.table_bases there based t b e),
          ),
        )

    noted-IsBased :
        (series : List String) (table from m : String) (root root' : Root F)
        → Finds root from table
        → IsBased root m
        → note_base series table from m root ≡ ok root'
        → Finds root' m table × IsBased root' m
    unfolding note_base edit
    noted-IsBased series table from m root root' (from_info, from_known, there) (info, known, based)
          h =
        let (k, e1, h1) =
          both_ok (or_migration_error "Migration not found" (find (λ j. j == from) series)) _ h in
        let same_one : k ≡ from = found_name from k series e1 in
        let (from_info1, e2, h2) = both_ok (read_info (folder root k)) _ h1 in
        let (f', e3, h3) = both_ok (add_base from_info1 table from (folder root m)) _ h2 in
        let (info1, e4, h4) = both_ok (read_info (folder root m)) _ e3 in
        let same_from : from_info ≡ from_info1 =
          let p : read_info (folder root from) ≡ ok from_info1 =
            subst (λ j. read_info (folder root j) ≡ ok from_info1) same_one e2 in
          cc in
        let same_info : info ≡ info1 = cc in
        let q : put m f' root ≡ root' = cc in
        subst (λ r. Finds r m table × IsBased r m) q
          (named-IsBased root m table (base_of from_info1 table from) info1 f'
            (subst (λ i. HasFile root (base_of i table from) table) same_from there)
            (subst
              (λ (i : MigrationInfo).
                (t b : String) → Map.get t i.table_bases ≡ some b → HasFile root b t)
              same_info based)
            h4)

    -- A table that is taken over from the migration before is found, if that one finds it, in its own
    -- directory or where it says that the table is; and every table that was taken over before is still
    -- where the migration says, if what is written of a migration is read back.
    pub add_unmodified_table-IsBased :
        (fuel : ℕ) (table : ATable X) (from m : String) (root root' : Root F)
        → Finds root from table.name
        → IsBased root m
        → add_unmodified_table fuel table from m root ≡ some (ok root')
        → Finds root' m table.name × IsBased root' m
    unfolding add_unmodified_table
    add_unmodified_table-IsBased fuel table from m root root' there based h =
        let (series, e, h1) = go_on-ok (all_migrations fuel root) _ h in
        let noted : note_base series table.name from m root ≡ ok root' = cc in
        noted-IsBased series table.name from m root root' there based noted
