-- ===== src/Files/Texts.antt =====
-- The backends that a migration lists, against the files of SQL that it has.
use mathlib.Core.Path.{subst}
use butane.Prelude.{
  String, not, Option, none, some, [], any, contains, retain, both_ok, ok, ◌==◌, ◌≡◌, refl,
}
use butane.Prelude.Ord.{string_ord}
use butane.Map
use butane.Map.{get-insert, get-remove}
use butane.Value.{Externals}
use butane.Schema.Keys.{key_ord}
use butane.Files.Types.{MigrationInfo, new_info, ReadsBack, Formats, Folder, found}
use butane.Files.Folder.{
  line_ended, read_or, read_info, add_modified_table, delete_table, add_sql, remove_sql, add_type,
  only_from, delete_db, set_migration_from,
}
use butane.Files.Listed.{is_there, Lists, IsListed, written-IsListed, noted-IsListed, removed-Lists}
use butane.Files.Edits.{FileCall, run_call, Edit, run_edit}

emptied :
    {X : Externals} (F : Formats X) (law : ReadsBack F.info) (o kept : Option F.info.Text)
    → only_from F o ≡ ok kept
    → (info : MigrationInfo) × (read_or F.info.read new_info kept ≡ ok info) × (info.backends ≡ [])
emptied F law none kept h =
    let q : none ≡ kept = cc in
    (new_info, subst (λ o. read_or F.info.read new_info o ≡ ok new_info) q refl, refl)
emptied F law (some t) kept h =
    let (info, e1, h1) = both_ok (F.info.read t) _ h in
    let bare : MigrationInfo = record new_info { from_name = info.from_name } in
    let (u, e2, h2) = both_ok (F.info.write bare) _ h1 in
    let q : some u ≡ kept = cc in
    (bare, subst (λ o. read_or F.info.read new_info o ≡ ok bare) q (law bare u e2), refl)

nothing-Lists : (k : String) → contains k [] ≡ is_there (Map.get k (Map.empty {V = String}))
unfolding contains any Map.get Map.find_entry
nothing-Lists k = refl

module _ {X : Externals} {F : Formats X} where
  module _ (law : ReadsBack F.info) where
    run_call-IsListed :
        (call : FileCall X) (f f' : Folder F) → IsListed f → run_call call f ≡ ok f' → IsListed f'
    unfolding run_call add_modified_table delete_table add_sql remove_sql add_type delete_db
        read_info
    run_call-IsListed (FileCall.modified_table table) f f' listed h =
        let (t, e, h1) = both_ok (F.table.write table) _ h in
        let q : record f { tables = Map.insert table.name t f.tables } ≡ f' = cc in
        subst IsListed q listed
    run_call-IsListed (FileCall.unmodified_table from_info table from) f f' (info, known, lists) h =
        let (info1, e, h1) = both_ok (read_info f) _ h in
        let q : info ≡ info1 = cc in written-IsListed law _ f f' h1 (subst (λ i. Lists i f) q lists)
    run_call-IsListed (FileCall.table_deleted table) f f' listed h =
        let (t, e, h1) = both_ok (found F (Map.get table f.tables)) _ h in
        let q : record f { tables = Map.remove table f.tables } ≡ f' = cc in subst IsListed q listed
    run_call-IsListed (FileCall.sql_added backend up_text down_text) f f' (info, known, lists) h =
        let (up_file, _, h1) = both_ok (line_ended up_text) _ h in
        let (down_file, _, h2) = both_ok (line_ended down_text) _ h1 in
        let (info1, e, h3) = both_ok (read_info f) _ h2 in
        let q : info ≡ info1 = cc in
        noted-IsListed law backend up_file down_file info1 f f' e (subst (λ i. Lists i f) q lists)
          h3
    run_call-IsListed (FileCall.sql_removed backend) f f' (info, known, lists) h =
        let (_, _, h1) = both_ok (found F (Map.get backend f.up)) _ h in
        let (_, _, h2) = both_ok (found F (Map.get backend f.down)) _ h1 in
        let (info1, e, h3) = both_ok (read_info f) _ h2 in
        let q : info ≡ info1 = cc in
        written-IsListed law
          (record info1 { backends = retain (λ x. not (x == backend)) info1.backends })
          (record f { up = Map.remove backend f.up; down = Map.remove backend f.down }) f' h3
          (removed-Lists law backend info1 f (subst (λ i. Lists i f) q lists))
    run_call-IsListed (FileCall.type_added key sqltype) f f' listed h =
        let (types, _, h1) = both_ok (read_or F.types.read Map.empty f.types) _ h in
        let (t, _, h2) = both_ok (F.types.write (Map.insert key sqltype types)) _ h1 in
        let q : record f { types = some t } ≡ f' = cc in subst IsListed q listed
    run_call-IsListed FileCall.db_deleted f f' listed h =
        let (kept, e, h1) = both_ok (only_from F f.info) _ h in
        let (bare, known, none_listed) = emptied F law f.info kept e in
        let q : (record {
          info = kept;
          types = none;
          tables = Map.empty;
          up = Map.empty;
          down = Map.empty;
        })
            ≡ f' =
          cc in
        subst IsListed q
          (bare, known, λ k. (rw none_listed (nothing-Lists k), rw none_listed (nothing-Lists k)))

    -- Adding a table, taking one over or deleting it, adding or removing the SQL of a backend, adding a
    -- type, setting what the migration comes after, and deleting what it holds: each leaves the backends
    -- listed exactly that have SQL, for either direction, if what is written of a migration is read back.
    pub run_edit-IsListed :
        (call : Edit X) (f f' : Folder F) → IsListed f → run_edit call f ≡ ok f' → IsListed f'
    unfolding run_edit set_migration_from
    run_edit-IsListed (Edit.call c) f f' listed h = run_call-IsListed c f f' listed h
    run_edit-IsListed (Edit.from_set prev) f f' (info, known, lists) h =
        let (info1, e, h1) = both_ok (read_info f) _ h in
        let q : info ≡ info1 = cc in
        written-IsListed law (record info1 { from_name = prev }) f f' h1
          (subst (λ (i : MigrationInfo). Lists i f) q lists)
