-- ===== src/Files/Edits.antt =====
-- The calls that write a migration's files leave the series as it is, and detaching takes the latest
-- migration off.
use mathlib.Core.Path.{subst}
use butane.Prelude.{
  String, Option, none, some, [], ◌∷◌, ◌++◌, contains, retain, not, ◌==◌, Result, both_ok, ok,
  ◌>>=◌, ◌≡◌, refl, sym, ap, inl, inr, Bool-cases, ◌∙◌,
}
use butane.Prelude.Ord.{string_ord}
use butane.Map
use butane.Map.{get-insert}
use butane.Value.{Externals, Fault}
use butane.Schema.Keys.{TypeKey, key_ord}
use butane.Schema.Types.{DeferredSqlType, ATable}
use butane.Files.Types.{MigrationInfo, new_info, ReadsBack, Formats, Folder, found}
use butane.Files.Folder.{
  line_ended, read_or, read_info, write_info, migration_from, add_modified_table, delete_table,
  note_backend, add_sql, remove_sql, add_type, only_from, delete_db, set_migration_from,
}
use butane.Files.Schema.{add_base}

-- The calls that write files of one migration and are not to change what it comes after: all but
-- `set_migration_from`, and `copy_to`, which writes the files of one migration into another.
pub data FileCall (X : Externals) : Type 0 where
  modified_table : ATable X → FileCall X
  unmodified_table : MigrationInfo → String → String → FileCall X
  table_deleted : String → FileCall X
  sql_added : String → String → String → FileCall X
  sql_removed : String → FileCall X
  type_added : TypeKey → DeferredSqlType X → FileCall X
  db_deleted : FileCall X

-- Those calls, and the one that changes what a migration comes after.
pub data Edit (X : Externals) : Type 0 where
  call : FileCall X → Edit X
  from_set : Option String → Edit X

only_from-keeps :
    {X : Externals} (F : Formats X) (law : ReadsBack F.info) (o kept : Option F.info.Text)
    → only_from F o ≡ ok kept
    → (do info ← read_or F.info.read new_info kept; ok info.from_name)
      ≡ (do info ← read_or F.info.read new_info o; ok info.from_name)
only_from-keeps F law none kept h = let q : none ≡ kept = cc in rw (← q) refl
only_from-keeps F law (some t) kept h =
    let (info, e1, h1) = both_ok (F.info.read t) _ h in
    let (u, e2, h2) =
      both_ok (F.info.write (record new_info { from_name = info.from_name })) _ h1 in
    let q : some u ≡ kept = cc in rw (← q, e1, law _ u e2) refl

module _ {X : Externals} {F : Formats X} where
  -- What each call does.
  unfoldable pub run_call : FileCall X → Folder F → Result (Fault X) (Folder F)
  run_call (FileCall.modified_table table) = add_modified_table table
  run_call (FileCall.unmodified_table from_info table from) = add_base from_info table from
  run_call (FileCall.table_deleted table) = delete_table table
  run_call (FileCall.sql_added backend up_text down_text) = add_sql backend up_text down_text
  run_call (FileCall.sql_removed backend) = remove_sql backend
  run_call (FileCall.type_added key sqltype) = add_type key sqltype
  run_call FileCall.db_deleted = delete_db

  -- The calls that write files of one migration, `set_migration_from` included.
  unfoldable pub run_edit : Edit X → Folder F → Result (Fault X) (Folder F)
  unfolding run_call
  run_edit (Edit.call c) = run_call c
  run_edit (Edit.from_set prev) = set_migration_from prev

  module _ (law : ReadsBack F.info) where
    pub from-write_info :
        (info : MigrationInfo) (f f' : Folder F)
        → write_info info f ≡ ok f'
        → migration_from f' ≡ ok info.from_name
    unfolding write_info migration_from read_info
    from-write_info info f f' h =
        let (t, e, h1) = both_ok (F.info.write info) _ h in
        let q : record f { info = some t } ≡ f' = cc in rw (← q, law info t e) refl

    from-read_info :
        (f : Folder F) (info : MigrationInfo)
        → read_info f ≡ ok info
        → migration_from f ≡ ok info.from_name
    unfolding migration_from
    from-read_info f info h = rw h refl

    from-note_backend :
        (backend : String) (info : MigrationInfo) (f f' : Folder F)
        → read_info f ≡ ok info
        → note_backend backend info f ≡ ok f'
        → migration_from f' ≡ migration_from f
    from-note_backend backend info f f' known h =
        elim (Bool-cases (contains backend info.backends)) [
          | inl e ↦
              let same_one : note_backend backend info f ≡ ok f = rw e refl in
              let q : f ≡ f' = cc in rw q refl
          | inr e ↦
              let e' : note_backend backend info f
                  ≡ write_info (record info { backends = info.backends ++ (backend ∷ []) }) f =
                rw e refl in
              from-write_info _ f f' (sym e' ∙ h) ∙ sym (from-read_info f info known)
        ]

    same_info : (f f' : Folder F) → f.info ≡ f'.info → migration_from f' ≡ migration_from f
    unfolding migration_from read_info
    same_info f f' e = rw e refl

    -- No call changes which migration this one comes after.
    pub run_call-from :
        (call : FileCall X) (f f' : Folder F)
        → run_call call f ≡ ok f'
        → migration_from f' ≡ migration_from f
    unfolding run_call add_modified_table delete_table add_sql remove_sql add_type delete_db
        read_info migration_from
    run_call-from (FileCall.modified_table table) f f' h =
        let (t, e, h1) = both_ok (F.table.write table) _ h in
        let q : record f { tables = Map.insert table.name t f.tables } ≡ f' = cc in
        same_info f f' (ap (λ g. g.info) q)
    run_call-from (FileCall.unmodified_table from_info table from) f f' h =
        let (info, e, h1) = both_ok (read_info f) _ h in
        from-write_info _ f f' h1 ∙ sym (from-read_info f info e)
    run_call-from (FileCall.table_deleted table) f f' h =
        let (t, e, h1) = both_ok (found F (Map.get table f.tables)) _ h in
        let q : record f { tables = Map.remove table f.tables } ≡ f' = cc in
        same_info f f' (ap (λ g. g.info) q)
    run_call-from (FileCall.sql_added backend up_text down_text) f f' h =
        let (up_file, _, h1) = both_ok (line_ended up_text) _ h in
        let (down_file, _, h2) = both_ok (line_ended down_text) _ h1 in
        let (info, e, h3) = both_ok (read_info f) _ h2 in from-note_backend backend info _ f' e h3
    run_call-from (FileCall.sql_removed backend) f f' h =
        let (_, _, h1) = both_ok (found F (Map.get backend f.up)) _ h in
        let (_, _, h2) = both_ok (found F (Map.get backend f.down)) _ h1 in
        let (info, e, h3) = both_ok (read_info f) _ h2 in
        from-write_info (record info { backends = retain (λ x. not (x == backend)) info.backends })
          (record f { up = Map.remove backend f.up; down = Map.remove backend f.down }) f' h3
        ∙ sym (from-read_info f info e)
    run_call-from (FileCall.type_added key sqltype) f f' h =
        let (types, _, h1) = both_ok (read_or F.types.read Map.empty f.types) _ h in
        let (t, _, h2) = both_ok (F.types.write (Map.insert key sqltype types)) _ h1 in
        let q : record f { types = some t } ≡ f' = cc in same_info f f' (ap (λ g. g.info) q)
    run_call-from FileCall.db_deleted f f' h =
        let (kept, e, h1) = both_ok (only_from F f.info) _ h in
        let q : (record f {
          info = kept;
          types = none;
          tables = Map.empty;
          up = Map.empty;
          down = Map.empty;
        })
            ≡ f' =
          cc in
        subst (λ g. migration_from g ≡ migration_from f) q (only_from-keeps F law f.info kept e)
