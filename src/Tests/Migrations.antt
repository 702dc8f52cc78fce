-- ===== src/Tests/Migrations.antt =====
-- Series of migrations, run on a database that is only its table of applied migrations.
use mathlib.Core.List.{reverse}
use butane.Prelude.{
  String, Bool, true, false, not, ◌||◌, Option, none, some, List, [], ◌∷◌, map, any, contains,
  retain, traverse, Result, ok, err, ◌==◌, ◌≡◌, refl, arith, ◌∙◌,
}
use butane.Map
use butane.Value.{SqlVal, Error, Fault}
use butane.Query.Types.{BoolExpr, Expr}
use butane.Migrations.Types.{
  MemMigration, MemMigrations, new_migration, new_migrations, get_migration, add_sql,
  set_migration_from, add_migration, is_new_latest, up_sql,
}
use butane.Database.{Database}
use butane.Migrations.Database.{applied_names, from_row}
use butane.Migrations.Series.{unapplied_migrations}
use butane.Migrations.Run.{apply_all, apply, mark_applied, migrate, unmigrate}
use butane.Prelude.Goes.{Goes}
use butane.Migrations.Run.{Run, apply}
use butane.Prelude.{◌⊎◌, ◌≢◌}
use butane.Migrations.Chain.{IsWalk, IsChain, add_migration-IsChain}
use butane.Migrations.Listing.{up_to, on_from}
use butane.Migrations.Pending.{is_applied, recorded}
use butane.Migrations.Runs.{downgrade_all, migrate-apply_all, migrate-IsChain, unmigrate-IsChain}
use butane.Migrations.Applied.{Lawful, KeepsRecords, migrate_applies}
use butane.Tests.Fixtures.{plain}

abbrev refused {ℓ} : {A : Type ℓ} → Result (Fault plain) A
refused = err (Fault.raised (Error.internal "refused"))

-- No table yet, or the names in it.
abbrev pub Rows : Type 0
Rows = Option (List String)

abbrev insert_row : List (SqlVal plain) → Rows → Result (Fault plain) Rows
insert_row (SqlVal.text n ∷ []) (some names) = ok (some (n ∷ names))
insert_row _ _ = refused

abbrev delete_rows : BoolExpr plain → Rows → Result (Fault plain) Rows
delete_rows (BoolExpr.eq _ (Expr.val (SqlVal.text n))) (some names) =
    ok (some (retain (λ x. not (x == n)) names))
delete_rows BoolExpr.true (some names) = ok (some [])
delete_rows _ _ = refused

abbrev read_rows : Rows → Result (Fault plain) (List (List (SqlVal plain)))
read_rows none = refused
read_rows (some names) = ok (map (λ n. SqlVal.text n ∷ []) names)

-- Any statement makes the table if there is none.
abbrev make_table : Rows → Result (Fault plain) Rows
make_table none = ok (some [])
make_table (some names) = ok (some names)

abbrev has_rows : Rows → Bool
has_rows none = false
has_rows (some _) = true

abbrev pub rows_database : Database plain
rows_database = record {
  State = Rows;
  backend_name = "sqlite";
  has_table = λ _ s. ok (has_rows s);
  query = λ _ _ _ _ _ _ s. read_rows s;
  insert_only = λ _ _ values s. insert_row values s;
  delete_where = λ _ expr s. delete_rows expr s;
  execute = λ _ s. make_table s;
  transaction = λ s. ok s;
  commit = λ s. ok s;
}

traverse_rows :
    (names : List String)
    → traverse (from_row {X = plain}) (map (λ n. SqlVal.text n ∷ []) names) ≡ ok names
unfolding traverse from_row
traverse_rows [] = refl
traverse_rows (n ∷ names) = rw (traverse_rows names) refl

pub recorded_rows : (names : List String) → recorded rows_database (some names) ≡ ok names
unfolding recorded applied_names
recorded_rows names = traverse_rows names

rows_insert :
    (n : String) (names : List String) (s s' : Rows)
    → recorded rows_database s ≡ ok names
    → insert_row (SqlVal.text n ∷ []) s ≡ ok s'
    → (names' : List String) × (recorded rows_database s' ≡ ok names')
      × ((k : String) → contains k names' ≡ ((n == k) || contains k names))
unfolding contains any
rows_insert n names none s' known h = absurd cc
rows_insert n names (some rows) s' known h =
    let same_names : rows ≡ names = let p = recorded_rows rows in cc in
    let now : recorded rows_database s' ≡ ok (n ∷ rows) =
      let q : some (n ∷ rows) ≡ s' = cc in rw (← q) (recorded_rows (n ∷ rows)) in
    (n ∷ rows, now, λ k. rw same_names refl)

pub rows_database-Lawful : Lawful rows_database
rows_database-Lawful = record {
  transaction_keeps = λ s s' h. let q : s ≡ s' = cc in rw q refl;
  commit_keeps = λ s s' h. let q : s ≡ s' = cc in rw q refl;
  insert_records = rows_insert;
}

make_table_keeps :
    (s s' : Rows) → make_table s ≡ ok s' → recorded rows_database s' ≡ recorded rows_database s
unfolding recorded applied_names traverse
make_table_keeps none s' h = let q : some [] ≡ s' = cc in rw (← q) refl
make_table_keeps (some rows) s' h = let q : some rows ≡ s' = cc in rw (← q) refl

pub rows_database-KeepsRecords : (m : MemMigration plain) → KeepsRecords rows_database m
unfolding KeepsRecords
rows_database-KeepsRecords m sql s s' text h = make_table_keeps s s' h

abbrev pub first : MemMigration plain
first = add_sql "sqlite" "CREATE TABLE a" "DROP TABLE a" (new_migration "first")

abbrev pub second : MemMigration plain
second =
    set_migration_from (some "first")
      (add_sql "sqlite" "CREATE TABLE b" "DROP TABLE b" (new_migration "second"))

abbrev one : MemMigrations plain
one = add_migration first new_migrations

abbrev pub two : MemMigrations plain
two = add_migration second one

unfoldable pub program : Unit {0}
unfolding add_migration set_migration_from add_sql is_new_latest get_migration up_sql Map.get
    Map.insert
program = tt

one-IsChain : IsChain one (first ∷ [])
unfolding IsWalk program
one-IsChain = (refl, refl, tt)

pub two-IsChain : IsChain two (second ∷ first ∷ [])
unfolding IsWalk program
two-IsChain = (refl, refl, (refl, refl, tt))

one-fresh : get_migration one second.name ≡ none
unfolding program
one-fresh = refl

one-latest : one.latest ≡ none → second.from ≡ none
unfolding program
one-latest h = cc

add_migration-IsChain_example :
    ((second.from ≡ some "first") × IsChain (add_migration second one) (second ∷ first ∷ []))
    ⊎ ((second.from ≢ some "first") × IsChain (add_migration second one) (first ∷ []))
unfolding add_sql set_migration_from
add_migration-IsChain_example =
    add_migration-IsChain second one (first ∷ []) one-IsChain one-fresh one-latest

first_applied : recorded rows_database (some ("first" ∷ [])) ≡ ok ("first" ∷ [])
unfolding recorded applied_names from_row traverse
first_applied = refl

migrate-IsChain_example :
    (end : Run rows_database) × (migrate rows_database 2 two (some ("first" ∷ [])) ≡ some end)
    × Goes
        (apply rows_database)
        (λ e. e)
        (reverse (up_to (is_applied ("first" ∷ [])) (second ∷ first ∷ [])))
        (some ("first" ∷ []))
        end
migrate-IsChain_example =
    migrate-IsChain rows_database two 2 (second ∷ first ∷ []) (some ("first" ∷ [])) ("first" ∷ [])
      two-IsChain (omega arith) first_applied

unmigrate-IsChain_example :
    unmigrate rows_database 2 two (some ("first" ∷ []))
    ≡ some (
        downgrade_all rows_database
          (on_from (is_applied ("first" ∷ [])) (second ∷ first ∷ []))
          (some ("first" ∷ [])))
unmigrate-IsChain_example =
    unmigrate-IsChain rows_database two 2 (second ∷ first ∷ []) (some ("first" ∷ [])) ("first" ∷ [])
      two-IsChain (omega arith) first_applied

pub none_applied : recorded rows_database none ≡ ok []
unfolding recorded
none_applied = refl

applied_both :
    some (apply_all rows_database (reverse (up_to (is_applied []) (second ∷ first ∷ []))) none)
    ≡ some (some ("second" ∷ "first" ∷ []), ok tt)
unfolding program apply_all apply mark_applied up_to contains any up_sql
applied_both = refl

migrated : migrate rows_database 2 two none ≡ some (some ("second" ∷ "first" ∷ []), ok tt)
migrated =
    migrate-apply_all rows_database two 2 (second ∷ first ∷ []) none [] two-IsChain (omega arith)
      none_applied
    ∙ applied_both

migrate_applies_example :
    unapplied_migrations rows_database 2 two (some ("second" ∷ "first" ∷ [])) ≡ some (ok [])
migrate_applies_example =
    migrate_applies rows_database rows_database-Lawful two 2 (second ∷ first ∷ []) none
      (some ("second" ∷ "first" ∷ [])) [] two-IsChain (omega arith)
      (λ m _. rows_database-KeepsRecords m) none_applied migrated
