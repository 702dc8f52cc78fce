-- ===== src/Files/Types.antt =====
-- What butane_core/src/migrations/fsmigrations.rs keeps on the file system, and the formats of the
-- files. A file name that the source builds by `format!` is the field of `Folder` or `Root` that the
-- file is in, with the part that varies as the key: `{name}.table` is under `name` in `tables`,
-- `{backend}_up.sql` under `backend` in `up`. Lock files, which are empty and which nothing reads, are
-- left out. Reading a file that is not there fails; a disk that fails is not modelled.
use butane.Prelude.{String, Bool, false, Option, none, some, List, [], Result, ok, err, ◌≡◌}
use butane.Map
use butane.Map.{Map}
use butane.Value.{Externals, Error, Fault}
use butane.Schema.Keys.{TypeKey}
use butane.Schema.Types.{DeferredSqlType, ATable}

pub record MigrationInfo : Type 0 where
  pub from_name : Option String
  pub table_bases : Map String String
  pub backends : List String

-- `MigrationInfo::new` and `Default`
abbrev pub new_info : MigrationInfo
new_info = record { from_name = none; table_bases = Map.empty; backends = [] }

pub record MigrationsState : Type 0 where
  pub latest : Option String

-- `MigrationsState::new`
abbrev pub new_state : MigrationsState
new_state = record { latest = none }

-- How serde writes a type as JSON and reads it.
pub record Format (X : Externals) (A : Type 0) : Type 1 where
  pub Text : Type 0
  pub write : A → Result (Fault X) Text
  pub read : Text → Result (Fault X) A

-- What is written is read back, also with the line end that butane puts after it.
abbrev pub ReadsBack : {X : Externals} {A : Type 0} → Format X A → Type 0
ReadsBack {A = A} f = (a : A) (t : f.Text) → f.write a ≡ ok t → f.read t ≡ ok a

-- Writing does not fail, and what is written is read back.
abbrev pub Keeps : {X : Externals} {A : Type 0} → Format X A → Type 0
Keeps {A = A} f = (a : A) → (t : f.Text) × (f.write a ≡ ok t) × (f.read t ≡ ok a)

-- The formats of the files, and the error for a file that is not there.
pub record Formats (X : Externals) : Type 1 where
  pub info : Format X MigrationInfo
  pub table : Format X (ATable X)
  pub types : Format X (Map TypeKey (DeferredSqlType X))
  pub state : Format X MigrationsState
  pub not_found : X.Failure

-- The directory of a migration.
pub record Folder {X : Externals} (F : Formats X) : Type 0 where
  pub info : Option F.info.Text
  pub types : Option F.types.Text
  pub tables : Map String F.table.Text
  pub up : Map String String
  pub down : Map String String

-- The directory of the migrations, with that of each under its name, "current" among them.
pub record Root {X : Externals} (F : Formats X) : Type 0 where
  pub state : Option F.state.Text
  pub has_gitignore : Bool
  pub folders : Map String (Folder F)

module _ {X : Externals} {F : Formats X} where
  abbrev pub new_folder : Folder F
  new_folder = record {
    info = none;
    types = none;
    tables = Map.empty;
    up = Map.empty;
    down = Map.empty;
  }

  abbrev pub new_root : Root F
  new_root = record { state = none; has_gitignore = false; folders = Map.empty }

abbrev pub missing {ℓ} : {X : Externals} (F : Formats X) {A : Type ℓ} → Result (Fault X) A
missing F = err (Fault.raised (Error.external F.not_found))

-- What a file holds, if it is there.
abbrev pub found {ℓ} : {X : Externals} (F : Formats X) {A : Type ℓ} → Option A → Result (Fault X) A
found F none = missing F
found F (some a) = ok a
