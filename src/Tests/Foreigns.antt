-- ===== src/Tests/Foreigns.antt =====
-- Foreign keys to a table that has every number, while it is there.
use butane.Prelude.{
  ℤ, Bool, true, false, Option, none, some, List, [], ◌∷◌, traverse, Result, ok, err, ◌≡◌, refl,
  ◌⊎◌, sym, ap,
}
use butane.Value.{SqlType, SqlVal, Error, Fault}
use butane.Value.Equality.{val_eq}
use butane.Query.Types.{BoolExpr, Expr}
use butane.Query.Build
use butane.Query.Load
use butane.Query.Get
use butane.Database.{Database, DataObject}
use butane.Foreign.Types.{
  Referred, ForeignKey, get_or_init_once_lock, from_pk, get, pk, ensure_valpk, eq, load,
}
use butane.Foreign.Laws.{with_object, load_keeps, pk-load}
use butane.Tests.Fixtures.{plain}

abbrev absent {ℓ} : {A : Type ℓ} → Result (Fault plain) A
absent = err (Fault.raised (Error.internal "absent"))

abbrev number_of : SqlVal plain → Result (Fault plain) ℤ
number_of (SqlVal.int i) = ok i
number_of _ = absent

abbrev number_in : List (SqlVal plain) → Result (Fault plain) ℤ
number_in (v ∷ []) = number_of v
number_in _ = absent

abbrev wanted : Option (BoolExpr plain) → Result (Fault plain) (List (List (SqlVal plain)))
wanted (some (BoolExpr.eq _ (Expr.val v))) = ok ((v ∷ []) ∷ [])
wanted _ = absent

abbrev rows : Bool → Option (BoolExpr plain) → Result (Fault plain) (List (List (SqlVal plain)))
rows false filter = ok []
rows true filter = wanted filter

abbrev numbers : Database plain
numbers = record {
  State = Bool;
  backend_name = "sqlite";
  has_table = λ _ s. ok s;
  query = λ _ _ filter _ _ _ s. rows s filter;
  insert_only = λ _ _ _ _. absent;
  delete_where = λ _ _ _. absent;
  execute = λ _ _. absent;
  transaction = λ s. ok s;
  commit = λ s. ok s;
}

abbrev number_object : DataObject plain
number_object = record {
  Object = ℤ;
  table = "number";
  pkcol = "id";
  columns = record { name = "id"; ty = SqlType.int } ∷ [];
  pk_type = SqlType.int;
  pk_is_valid = λ _. true;
  pk_to_sql = λ n. ok (SqlVal.int n);
  from_row = number_in;
}

abbrev referred : Referred plain
referred = record {
  object = number_object;
  keys = record {
    Key = ℤ;
    is_valid = λ _. true;
    key_eq = λ a b. val_eq {X = plain} (SqlVal.int a) (SqlVal.int b);
    to_sql = λ i. ok (SqlVal.int i);
    from_sql = number_of;
  };
  pk = λ n. n;
}

abbrev unloaded : ForeignKey plain referred
unloaded = record { val = none; valpk = some (SqlVal.int (ℤ.pos 7)) }

loading : Unit {0}
unfolding load get_or_init_once_lock Get.get Get.try_get Load.load Load.fetch traverse Build.limit
    Build.filter Build.new from_pk pk ensure_valpk eq val_eq
loading = tt

load_run : load numbers unloaded true ≡ (with_object (ℤ.pos 7) unloaded, ok (ℤ.pos 7))
unfolding loading
load_run = refl

gone_run : load numbers unloaded false ≡ (unloaded, err (Fault.raised Error.no_such_object))
unfolding loading
gone_run = refl

eq_run : eq unloaded (ℤ.pos 7) ≡ ok true
unfolding loading
eq_run = refl

load_keeps_example :
    ((f : Fault plain) × (load numbers unloaded true ≡ (unloaded, err f)))
    ⊎ ((obj : ℤ) × (load numbers unloaded true ≡ (with_object obj unloaded, ok obj))
        × (get (with_object obj unloaded) ≡ ok obj)
        × ((later : Bool)
            → load numbers (with_object obj unloaded) later ≡ (with_object obj unloaded, ok obj)))
load_keeps_example = load_keeps numbers unloaded true

wrong_row :
    (id : SqlVal plain) (o : ℤ) → Get.get numbers number_object id true ≡ ok o → SqlVal.int o ≡ id
unfolding loading
wrong_row (SqlVal.int i) o h = cc
wrong_row _ o h = absurd (cc)

no_row :
    (id : SqlVal plain) (o : ℤ) → Get.get numbers number_object id false ≡ ok o → SqlVal.int o ≡ id
unfolding loading
no_row id o h = absurd (cc)

finds :
    (id : SqlVal plain) (s : Bool) (o : ℤ)
    → Get.get numbers number_object id s ≡ ok o
    → referred.keys.to_sql o ≡ ok id
finds id true o h = ap ok (wrong_row id o h)
finds id false o h = ap ok (no_row id o h)

reads_back : (key : ℤ) (v : SqlVal plain) → referred.keys.to_sql key ≡ ok v → number_of v ≡ ok key
reads_back key v h = let e : SqlVal.int key ≡ v = cc in ap number_of (sym e)

pk-load_example : pk (load numbers unloaded true).0 ≡ pk unloaded
pk-load_example = pk-load numbers unloaded true (λ id o h. finds id true o h) reads_back
