-- ===== src/Foreign/Laws.antt =====
-- What loading does to a foreign key, and which foreign keys there are.
use mathlib.Core.Path.{subst}
use mathlib.Core.Path.{subst}
use mathlib.Core.Path.{subst}
use butane.Prelude.{
  Option, none, some, ok, err, both_ok, Result-cases, inl, inr, ◌⊎◌, ◌≡◌, refl, sym, ap, ◌∙◌,
}
use butane.Value.{Externals, SqlVal, Fault}
use butane.Value.Refs.{SqlValRef, from_ref}
use butane.Database.{Database}
use butane.Query.Get
use butane.Foreign.Types.{
  Referred, ForeignKey, get_or_init_once_lock, unwrap, stored_key, fetch_by, new_raw, from_pk,
  from_object, get, pk, ensure_valpk, from_sql_ref, load,
}

-- A foreign key with the object kept.
abbrev pub with_object :
    {X : Externals} {T : Referred X} → T.object.Object → ForeignKey X T → ForeignKey X T
with_object obj fk = record fk { val = some obj }

module _ {X : Externals} (T : Referred X) (D : Database X) where
  fetched_key :
      (valpk : Option (SqlVal X)) (s : D.State) (obj : T.object.Object)
      → ((id : SqlVal X) (o : T.object.Object)
          → Get.get D T.object id s ≡ ok o
          → T.keys.to_sql (T.pk o) ≡ ok id)
      → ((key : T.keys.Key) (v : SqlVal X) → T.keys.to_sql key ≡ ok v → T.keys.from_sql v ≡ ok key)
      → fetch_by T D valpk s ≡ ok obj
      → stored_key T valpk ≡ ok (T.pk obj)
  fetched_key none s obj finds round_trip h = absurd (cc)
  fetched_key (some v) s obj finds round_trip h =
      let (key, read, h1) = both_ok (T.keys.from_sql v) _ h in
      let (id, written, h2) = both_ok (T.keys.to_sql key) _ h1 in
      let one = round_trip key id written in
      let other = round_trip (T.pk obj) id (finds id obj h2) in
      let same_key : key ≡ T.pk obj = cc in ap unwrap (read ∙ ap ok same_key)

module _ {X : Externals} {T : Referred X} (D : Database X) where
  load_there :
      (fk : ForeignKey X T) (obj : T.object.Object) (s : D.State)
      → load D (with_object obj fk) s ≡ (with_object obj fk, ok obj)
  unfolding load get_or_init_once_lock
  load_there fk obj s = refl

  -- How a load ends, by what is in the cells.
  abbrev pub Loaded : ForeignKey X T → D.State → Type 0
  Loaded fk s =
      ((f : Fault X) × (fetch_by T D fk.valpk s ≡ err f) × (load D fk s ≡ (fk, err f)))
      ⊎ ((obj : T.object.Object) × ((fk.val ≡ some obj)
            ⊎ ((fk.val ≡ none) × (fetch_by T D fk.valpk s ≡ ok obj)))
          × (load D fk s ≡ (with_object obj fk, ok obj)))

  load-Loaded :
      (val : Option T.object.Object) (valpk : Option (SqlVal X)) (s : D.State)
      → Loaded (record { val = val; valpk = valpk }) s
  unfolding load get_or_init_once_lock
  load-Loaded (some obj) valpk s = inr (obj, inl refl, refl)
  load-Loaded none valpk s = elim (Result-cases (fetch_by T D valpk s)) [
    | inl (f, e) ↦ inl (f, e, rw e refl)
    | inr (obj, e) ↦ inr (obj, inr (refl, e), rw e refl)
  ]

  -- Loading either fails and leaves the foreign key as it was, or keeps the object: it can be had without
  -- the database, and loading again gives it whatever the database has become.
  pub load_keeps :
      (fk : ForeignKey X T) (s : D.State)
      → ((f : Fault X) × (load D fk s ≡ (fk, err f)))
        ⊎ ((obj : T.object.Object) × (load D fk s ≡ (with_object obj fk, ok obj))
            × (get (with_object obj fk) ≡ ok obj)
            × ((later : D.State)
                → load D (with_object obj fk) later ≡ (with_object obj fk, ok obj)))
  unfolding get
  load_keeps fk s = elim (load-Loaded fk.val fk.valpk s) [
    | inl (f, _, e) ↦ inl (f, e)
    | inr (obj, _, e) ↦ inr (obj, e, refl, λ later. load_there fk obj later)
  ]

  -- Loading does not change the key that a foreign key gives, if the database finds objects by their
  -- keys and keys are read back from what they are stored as.
  pub pk-load :
      (fk : ForeignKey X T) (s : D.State)
      → ((id : SqlVal X) (o : T.object.Object)
          → Get.get D T.object id s ≡ ok o
          → T.keys.to_sql (T.pk o) ≡ ok id)
      → ((key : T.keys.Key) (v : SqlVal X) → T.keys.to_sql key ≡ ok v → T.keys.from_sql v ≡ ok key)
      → pk (load D fk s).0 ≡ pk fk
  unfolding pk
  pk-load fk s finds round_trip = elim (load-Loaded fk.val fk.valpk s) [
    | inl (f, _, e) ↦ ap (λ out. pk out.0) e
    | inr (obj, inl there, e) ↦ ap (λ out. pk out.0) e ∙ rw (pk, there) refl
    | inr (obj, inr (empty, fetched), e) ↦
        ap (λ out. pk out.0) e
        ∙ rw (pk, empty) (sym (fetched_key T D fk.valpk s obj finds round_trip fetched))
  ]

-- The foreign keys that the operations make.
pub data Made {X : Externals} {T : Referred X} (D : Database X) : ForeignKey X T → Type 0 where
  by_pk : {fk : ForeignKey X T} (key : T.keys.Key) → from_pk {T = T} key ≡ ok fk → Made D fk
  by_object : (obj : T.object.Object) → Made D (from_object {T = T} obj)
  by_row : {fk : ForeignKey X T} (r : SqlValRef X) → from_sql_ref {T = T} r ≡ ok fk → Made D fk
  stored : {fk : ForeignKey X T} → Made D fk → Made D (ensure_valpk fk).0
  loaded : {fk : ForeignKey X T} (s : D.State) → Made D fk → Made D (load D fk s).0

-- One of the cells is filled.
abbrev pub IsFilled : {X : Externals} (T : Referred X) → ForeignKey X T → Type 0
IsFilled {X = X} T fk =
    ((obj : T.object.Object) × (fk.val ≡ some obj)) ⊎ ((v : SqlVal X) × (fk.valpk ≡ some v))

stored_cells :
    {X : Externals} (T : Referred X) (val : Option T.object.Object) (valpk : Option (SqlVal X))
    → IsFilled T (record { val = val; valpk = valpk })
    → IsFilled T (ensure_valpk {T = T} (record { val = val; valpk = valpk })).0
unfolding ensure_valpk
stored_cells T val (some v) h = h
stored_cells T none none h = h
stored_cells T (some obj) none h = elim (Result-cases (T.keys.to_sql (T.pk obj))) [
  | inl (f, e) ↦ rw e (inl (obj, refl))
  | inr (v, e) ↦ rw e (inl (obj, refl))
]

module _ {X : Externals} {T : Referred X} (D : Database X) where
  stored-IsFilled : (fk : ForeignKey X T) → IsFilled T fk → IsFilled T (ensure_valpk fk).0
  stored-IsFilled fk h = stored_cells T fk.val fk.valpk h

  loaded-IsFilled : (fk : ForeignKey X T) (s : D.State) → IsFilled T fk → IsFilled T (load D fk s).0
  loaded-IsFilled fk s h = elim (load-Loaded {T = T} D fk.val fk.valpk s) [
    | inl (f, _, e) ↦ subst (λ out. IsFilled T out.0) (sym e) h
    | inr (obj, _, e) ↦ subst (λ out. IsFilled T out.0) (sym e) (inl (obj, refl))
  ]

  -- Every foreign key that the operations make has its object or its key.
  pub Made-IsFilled : (fk : ForeignKey X T) → Made D fk → IsFilled T fk
  unfolding from_pk from_object from_sql_ref
  Made-IsFilled fk (Made.by_pk key e) =
      let (v, _, e') = both_ok (T.keys.to_sql key) _ e in
      let same_key : record (new_raw {T = T}) { valpk = some v } ≡ fk = cc in
      inr (v, sym (ap (λ k. k.valpk) same_key))
  Made-IsFilled _ (Made.by_object obj) = inl (obj, refl)
  Made-IsFilled fk (Made.by_row r e) =
      let (v, _, e') = both_ok (from_ref r) _ e in
      let same_key : record (new_raw {T = T}) { valpk = some v } ≡ fk = cc in
      inr (v, sym (ap (λ k. k.valpk) same_key))
  Made-IsFilled _ (Made.stored {fk = fk} m) = stored-IsFilled fk (Made-IsFilled fk m)
  Made-IsFilled _ (Made.loaded {fk = fk} s m) = loaded-IsFilled fk s (Made-IsFilled fk m)
