-- ===== src/Object/Laws.antt =====
-- What saving leaves in an object, for keys that convert back and forth.
use butane.Prelude.{
  Bool, true, false, ◌=ℕ◌, Option, none, some, length, Result, ok, err, both_ok, ◌≡◌, refl, sym, ap,
  ◌∙◌, if◌then◌else◌,
}
use butane.Value.{Externals, SqlVal, Fault}
use butane.Object.Keys.{
  PrimaryKeyType, initialize, AutoPk, with_value, auto_is_valid, auto_to_sql, auto_from_sql,
  auto_key,
}
use butane.Object.Save.{
  RowDatabase, Model, put_key, keep_key, keep_state, update_row, row_by, save_row,
}

-- A key that is read from a value is valid, and a valid key is read back from its value.
pub record LawfulKey {X : Externals} (K : PrimaryKeyType X) : Type 0 where
  pub from_sql_valid : (v : SqlVal X) (k : K.Key) → K.from_sql v ≡ ok k → K.is_valid k ≡ true
  pub round_trip :
      (k : K.Key) (v : SqlVal X) → K.is_valid k ≡ true → K.to_sql k ≡ ok v → K.from_sql v ≡ ok k

module _ {X : Externals} (K : PrimaryKeyType X) (lawful : LawfulKey K) where
  auto_from_sql-valid :
      (v : SqlVal X) (k : AutoPk K) → auto_from_sql K v ≡ ok k → auto_is_valid K k ≡ true
  unfolding auto_from_sql auto_is_valid
  auto_from_sql-valid v k h =
      let (val, read, e) = both_ok (K.from_sql v) _ h in
      let same : with_value K val ≡ k = cc in rw (← same) (lawful.from_sql_valid v val read)

  inner_round_trip :
      (i : Option K.Key) (v : SqlVal X)
      → auto_is_valid K (record { inner = i }) ≡ true
      → auto_to_sql K (record { inner = i }) ≡ ok v
      → auto_from_sql K v ≡ ok (record { inner = i })
  unfolding auto_from_sql auto_is_valid auto_to_sql
  inner_round_trip none v valid h = absurd cc
  inner_round_trip (some key) v valid h = rw (lawful.round_trip key v valid h) refl

  -- A valid key in an `AutoPk` is read back from the value that it is stored as, if the keys inside
  -- convert back and forth.
  pub auto_from_sql-auto_to_sql :
      (k : AutoPk K) (v : SqlVal X)
      → auto_is_valid K k ≡ true
      → auto_to_sql K k ≡ ok v
      → auto_from_sql K v ≡ ok k
  auto_from_sql-auto_to_sql k v valid h = inner_round_trip k.inner v valid h

  -- Keys that convert back and forth do so in an `AutoPk`.
  pub auto_key-LawfulKey : LawfulKey (auto_key K)
  auto_key-LawfulKey = record {
    from_sql_valid = auto_from_sql-valid;
    round_trip = auto_from_sql-auto_to_sql;
  }

module _ {X : Externals} {D : RowDatabase X} (T : Model X D) (lawful : LawfulKey T.keys)
    (pk_set : (key : T.keys.Key) (o : T.Object) → T.pk (T.set_pk key o) ≡ key) where
  put_key-valid :
      (o o' : T.Object) (s s' : D.State) (v : SqlVal X) (r : Result (Fault X) T.keys.Key)
      → T.keys.from_sql v ≡ r
      → put_key T o s r ≡ (o', s', ok tt)
      → T.keys.is_valid (T.pk o') ≡ true
  put_key-valid o o' s s' v (ok key) read h =
      let same : T.set_pk key o ≡ o' = ap (λ r. r.0) h in
      rw (← same, pk_set) (lawful.from_sql_valid v key read)
  put_key-valid o o' s s' v (err e) read h = let q : err e ≡ ok tt = ap (λ r. r.2) h in absurd cc

  keep_key-valid :
      (o o' : T.Object) (s s' : D.State) (r : Result (Fault X) (D.State × SqlVal X))
      → T.keys.is_valid (T.pk o) ≡ false
      → keep_key T o s r ≡ (o', s', ok tt)
      → T.keys.is_valid (T.pk o') ≡ true
  unfolding initialize
  keep_key-valid o o' s s' (ok (s1, v)) unset h =
      put_key-valid o o' s1 s' v (initialize T.keys v (T.pk o)) (rw unset refl) h
  keep_key-valid o o' s s' (err e) unset h = let q : err e ≡ ok tt = ap (λ r. r.2) h in absurd cc

  keep_state-same :
      (o o' : T.Object) (s s' : D.State) (r : Result (Fault X) D.State)
      → keep_state T o s r ≡ (o', s', ok tt)
      → o' ≡ o
  keep_state-same o o' s s' (ok s1) h = sym (ap (λ r. r.0) h)
  keep_state-same o o' s s' (err e) h = sym (ap (λ r. r.0) h)

  row_by-saved :
      (one : Bool) (o : T.Object) (s : D.State)
      → row_by T true one true o s ≡ (if one then (o, s, ok tt) else update_row T o s)
  row_by-saved true o s = refl
  row_by-saved false o s = refl

  row_by-valid :
      (one valid : Bool) (o o' : T.Object) (s s' : D.State)
      → T.keys.is_valid (T.pk o) ≡ valid
      → row_by T true one valid o s ≡ (o', s', ok tt)
      → T.keys.is_valid (T.pk o') ≡ true
  unfolding update_row
  row_by-valid true true o o' s s' now h = let same : o ≡ o' = ap (λ r. r.0) h in rw (← same) now
  row_by-valid true false o o' s s' now h = keep_key-valid o o' s s' _ now h
  row_by-valid false true o o' s s' now h = rw (keep_state-same o o' s s' _ h) now
  row_by-valid false false o o' s s' now h = keep_key-valid o o' s s' _ now h

  -- When the row of an object with an automatic key has been saved, the key is valid, and saving the
  -- row again inserts nothing: it updates the row, or does nothing if the key is the only column. The
  -- keys convert back and forth, and a key that is put into an object is its key.
  pub save_row_again :
      (o o' : T.Object) (s s' : D.State)
      → T.auto_pk ≡ true
      → save_row T o s ≡ (o', s', ok tt)
      → (T.keys.is_valid (T.pk o') ≡ true)
        × (save_row T o' s'
            ≡ (if length T.columns =ℕ 1 then (o', s', ok tt) else update_row T o' s'))
  unfolding save_row
  save_row_again o o' s s' auto h =
      let one = length T.columns =ℕ 1 in
      let opened = ap (λ b. row_by T b one (T.keys.is_valid (T.pk o)) o s) (sym auto) ∙ h in
      let valid = row_by-valid one (T.keys.is_valid (T.pk o)) o o' s s' refl opened in
      (
        valid,
        ap (λ b. row_by T b one (T.keys.is_valid (T.pk o')) o' s') auto
            ∙ ap (λ b. row_by T true one b o' s') valid
            ∙ row_by-saved one o' s',
      )
