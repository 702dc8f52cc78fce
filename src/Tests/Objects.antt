-- ===== src/Tests/Objects.antt =====
-- Objects with automatic keys, saved to a database that counts the keys it gives.
use butane.Prelude.{
  ℕ, suc, ℤ, String, true, false, [], ◌∷◌, length, ◌=ℕ◌, Result, ok, err, ◌≡◌, refl, if◌then◌else◌,
}
use butane.Value.{SqlType, SqlVal, Error, Fault}
use butane.Value.Equality.{val_eq}
use butane.Object.Keys.{
  PrimaryKeyType, initialize, AutoPk, uninitialized, with_value, auto_is_valid, auto_from_sql,
  auto_eq, auto_key,
}
use butane.Object.Save.{RowDatabase, Model, update_row, save_row}
use butane.Object.Laws.{LawfulKey, auto_key-LawfulKey, save_row_again}
use butane.Tests.Fixtures.{plain}

abbrev unfit {ℓ} : {A : Type ℓ} → Result (Fault plain) A
unfit = err (Fault.raised (Error.internal "unfit"))

abbrev read_number : SqlVal plain → Result (Fault plain) ℤ
read_number (SqlVal.int i) = ok i
read_number _ = unfit

abbrev number_key : PrimaryKeyType plain
number_key = record {
  Key = ℤ;
  is_valid = λ _. true;
  key_eq = λ a b. val_eq {X = plain} (SqlVal.int a) (SqlVal.int b);
  to_sql = λ i. ok (SqlVal.int i);
  from_sql = read_number;
}

number_round_trip : (k : ℤ) (v : SqlVal plain) → number_key.to_sql k ≡ ok v → read_number v ≡ ok k
number_round_trip k v h = let e : SqlVal.int k ≡ v = cc in rw (← e) refl

number_key-LawfulKey : LawfulKey number_key
number_key-LawfulKey = record {
  from_sql_valid = λ v k h. refl;
  round_trip = λ k v valid h. number_round_trip k v h;
}

abbrev counter : RowDatabase plain
counter = record {
  State = ℕ;
  insert_returning_pk = λ _ _ _ _ s. ok (suc s, SqlVal.int (ℤ.pos s));
  insert_or_replace = λ _ _ _ _ s. ok s;
  update = λ _ _ _ _ _ s. ok s;
  delete = λ _ _ _ s. ok s;
}

abbrev note_model : Model plain counter
note_model = record {
  keys = auto_key number_key;
  Object = AutoPk number_key × String;
  table = "note";
  pkcol = "id";
  pk_type = SqlType.int;
  auto_pk = true;
  columns =
      record { name = "id"; ty = SqlType.int } ∷ record { name = "text"; ty = SqlType.text } ∷ [];
  non_auto_columns = record { name = "text"; ty = SqlType.text } ∷ [];
  pk = λ o. o.0;
  set_pk = λ key o. (key, o.1);
  non_auto_values = λ _ o. SqlVal.text o.1 ∷ [];
  save_many_to_many = λ o s. (o, s, ok tt);
}

abbrev unsaved_note : AutoPk number_key × String
unsaved_note = (uninitialized number_key, "milk")

abbrev saved_note : AutoPk number_key × String
saved_note = (with_value number_key (ℤ.pos 4), "milk")

note_saved : save_row note_model unsaved_note 4 ≡ (saved_note, 5, ok tt)
unfolding save_row initialize auto_is_valid auto_from_sql
note_saved = refl

-- Keys that are not valid are equal to nothing, themselves included.
unsaved_unequal : auto_eq number_key (uninitialized number_key) (uninitialized number_key) ≡ false
unfolding auto_eq
unsaved_unequal = refl

save_row_again_example :
    (note_model.keys.is_valid (note_model.pk saved_note) ≡ true)
    × (save_row note_model saved_note 5 ≡ (
        if length note_model.columns =ℕ 1
        then (saved_note, 5, ok tt)
        else update_row note_model saved_note 5))
save_row_again_example =
    save_row_again note_model (auto_key-LawfulKey number_key number_key-LawfulKey) (λ key o. refl)
      unsaved_note saved_note 4 5 refl note_saved
