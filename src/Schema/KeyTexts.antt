-- ===== src/Schema/KeyTexts.antt =====
-- The text of a `TypeKey` as a key of a JSON object: its `Serialize` and its `TypeKeyVisitor` of
-- butane_core/src/migrations/adb.rs.
use Prim.Native.String.{len, slice, compare}
use text.Mathlib.Text.{starts_with, is_char_boundary, is_eq}
use text.Mathlib.TextEquality.{starts_with_iff}
use text.Mathlib.TextPositions.{
  slice-append_right, starts_with-append, slice-append_left, boundary-append, len-append,
}
use butane.Prelude.{
  ℕ, String, true, false, Option, none, some, Result, ok, err, ◌<>◌, ◌+◌, Bool-cases, Option-cases,
  ◌≢◌, inl, inr, ◌≡◌, ◌↔◌, refl, sym, ap, ◌∙◌, if◌then◌else◌,
}
use butane.Prelude.Partial.{◌>>=◌}
use butane.Schema.Keys.{TypeKey}

unfoldable pub serialize_key : TypeKey → String
serialize_key (TypeKey.pk s) = "PK:" <> s
serialize_key (TypeKey.custom_type s) = "CT:" <> s

-- `String::split_off`: it panics past the end and inside a character.
unfoldable pub split_off : String → ℕ → Option String
split_off v i = if is_char_boundary v i then some (slice v i (len v)) else none

-- `TypeKeyVisitor::visit_str`, where `none` is a panic.
unfoldable pub visit_str : String → Option (Result String TypeKey)
visit_str v = do
  rest ← split_off v 3
  some (
      if starts_with v "PK:"
      then ok (TypeKey.pk rest)
      else if starts_with v "CT:"
      then ok (TypeKey.custom_type rest)
      else err "Unknown type key string")

split_off_prefix : (p s : String) → len p ≡ 3 → split_off (p <> s) 3 ≡ some s
unfolding split_off
split_off_prefix p s e =
    let at_three : is_char_boundary (p <> s) 3 ≡ true =
      ap (is_char_boundary (p <> s)) (sym e) ∙ boundary-append p s in
    let ends : len (p <> s) ≡ len p + len s = len-append p s in
    let rest : slice (p <> s) 3 (len (p <> s)) ≡ s =
      ap (λ i. slice (p <> s) i (len (p <> s))) (sym e)
      ∙ ap (slice (p <> s) (len p)) ends
      ∙ slice-append_right p s in
    rw (at_three, rest) refl

-- The reader finds the prefix of a key of either kind.
visit_str-written : (key : TypeKey) → visit_str (serialize_key key) ≡ some (ok key)
unfolding visit_str serialize_key
visit_str-written (TypeKey.pk s) =
    rw (split_off_prefix "PK:" s refl, starts_with-append "PK:" s) refl
visit_str-written (TypeKey.custom_type s) =
    let other : starts_with ("CT:" <> s) "PK:" ≡ false =
      ap (λ v. is_eq (compare v "PK:")) (slice-append_left "CT:" s) in
    rw (split_off_prefix "CT:" s refl, other, starts_with-append "CT:" s) refl

-- What begins with neither prefix is no key.
visit_str-unknown :
    (v : String) (key : TypeKey)
    → starts_with v "PK:" ≡ false
    → starts_with v "CT:" ≡ false
    → visit_str v ≢ some (ok key)
unfolding visit_str
visit_str-unknown v key e f h = elim (Option-cases (split_off v 3)) [
  | inl g ↦ let none_read : visit_str v ≡ none = rw (visit_str, g) refl in cc
  | inr (rest, g) ↦
      let unread : visit_str v ≡ some (err "Unknown type key string") =
        rw (visit_str, g, e, f) refl in
      cc
]

visit_str_prefixed :
    (p v : String) (key : TypeKey) (make : String → TypeKey)
    → ((s : String) → serialize_key (make s) ≡ p <> s)
    → starts_with v p ≡ true
    → visit_str v ≡ some (ok key)
    → v ≡ serialize_key key
visit_str_prefixed p v key make same_text starts h =
    let (s, e) = (starts_with_iff v p).0 starts in
    let text : serialize_key (make s) ≡ v = same_text s ∙ e in
    let again = visit_str-written (make s) in
    let read : visit_str v ≡ some (ok (make s)) = ap visit_str (sym text) ∙ again in
    let same_key : make s ≡ key = cc in sym text ∙ ap serialize_key same_key

-- A text is read as a key exactly where it is the text of that key.
pub visit_str-serialize_key :
    (v : String) (key : TypeKey) → (visit_str v ≡ some (ok key)) ↔ (v ≡ serialize_key key)
unfolding serialize_key
visit_str-serialize_key v key = (
  λ h. elim (Bool-cases (starts_with v "PK:")) [
    | inl e ↦ visit_str_prefixed "PK:" v key TypeKey.pk (λ s. refl) e h
    | inr e ↦ elim (Bool-cases (starts_with v "CT:")) [
      | inl f ↦ visit_str_prefixed "CT:" v key TypeKey.custom_type (λ s. refl) f h
      | inr f ↦ absurd (visit_str-unknown v key e f h)
    ]
  ],
  λ e. ap visit_str e ∙ visit_str-written key,
)
