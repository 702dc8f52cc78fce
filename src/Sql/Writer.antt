-- ===== src/Sql/Writer.antt =====
-- What `sql_for_expr` writes to: the text, the values that the placeholders stand for, and the source
-- of placeholders, which each backend implements.
use native.Mathlib.Nat.{zero-add, suc-add}
use butane.Prelude.{
  ℕ, zero, suc, join, ◌+◌, ◌≡◌, String, List, [], ◌∷◌, ◌++◌, ◌<>◌, Bool, if◌then◌else◌, contains,
}
use butane.Value.{Externals, SqlVal}

-- One entry if the test holds.
abbrev pub when : Bool → String → List String
when b s = if b then s ∷ [] else []

-- `format!` of a column with or without constraints
abbrev pub with_constraints : List String → String → String
with_constraints [] s = s
with_constraints (c ∷ cs) s = s <> " " <> join " " (c ∷ cs)

-- The trait `PlaceholderSource`.
pub record PlaceholderSource : Type 1 where
  pub Source : Type 0
  pub start : Source
  pub text : Source → String
  pub advance : Source → Source

-- The source after a number of placeholders.
unfoldable pub after : (P : PlaceholderSource) → ℕ → P.Source → P.Source
after P zero s = s
after P (suc n) s = after P n (P.advance s)

pub after-add :
    (P : PlaceholderSource) (m n : ℕ) (s : P.Source) → after P (m + n) s ≡ after P n (after P m s)
unfolding after
after-add P zero n s = rw zero-add
after-add P (suc m) n s = rw suc-add (after-add P m n (P.advance s))

pub record Out (X : Externals) (P : PlaceholderSource) : Type 0 where
  pub w : String
  pub values : List (SqlVal X)
  pub pls : P.Source

module _ (X : Externals) where
  -- A word that is a keyword of SQL is quoted.
  unfoldable pub quote_reserved_word : String → String
  unfolding contains
  quote_reserved_word word =
      if contains (X.to_uppercase word) X.keywords then "\"" <> word <> "\"" else word

module _ {X : Externals} {P : PlaceholderSource} where
  abbrev pub emit : String → Out X P → Out X P
  emit s out = record out { w = out.w <> s }

  -- `w.write_str(&pls.next_placeholder())`
  abbrev pub next_placeholder : Out X P → Out X P
  next_placeholder out = record out { w = out.w <> P.text out.pls; pls = P.advance out.pls }

  abbrev pub push_value : SqlVal X → Out X P → Out X P
  push_value v out = record out { values = out.values ++ (v ∷ []) }
