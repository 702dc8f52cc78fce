-- ===== src/Cli/Forward.antt =====
-- `migrate` of butane_cli/src/lib.rs against the series of migrations as a list, newest first.
use mathlib.Core.List.{reverse}
use butane.Prelude.{
  ℕ, ◌≤◌, String, Bool, true, false, none, some, List, [], ◌∷◌, length, find, contains, ok, ◌==◌,
  ◌≡◌, refl, ap, arith, inl, inr, Bool-cases, Option-cases, ◌∙◌, if◌then◌else◌,
}
use butane.Prelude.Ord.{same, same_iff, string_ord}
use butane.Value.{Externals}
use butane.Database.{Database}
use butane.Migrations.Listing.{before, up_to}
use butane.Migrations.Pending.{recorded}
use butane.Files.Types.{Formats, Root}
use butane.Files.Chain.{IsChain, since_files, all_migrations-lists, migrations_since-lists}
use butane.Cli.Types.{unapplied_migrations}
use butane.Cli.Rollback.{last_applied-lists}

-- Whether a migration is recorded under these names.
abbrev pub is_recorded : List String → String → Bool
is_recorded names m = contains m names

find-is_recorded :
    (names l : List String) (m : String)
    → find (is_recorded names) l ≡ some m
    → is_recorded names m ≡ true
unfolding find
find-is_recorded names [] m h = cc
find-is_recorded names (k ∷ l) m h = elim (Bool-cases (is_recorded names k)) [
  | inl e ↦ ground (arith, h, e)
  | inr e ↦ find-is_recorded names l m (ground (arith, h, e))
]

none_recorded :
    (names l : List String) → find (is_recorded names) l ≡ none → up_to (is_recorded names) l ≡ l
unfolding find up_to
none_recorded names [] h = refl
none_recorded names (k ∷ l) h = ground (arith, none_recorded names l)

before-recorded :
    (names l : List String) (m : String)
    → find (is_recorded names) l ≡ some m
    → before (λ k. same k m) l ≡ some (up_to (is_recorded names) l)
unfolding find up_to before
before-recorded names [] m h = cc
before-recorded names (k ∷ l) m h = elim (Bool-cases (is_recorded names k)) [
  | inl e ↦ ground (arith, h, e, same_iff k m)
  | inr e ↦
      let later : find (is_recorded names) l ≡ some m = ground (arith, h, e) in
      let found = find-is_recorded names l m later in
      let recur = before-recorded names l m later in
      elim (Bool-cases (same k m)) [
        | inl q ↦ absurd (let n = (same_iff k m).0 q in cc)
        | inr q ↦ rw (e, q, recur) refl
      ]
]

-- The names up to a name and with it, or all where it is not among them.
unfoldable pub through : String → List String → List String
through name [] = []
through name (m ∷ l) = if name == m then m ∷ [] else m ∷ through name l

-- What is run where a list of names is cut after the first, and where it is not.
abbrev cut : Bool → String → String → List String → List String
cut true name m l = m ∷ []
cut false name m l = m ∷ through name l

module _ {X : Externals} {F : Formats X} (D : Database X) where
  -- The migrations that are not applied are those of the chain after the newest that is recorded.
  pub unapplied_lists :
      (root : Root F) (fuel : ℕ) (l : List String) (s : D.State) (names : List String)
      → IsChain root l
      → length l ≤ fuel
      → recorded D s ≡ ok names
      → unapplied_migrations D fuel root s ≡ some (ok (reverse (up_to (is_recorded names) l)))
  unfolding unapplied_migrations
  unapplied_lists root fuel l s names h enough known =
      let last = last_applied-lists D root fuel l s names h enough known in
      elim (Option-cases (find (is_recorded names) l)) [
        | inl e ↦ rw (last, e, none_recorded names l e) (all_migrations-lists root fuel l h enough)
        | inr (m, e) ↦
            rw (last, e)
              (migrations_since-lists root m fuel l h enough
                ∙ ap (λ o. some (since_files o)) (before-recorded names l m e))
      ]
