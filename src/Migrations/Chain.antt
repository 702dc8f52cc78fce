-- ===== src/Migrations/Chain.antt =====
-- The chain of migrations that the names of their predecessors make, from the latest back, as a list.
use butane.Prelude.{
  String, true, Option, none, some, List, [], ◌∷◌, ◌≡◌, refl, arith, inl, inr, Bool-cases,
  Option-cases, if◌then◌else◌, false, sym, ap, ◌∙◌, ◌≢◌, ◌⊎◌,
}
use butane.Prelude.Ord.{string_ord, same, same_iff}
use butane.Map.{get-insert}
use butane.Value.{Externals}
use butane.Migrations.Types.{
  MemMigration, MemMigrations, get_migration, is_new_latest, add_migration,
}

module _ {X : Externals} where
  -- Going back from a name meets the migrations of the list, and then one that has no predecessor.
  unfoldable pub IsWalk : MemMigrations X → Option String → List (MemMigration X) → Type 0
  IsWalk ms none [] = Unit
  IsWalk ms none (m ∷ l) = ⊥
  IsWalk ms (some n) [] = ⊥
  IsWalk ms (some n) (m ∷ l) = (get_migration ms n ≡ some m) × (m.name ≡ n) × IsWalk ms m.from l

  abbrev pub IsChain : MemMigrations X → List (MemMigration X) → Type 0
  IsChain ms l = IsWalk ms ms.latest l

  get-add_migration :
      (m : MemMigration X) (ms : MemMigrations X) (n : String)
      → get_migration (add_migration m ms) n
        ≡ (if same m.name n then some m else get_migration ms n)
  unfolding get_migration add_migration
  get-add_migration m ms n = get-insert m.name n m ms.migrations

  -- Under a name that is new, a migration leaves every walk as it is.
  add_migration-IsWalk :
      (m : MemMigration X) (ms : MemMigrations X) (c : Option String) (l : List (MemMigration X))
      → get_migration ms m.name ≡ none
      → IsWalk ms c l
      → IsWalk (add_migration m ms) c l
  unfolding IsWalk
  add_migration-IsWalk m ms none [] fresh h = h
  add_migration-IsWalk m ms none (k ∷ l) fresh h = elim h [ ]
  add_migration-IsWalk m ms (some n) [] fresh h = elim h [ ]
  add_migration-IsWalk m ms (some n) (k ∷ l) fresh (here, named, rest) = (
    ground (arith, get-add_migration m ms n, same_iff m.name n),
    named,
    add_migration-IsWalk m ms k.from l fresh rest,
  )

  -- A migration becomes the latest only after the latest.
  is_new_latest-from :
      (m : MemMigration X) (ms : MemMigrations X)
      → is_new_latest ms m ≡ true
      → (ms.latest ≡ none → m.from ≡ none)
      → m.from ≡ ms.latest
  unfolding is_new_latest
  is_new_latest-from m ms h first = elim (Option-cases ms.latest) [
    | inl e ↦ rw (e) (first e)
    | inr (k, e) ↦ elim (Option-cases m.from) [
      | inl f ↦ absurd (ground (arith, h, e, f))
      | inr (n, f) ↦ ground (arith, h, e, f, same_iff n k)
    ]
  ]

  -- The name of the first of the migrations, newest first.
  abbrev pub newest : List (MemMigration X) → Option String
  newest [] = none
  newest (m ∷ l) = some m.name

  pub latest-newest :
      (ms : MemMigrations X) (c : Option String) (l : List (MemMigration X))
      → IsWalk ms c l
      → c ≡ newest l
  unfolding IsWalk
  latest-newest ms none [] h = refl
  latest-newest ms none (m ∷ l) h = elim h [ ]
  latest-newest ms (some n) [] h = elim h [ ]
  latest-newest ms (some n) (m ∷ l) (here, named, rest) = ap some (sym named)

  is_new_latest-same :
      (m : MemMigration X) (ms : MemMigrations X) → is_new_latest ms m ≡ false → m.from ≢ ms.latest
  unfolding is_new_latest
  is_new_latest-same m ms h e = elim (Option-cases ms.latest) [
    | inl f ↦ absurd (ground (arith, h, f))
    | inr (k, f) ↦ absurd (ground (arith, h, e, f, same_iff k k))
  ]

  -- A migration that is added under a new name is put before the chain if it comes after the newest
  -- of the chain, or if there is none, and leaves the chain as it is otherwise, given that the first
  -- of all has no predecessor.
  pub add_migration-IsChain :
      (m : MemMigration X) (ms : MemMigrations X) (l : List (MemMigration X))
      → IsChain ms l
      → get_migration ms m.name ≡ none
      → (ms.latest ≡ none → m.from ≡ none)
      → ((m.from ≡ newest l) × IsChain (add_migration m ms) (m ∷ l))
        ⊎ ((m.from ≢ newest l) × IsChain (add_migration m ms) l)
  unfolding IsWalk add_migration is_new_latest get_migration
  add_migration-IsChain m ms l h fresh first =
      let last : ms.latest ≡ newest l = latest-newest ms ms.latest l h in
      elim (Bool-cases (is_new_latest ms m)) [
        | inl e ↦
            let follows = is_new_latest-from m ms e first in
            inl (
              follows ∙ last,
              rw e (
                ground (arith, get-add_migration m ms m.name, same_iff m.name m.name),
                refl,
                rw follows (add_migration-IsWalk m ms ms.latest l fresh h),
              ),
            )
        | inr e ↦ inr (
          λ q. is_new_latest-same m ms e (q ∙ sym last),
          rw e (add_migration-IsWalk m ms ms.latest l fresh h),
        )
      ]
