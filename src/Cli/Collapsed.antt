-- ===== src/Cli/Collapsed.antt =====
-- What `collapse_migrations` of butane_cli/src/lib.rs leaves.
use mathlib.Core.Path.{subst}
use butane.Prelude.{
  ℕ, String, Bool, true, false, not, Option, none, some, List, [], ◌∷◌, Result, ok, err, contains,
  any, ◌≡◌, refl, sym, ap, inl, inr,
}
use butane.Value.{Externals, Fault, Loop}
use butane.Database.{Database}
use butane.Query.Types.{BoolExpr}
use butane.Schema.Types.{Adb}
use butane.Migrations.Types.{new_migrations}
use butane.Migrations.Create.{Backend}
use butane.Migrations.Run.{mark_applied}
use butane.Migrations.Database.{migrations_table_name}
use butane.Files.Types.{new_state, ReadsBack, Keeps, Formats, Root}
use butane.Files.Series.{get_state, latest, all_migrations, delete_migrations}
use butane.Files.Schema.{create_migration_to}
use butane.Files.Chain.{IsWalk, IsChain}
use butane.Files.Extended.{newest-IsChain, create_migration_to-extends}
use butane.Cli.Types.{
  Stop, Project, Play, tried, next, or_panicked, exit_if, get_migrations, loaded,
}
use butane.Cli.Embed.{copy_all, embed, embed_if, update_embedded, saved}
use butane.Cli.Connected.{Both, then_both, with_root, record_one, make_one}

module _ {X : Externals} where
  pub next-ok {ℓ κ} :
      {A : Type ℓ} {B : Type κ} (call : Play X A) (f : A → Play X B) {b : B}
      → next call f ≡ some (ok b)
      → (a : A) × (call ≡ some (ok a)) × (f a ≡ some (ok b))
  next-ok none f h = absurd (cc)
  next-ok (some (err e)) f h = absurd (cc)
  next-ok (some (ok a)) f h = (a, refl, h)

  pub tried-ok {ℓ} :
      {A : Type ℓ} (r : Result (Fault X) A) (a : A) → tried (some r) ≡ some (ok a) → r ≡ ok a
  tried-ok (err e) a h = absurd (cc)
  tried-ok (ok b) a h = cc

  tried-done {ℓ} :
      {A : Type ℓ} (call : Loop X A) (a : A) → tried call ≡ some (ok a) → call ≡ some (ok a)
  tried-done none a h = absurd (cc)
  tried-done (some (err e)) a h = absurd (cc)
  tried-done (some (ok b)) a h = cc

  unwrapped {ℓ} :
      {A : Type ℓ} (o : Option A) (a : A) → or_panicked {X = X} o ≡ some (ok a) → o ≡ some a
  unwrapped none a h = absurd (cc)
  unwrapped (some b) a h = cc

module _ {X : Externals} {F : Formats X} where
  embed-migrations :
      (fuel : ℕ) (p q : Project F) → embed fuel p ≡ some (ok q) → q.migrations ≡ p.migrations
  unfolding embed
  embed-migrations fuel p q h =
      let (_, _, h1) = next-ok (exit_if (not p.has_src) "src directory not found") _ h in
      let (root, _, h2) = next-ok (get_migrations p) _ h1 in
      let (all, _, h3) = next-ok (tried (all_migrations fuel root)) _ h2 in
      let (ms, _, h4) = next-ok (tried (copy_all fuel root all new_migrations)) _ h3 in
      let e : record p { embedding = some ms; embedded = true } ≡ q = cc in
      sym (ap (λ r. r.migrations) e)

  embed_if-migrations :
      (b : Bool) (fuel : ℕ) (p q : Project F)
      → embed_if b fuel p ≡ some (ok q)
      → q.migrations ≡ p.migrations
  embed_if-migrations true fuel p q h = embed-migrations fuel p q h
  embed_if-migrations false fuel p q h = let e : p ≡ q = cc in sym (ap (λ r. r.migrations) e)

  -- Embedding leaves the migrations.
  pub saved-migrations :
      (fuel : ℕ) (p q : Project F) (root : Root F)
      → saved fuel p root ≡ some (ok q)
      → q.migrations ≡ some root
  unfolding update_embedded
  saved-migrations fuel p q root h =
      embed_if-migrations p.embedded fuel (record p { migrations = some root }) q h

  delete_migrations-IsChain : (root : Root F) → IsChain (delete_migrations root) []
  unfolding delete_migrations get_state IsWalk
  delete_migrations-IsChain root = (new_state, refl, tt)

  module _ (D : Database X) where
    then_both-ok :
        {A : Type 0} (at : Project F × D.State) (call : Play X A) (f : A → Option (Both D F))
        (q : Project F) (s : D.State)
        → then_both D at call f ≡ some ((q, s), ok tt)
        → (a : A) × (call ≡ some (ok a)) × (f a ≡ some ((q, s), ok tt))
    then_both-ok at none f q s h = absurd (cc)
    then_both-ok at (some (err e)) f q s h =
        let e' : ◌≡◌ {A = Both D F} (at, err e) ((q, s), ok tt) = cc in
        let e'' : ◌≡◌ {A = Result (Stop X) (Unit {0})} (err e) (ok tt) = ap (λ r. r.1) e' in
        absurd (cc)
    then_both-ok at (some (ok a)) f q s h = (a, refl, h)

    recorded_one :
        (fuel : ℕ) (p q : Project F) (one : Root F) (s s' : D.State)
        → record_one D fuel p one s ≡ some ((q, s'), ok tt)
        → (m : String) × (latest one ≡ some m)
          × (q.migrations ≡ some one)
          × (mark_applied D (loaded one m) s ≡ ok s')
    unfolding record_one
    recorded_one fuel p q one s s' h =
        let (m, e1, h1) = then_both-ok (with_root p one, s) (or_panicked (latest one)) _ q s' h in
        let (s1, e2, h2) =
          then_both-ok (with_root p one, s) (tried (some (mark_applied D (loaded one m) s))) _ q s'
            h1 in
        let (r, e3, h3) = then_both-ok (with_root p one, s1) (saved fuel p one) _ q s' h2 in
        let e : ◌≡◌ {A = Project F × D.State} (r, s1) (q, s') =
          let e' : ◌≡◌ {A = Both D F} ((r, s1), ok tt) ((q, s'), ok tt) = cc in ap (λ b. b.0) e' in
        let same_project : r ≡ q = ap (λ b. b.0) e in
        let same_state : s1 ≡ s' = ap (λ b. b.1) e in
        (
          m,
          unwrapped (latest one) m e1,
          subst (λ k. k.migrations ≡ some one) same_project (saved-migrations fuel p r one e3),
          subst (λ t. mark_applied D (loaded one m) s ≡ ok t) same_state
              (tried-ok (mark_applied D (loaded one m) s) s1 e2),
        )

    created_one :
        (law : ReadsBack F.info) (keeps : Keeps F.state) (fuel : ℕ) (backends : List (Backend X))
        (name m : String) (latest_db : Adb X) (root one : Root F) (b : Bool)
        → create_migration_to fuel backends name none latest_db (delete_migrations root)
          ≡ some (ok (one, b))
        → latest one ≡ some m
        → (m ≡ name) × IsChain one (name ∷ [])
    unfolding contains any
    created_one law keeps fuel backends name m latest_db root one true h found =
        let (_, _, _, _, how) =
          create_migration_to-extends law keeps fuel backends name latest_db
            (delete_migrations root) one true [] h (delete_migrations-IsChain root) refl in
        elim how [
          | inl (_, not_made, _, _) ↦ absurd (cc)
          | inr (_, _, chain) ↦ let e = newest-IsChain one (name ∷ []) chain in (cc, chain)
        ]
    created_one law keeps fuel backends name m latest_db root one false h found =
        let (_, _, _, _, how) =
          create_migration_to-extends law keeps fuel backends name latest_db
            (delete_migrations root) one false [] h (delete_migrations-IsChain root) refl in
        elim how [
          | inl (_, _, _, chain) ↦ let e = newest-IsChain one [] chain in absurd (cc)
          | inr (_, is_made, _) ↦ absurd (cc)
        ]

    -- When the migrations have been collapsed into one, the series is that one, and the database has
    -- been told to forget all applied migrations and then to record that one; this is if what is written
    -- of a migration is read back, and the state of the series can be written and read back.
    pub make_one-IsChain :
        (law : ReadsBack F.info) (keeps : Keeps F.state) (fuel : ℕ) (backends : List (Backend X))
        (name : String) (latest_db : Adb X) (p q : Project F) (root : Root F) (s s' : D.State)
        → make_one D fuel backends name latest_db p (delete_migrations root) s
          ≡ some ((q, s'), ok tt)
        → (one : Root F) × (q.migrations ≡ some one)
          × IsChain one (name ∷ [])
          × (forgot : D.State) × (D.delete_where migrations_table_name BoolExpr.true s ≡ ok forgot)
          × (mark_applied D (loaded one name) forgot ≡ ok s')
    unfolding make_one
    make_one-IsChain law keeps fuel backends name latest_db p q root s s' h =
        let bare : Root F = delete_migrations root in
        let (s1, e1, h1) =
          then_both-ok (with_root p bare, s)
            (tried (some (D.delete_where migrations_table_name BoolExpr.true s))) _ q s' h in
        let (made, e2, h2) =
          then_both-ok (with_root p bare, s1)
            (tried (create_migration_to fuel backends name none latest_db bare)) _ q s' h1 in
        let (m, found, kept, marked) = recorded_one fuel p q made.0 s1 s' h2 in
        let done =
          tried-done (create_migration_to fuel backends name none latest_db bare) made e2 in
        let (named, chain) =
          created_one law keeps fuel backends name m latest_db root made.0 made.1 done found in
        (
          made.0,
          kept,
          chain,
          s1,
          tried-ok (D.delete_where migrations_table_name BoolExpr.true s) s1 e1,
          subst (λ k. mark_applied D (loaded made.0 k) s1 ≡ ok s') named marked,
        )
