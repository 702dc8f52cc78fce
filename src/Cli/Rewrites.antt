-- ===== src/Cli/Rewrites.antt =====
-- Loops of butane_cli/src/lib.rs that write the files of every migration of the series.
use mathlib.Core.Path.{subst}
use butane.Prelude.{
  String, true, List, [], ◌∷◌, any, contains, Result, both_ok, ok, ◌==◌, eq_iff, ◌≡◌, refl, sym,
  arith, inl, inr, Bool-cases, ◌∙◌,
}
use butane.Prelude.Ord.{same, same_iff, string_ord}
use butane.Value.{Externals, Fault}
use butane.Files.Types.{Formats, Folder, Root}
use butane.Files.Folder.{migration_from}
use butane.Files.Series.{folder, put, edit}
use butane.Files.Chain.{IsChain}
use butane.Files.Kept.{folder-put, put-IsWalk}
use butane.Files.Extended.{get_state-put}

-- A loop over migrations that writes the files of each, so that they are as wanted afterwards, and does
-- not change what the migration comes after.
pub data Rewrites {X : Externals} {F : Formats X} (P : Folder F → Type 0)
    : Root F → List String → Root F → Type 0 where
  rewritten : {root : Root F} → Rewrites P root [] root
  rewrite :
      {root after : Root F} {m : String} {l : List String} (f : Folder F)
      → P f
      → migration_from f ≡ migration_from (folder root m)
      → Rewrites P (put m f root) l after
      → Rewrites P root (m ∷ l) after

-- What a call on a migration has done.
pub edit-ok :
    {X : Externals} {F : Formats X} (m : String) (call : Folder F → Result (Fault X) (Folder F))
    (root after : Root F)
    → edit m call root ≡ ok after
    → (f : Folder F) × (call (folder root m) ≡ ok f) × (put m f root ≡ after)
unfolding edit
edit-ok m call root after h =
    let (f, e, h1) = both_ok (call (folder root m)) _ h in
    let q : put m f root ≡ after = cc in (f, e, q)

module _ {X : Externals} {F : Formats X} (P : Folder F → Type 0) where
  put_keeps :
      (m k : String) (f : Folder F) (root : Root F)
      → P f
      → P (folder root k)
      → P (folder (put m f root) k)
  put_keeps m k f root new old = elim (Bool-cases (same m k)) [
    | inl e ↦
        let now : folder (put m f root) k ≡ f = folder-put m k f root ∙ rw e refl in
        subst P (sym now) new
    | inr e ↦
        let now : folder (put m f root) k ≡ folder root k = folder-put m k f root ∙ rw e refl in
        subst P (sym now) old
  ]

  stays :
      (k : String) (l : List String) (root root' : Root F)
      → Rewrites P root l root'
      → P (folder root k)
      → P (folder root' k)
  stays k [] root _ Rewrites.rewritten h = h
  stays k (m ∷ l) root root' (Rewrites.rewrite f new _ rest) h =
      stays k l (put m f root) root' rest (put_keeps m k f root new h)

  -- Every migration that the loop meets is as wanted.
  pub reached :
      (k : String) (l : List String) (root root' : Root F)
      → Rewrites P root l root'
      → contains k l ≡ true
      → P (folder root' k)
  unfolding contains any
  reached k [] root _ Rewrites.rewritten h = absurd cc
  reached k (m ∷ l) root root' (Rewrites.rewrite f new _ rest) h = elim (Bool-cases (m == k)) [
    | inl e ↦
        let q : m ≡ k = (eq_iff m k).0 e in
        let now : folder (put m f root) k ≡ f =
          folder-put m k f root ∙ rw ((same_iff m k).1 q) refl in
        stays k l (put m f root) root' rest (subst P (sym now) new)
    | inr e ↦ reached k l (put m f root) root' rest (ground (arith, h, e))
  ]

  -- The series is as before.
  pub rewritten-IsChain :
      (l c : List String) (root root' : Root F)
      → Rewrites P root l root'
      → IsChain root c
      → IsChain root' c
  rewritten-IsChain [] c root _ Rewrites.rewritten chain = chain
  rewritten-IsChain (m ∷ l) c root root' (Rewrites.rewrite f _ says rest) (state, known, walk) =
      rewritten-IsChain l c (put m f root) root' rest
        (state, get_state-put m f root ∙ known, put-IsWalk m f root state.latest c says walk)
