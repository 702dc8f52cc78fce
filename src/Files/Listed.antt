-- ===== src/Files/Listed.antt =====
-- The backends that a migration lists, against the files of SQL that it has, when either is written.
use mathlib.Core.Path.{subst}
use butane.Prelude.{
  String, Bool, true, false, not, ◌&&◌, ◌||◌, Option, none, some, List, [], ◌∷◌, ◌++◌, any,
  contains, retain, both_ok, ok, ◌==◌, eq_iff, ◌≡◌, refl, sym, arith, inl, inr, Bool-cases, ◌∙◌,
}
use butane.Prelude.Ord.{same_iff, string_ord}
use butane.Map
use butane.Map.{get-insert, get-remove}
use butane.Value.{Externals}
use butane.Schema.Keys.{key_ord}
use butane.Files.Types.{MigrationInfo, ReadsBack, Formats, Folder}
use butane.Files.Folder.{read_info, write_info, note_backend}

abbrev pub is_there {ℓ} : {A : Type ℓ} → Option A → Bool
is_there none = false
is_there (some a) = true

contains-last :
    (k b : String) (l : List String) → contains k (l ++ (b ∷ [])) ≡ (contains k l || (b == k))
unfolding contains any
contains-last k b [] = ground arith
contains-last k b (x ∷ l) = ground (arith, contains-last k b l)

contains-retain :
    (k b : String) (l : List String)
    → contains k (retain (λ x. not (x == b)) l) ≡ (not (b == k) && contains k l)
unfolding contains any retain
contains-retain k b [] = ground arith
contains-retain k b (x ∷ l) =
    ground (arith, contains-retain k b l, eq_iff x b, eq_iff b k, eq_iff x k)

listed_already :
    (backend k : String) (l : List String)
    → contains backend l ≡ true
    → contains k l ≡ (contains k l || (backend == k))
listed_already backend k l h = elim (Bool-cases (backend == k)) [
  | inl e ↦
      let q : contains k l ≡ true = subst (λ j. contains j l ≡ true) ((eq_iff backend k).0 e) h in
      rw q refl
  | inr e ↦ rw e (ground arith)
]

module _ {X : Externals} {F : Formats X} where
  -- A backend is listed exactly where it has SQL, for either direction.
  abbrev pub Lists : MigrationInfo → Folder F → Type 0
  Lists info f =
      (k : String)
      → (contains k info.backends ≡ is_there (Map.get k f.up))
        × (contains k info.backends ≡ is_there (Map.get k f.down))

  abbrev pub IsListed : Folder F → Type 0
  IsListed f = (info : MigrationInfo) × (read_info f ≡ ok info) × Lists info f

  module _ (law : ReadsBack F.info) where
    pub read-write_info :
        (info : MigrationInfo) (f f' : Folder F)
        → write_info info f ≡ ok f'
        → (read_info f' ≡ ok info) × (f'.up ≡ f.up) × (f'.down ≡ f.down)
    unfolding write_info read_info
    read-write_info info f f' h =
        let (t, e, h1) = both_ok (F.info.write info) _ h in
        let q : record f { info = some t } ≡ f' = cc in
        subst (λ (g : Folder F). (read_info g ≡ ok info) × (g.up ≡ f.up) × (g.down ≡ f.down)) q
          (law info t e, refl, refl)

    pub written-IsListed :
        (info : MigrationInfo) (f f' : Folder F)
        → write_info info f ≡ ok f'
        → Lists info f
        → IsListed f'
    written-IsListed info f f' h lists =
        let (known, ups, downs) = read-write_info info f f' h in
        (info, known, λ k. (rw ups (lists k).0, rw downs (lists k).1))

    inserted-Lists :
        (backend up_file down_file : String) (info info' : MigrationInfo) (f : Folder F)
        → ((k : String) → contains k info'.backends ≡ (contains k info.backends || (backend == k)))
        → Lists info f
        → Lists info' (record f {
          up = Map.insert backend up_file f.up;
          down = Map.insert backend down_file f.down;
        })
    inserted-Lists backend up_file down_file info info' f more lists k = (
      ground (
        arith,
        more k,
        lists k,
        get-insert backend k up_file f.up,
        eq_iff backend k,
        same_iff backend k,
      ),
      ground (
        arith,
        more k,
        lists k,
        get-insert backend k down_file f.down,
        eq_iff backend k,
        same_iff backend k,
      ),
    )

    pub noted-IsListed :
        (backend up_file down_file : String) (info : MigrationInfo) (f f' : Folder F)
        → read_info f ≡ ok info
        → Lists info f
        → note_backend backend info (record f {
          up = Map.insert backend up_file f.up;
          down = Map.insert backend down_file f.down;
        })
          ≡ ok f'
        → IsListed f'
    unfolding read_info
    noted-IsListed backend up_file down_file info f f' known lists h =
        let filed : Folder F = record f {
          up = Map.insert backend up_file f.up;
          down = Map.insert backend down_file f.down;
        } in
        elim (Bool-cases (contains backend info.backends)) [
          | inl e ↦
              let e' : note_backend backend info filed ≡ ok filed = rw e refl in
              let q : filed ≡ f' = cc in
              subst IsListed q (
                info,
                known,
                inserted-Lists backend up_file down_file info info f
                    (λ k. listed_already backend k info.backends e) lists,
              )
          | inr e ↦
              let more : MigrationInfo = record info {
                backends = info.backends ++ (backend ∷ []);
              } in
              let e' : note_backend backend info filed ≡ write_info more filed = rw e refl in
              written-IsListed more filed f' (sym e' ∙ h) (
                inserted-Lists backend up_file down_file info more f
                  (λ k. contains-last k backend info.backends) lists)
        ]

    pub removed-Lists :
        (backend : String) (info : MigrationInfo) (f : Folder F)
        → Lists info f
        → Lists
            (record info { backends = retain (λ x. not (x == backend)) info.backends })
            (record f { up = Map.remove backend f.up; down = Map.remove backend f.down })
    removed-Lists backend info f lists k = (
      ground (
        arith,
        contains-retain k backend info.backends,
        lists k,
        get-remove backend k f.up,
        eq_iff backend k,
        same_iff backend k,
      ),
      ground (
        arith,
        contains-retain k backend info.backends,
        lists k,
        get-remove backend k f.down,
        eq_iff backend k,
        same_iff backend k,
      ),
    )
