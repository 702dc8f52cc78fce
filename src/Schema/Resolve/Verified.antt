-- ===== src/Schema/Resolve/Verified.antt =====
-- What `resolve_types` leaves when it succeeds.
use butane.Prelude.{
  ℕ, String, true, none, some, List, [], ◌∷◌, ok, err, Result-cases, Option-cases, ◌≡◌, refl, sym,
  ap, ◌∙◌, inl, inr,
}
use mathlib.Core.List.{Memᴰ}
use butane.Value.{Externals, Error, Fault, Loop}
use butane.Schema.Keys.{key_ord, show_key}
use butane.Schema.Types.{DeferredSqlType, AColumn, ATable, Adb}
use butane.Schema.Resolve.Resolver.{is_known}
use butane.Schema.Resolve.Rounds.{
  Rounds, rounds, resolve_references, first_deferred, verify, first_state, ended, schema_of,
  resolve_types,
}

module _ {X : Externals} where
  first_known :
      (ty : DeferredSqlType X) (d : AColumn X) (cs : List (AColumn X))
      → d.sqltype ≡ ty
      → first_deferred (d ∷ cs) ≡ none
      → (is_known d.sqltype ≡ true) × (first_deferred cs ≡ none)
  unfolding first_deferred is_known
  first_known (DeferredSqlType.deferred key) d cs e h =
      let e' : first_deferred (d ∷ cs) ≡ some key = rw (first_deferred, e) refl in absurd (cc)
  first_known (DeferredSqlType.known t) d cs e h =
      let e' : first_deferred (d ∷ cs) ≡ first_deferred cs = rw (first_deferred, e) refl in
      (rw (is_known, e) refl, cc)
  first_known (DeferredSqlType.known_id t) d cs e h =
      let e' : first_deferred (d ∷ cs) ≡ first_deferred cs = rw (first_deferred, e) refl in
      (rw (is_known, e) refl, cc)

  no_deferred :
      (cs : List (AColumn X)) (c : AColumn X)
      → first_deferred cs ≡ none
      → Memᴰ c cs
      → is_known c.sqltype ≡ true
  no_deferred [] c h m = elim m [ ]
  no_deferred (d ∷ cs) c h (Memᴰ.head e) =
      let known = first_known d.sqltype d cs refl h in rw e known.0
  no_deferred (d ∷ cs) c h (Memᴰ.tail m) = no_deferred cs c (first_known d.sqltype d cs refl h).1 m

  -- A successful verification leaves no column of a table unknown.
  verify_known :
      (l : List (String × ATable X)) (name : String) (table : ATable X) (c : AColumn X)
      → verify l ≡ ok tt
      → Memᴰ (name, table) l
      → Memᴰ c table.columns
      → is_known c.sqltype ≡ true
  unfolding verify
  verify_known [] name table c h n m = elim n [ ]
  verify_known ((k, t) ∷ l) name table c h n m = elim (Option-cases (first_deferred t.columns)) [
    | inr (key, e) ↦
        let e' : verify ((k, t) ∷ l)
            ≡ err (Fault.raised (Error.cannot_resolve_type (show_key key))) =
          rw (verify, e) refl in
        absurd (cc)
    | inl e ↦
        let e' : verify ((k, t) ∷ l) ≡ verify l = rw (verify, e) refl in
        elim n [
          | Memᴰ.head same ↦
              let found : first_deferred table.columns ≡ none =
                ap (λ p. first_deferred (p.1).columns) same ∙ e in
              no_deferred table.columns c found m
          | Memᴰ.tail later ↦ verify_known l name table c (sym e' ∙ h) later m
        ]
  ]

  ended_known :
      (db : Adb X) (loop : Loop X (Rounds X)) (db' : Adb X)
      → ended db loop ≡ some (db', ok tt)
      → (name : String) (table : ATable X) (c : AColumn X) → Memᴰ (name, table) db'.tables.entries
      → Memᴰ c table.columns
      → is_known c.sqltype ≡ true
  ended_known db none db' h name table c n m = absurd (cc)
  ended_known db (some (err f)) db' h name table c n m = absurd (cc)
  ended_known db (some (ok s)) db' h name table c n m =
      let same_db : schema_of s ≡ db' = cc in
      let tables : s.tables ≡ db'.tables.entries = ap (λ d. d.tables.entries) same_db in
      let fine : verify s.tables ≡ ok tt = cc in
      verify_known db'.tables.entries name table c (ap verify (sym tables) ∙ fine) n m

  -- When `resolve_types` succeeds, every column of every table of the schema that it leaves has a known
  -- type.
  pub resolve_types-is_known :
      (fuel : ℕ) (db db' : Adb X) (name : String) (table : ATable X) (c : AColumn X)
      → resolve_types fuel db ≡ some (db', ok tt)
      → Memᴰ (name, table) db'.tables.entries
      → Memᴰ c table.columns
      → is_known c.sqltype ≡ true
  unfolding resolve_types
  resolve_types-is_known fuel db db' name table c h n m =
      let refs = resolve_references db.extra_types db.tables db.tables.entries in
      elim (Result-cases refs) [
        | inl (f, e) ↦
            let e' : resolve_types fuel db ≡ some (db, err f) = rw (resolve_types, e) refl in
            absurd (cc)
        | inr (tables, e) ↦
            let e' : resolve_types fuel db ≡ ended db (rounds fuel (first_state db tables)) =
              rw (resolve_types, e) refl in
            ended_known db (rounds fuel (first_state db tables)) db' (sym e' ∙ h) name table c n m
      ]
