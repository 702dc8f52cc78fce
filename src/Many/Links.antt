-- ===== src/Many/Links.antt =====
-- What saving a relation does to its table, for a database that does what the statements say.
use mathlib.Core.List.{reverse, reverse-append, reverse-reverse, append_assoc, append-nil}
use butane.Prelude.{
  ℤ, int_eq, ◌==◌, String, Bool, true, not, some, List, [], ◌∷◌, ◌++◌, map, any, retain, Result, ok,
  err, ◌≡◌, refl, sym, ap, ◌∙◌,
}
use butane.Value.{Externals, SqlVal, Fault}
use butane.Query.Types.{BoolExpr}
use butane.Sql.Statements.{DbColumn}
use butane.Database.{Database, DataObject}
use butane.Many.Types.{
  Many, Inserted, columns, and_insert, insert_new, end_save, finish_save, delete_removed, save_from,
  save,
}

-- The table of a relation in a database: pairs of an owner and a value. Inserting a row adds a pair, and
-- deleting by the column `has` takes away the pairs whose value is the same as a given one, as the database
-- compares them; numbers and texts, which keys are, are compared as such.
pub record LinkTable {X : Externals} (D : Database X) (table : String) : Type 0 where
  pub links : D.State → List (SqlVal X × SqlVal X)
  pub same_value : SqlVal X → SqlVal X → Bool
  pub same_int : (a b : ℤ) → same_value (SqlVal.int a) (SqlVal.int b) ≡ int_eq a b
  pub same_big_int : (a b : ℤ) → same_value (SqlVal.big_int a) (SqlVal.big_int b) ≡ int_eq a b
  pub same_text : (a b : String) → same_value (SqlVal.text a) (SqlVal.text b) ≡ (a == b)
  pub inserted :
      (cols : List (DbColumn X)) (owner v : SqlVal X) (s s' : D.State)
      → D.insert_only table cols (owner ∷ v ∷ []) s ≡ ok s'
      → links s' ≡ links s ++ ((owner, v) ∷ [])
  pub deleted :
      (vs : List (SqlVal X)) (s s' : D.State)
      → D.delete_where table (BoolExpr.in_ "has" vs) s ≡ ok s'
      → links s' ≡ retain (λ l. not (any (same_value l.1) vs)) (links s)

module _ {ℓ} {A : Type ℓ} where
  retain-all : (l : List A) → retain (λ _. true) l ≡ l
  unfolding retain
  retain-all [] = refl
  retain-all (x ∷ l) = rw (retain-all l) refl

module _ {X : Externals} (T : DataObject X) (D : Database X) (m : Many X T) where
  and_insert-done :
      (r : Result (Fault X) D.State) (vs : List (SqlVal X)) (s : D.State)
      (f : D.State → Inserted T D) (rest : List (SqlVal X)) (s' : D.State)
      → and_insert T D r vs s f ≡ (rest, s', ok tt)
      → (s1 : D.State) × (r ≡ ok s1) × (f s1 ≡ (rest, s', ok tt))
  and_insert-done (ok s1) vs s f rest s' h = (s1, refl, h)
  and_insert-done (err e) vs s f rest s' h = let q : err e ≡ ok tt = ap (λ r. r.2) h in absurd cc

  end_save-done :
      (s : D.State) (r : Result (Fault X) D.State) (m' : Many X T) (s' : D.State)
      → end_save T D m s r ≡ (m', s', ok tt)
      → (r ≡ ok s') × (m' ≡ record m { new_values = []; removed_values = [] })
  end_save-done s (ok s1) m' s' h = (ap (λ r. ok (r.1)) h, sym (ap (λ r. r.0) h))
  end_save-done s (err e) m' s' h = let q : err e ≡ ok tt = ap (λ r. r.2) h in absurd cc

  finish_save-done :
      (i : Inserted T D) (m' : Many X T) (s' : D.State)
      → finish_save T D m i ≡ (m', s', ok tt)
      → (i.2 ≡ ok tt)
        × (delete_removed T D m m.removed_values i.1 ≡ ok s')
        × (m' ≡ record m { new_values = []; removed_values = [] })
  finish_save-done (rest, s, ok _) m' s' h =
      let (deleted, same) = end_save-done s (delete_removed T D m m.removed_values s) m' s' h in
      (refl, deleted, same)
  finish_save-done (rest, s, err e) m' s' h = let q : err e ≡ ok tt = ap (λ r. r.2) h in absurd cc

  -- When the last of the new values of a relation with an owner cannot be inserted, `save` gives back
  -- the error with the database unchanged, and the value is no longer among the new ones.
  pub save_drops :
      (owner v : SqlVal X) (vs : List (SqlVal X)) (s : D.State) (e : Fault X)
      → m.owner ≡ some owner
      → m.new_values ≡ vs ++ (v ∷ [])
      → D.insert_only m.item_table (columns m) (owner ∷ v ∷ []) s ≡ err e
      → save T D m s ≡ (record m { new_values = vs }, s, err e)
  unfolding save insert_new
  save_drops owner v vs s e known last failed =
      let newest : reverse m.new_values ≡ v ∷ reverse vs =
        ap reverse last ∙ reverse-append vs (v ∷ []) in
      ap (λ o. save_from T D o m s) known
      ∙ ap (λ l. finish_save T D m (insert_new T D m owner l s)) newest
      ∙ ap
          (λ r.
            finish_save T D m
              (and_insert T D r (reverse vs) s (insert_new T D m owner (reverse vs))))
          failed
      ∙ ap (λ l. (record m { new_values = l }, s, err e)) (reverse-reverse vs)

module _ {X : Externals} (T : DataObject X) (D : Database X) (m : Many X T)
    (L : LinkTable D m.item_table) where
  abbrev pub is_removed : SqlVal X × SqlVal X → Bool
  is_removed l = any (L.same_value l.1) m.removed_values

  insert_new-links :
      (owner : SqlVal X) (vs : List (SqlVal X)) (s s' : D.State) (rest : List (SqlVal X))
      → insert_new T D m owner vs s ≡ (rest, s', ok tt)
      → L.links s' ≡ L.links s ++ map (λ v. (owner, v)) vs
  unfolding insert_new
  insert_new-links owner [] s s' rest h =
      let q : s ≡ s' = ap (λ r. r.1) h in rw (q, append-nil) refl
  insert_new-links owner (v ∷ vs) s s' rest h =
      let (s1, done, later) =
        and_insert-done T D m (D.insert_only m.item_table (columns m) (owner ∷ v ∷ []) s) vs s
          (insert_new T D m owner vs) rest s' h in
      insert_new-links owner vs s1 s' rest later
      ∙ rw (L.inserted (columns m) owner v s s1 done)
          (append_assoc (L.links s) ((owner, v) ∷ []) (map (λ v. (owner, v)) vs))

  delete_removed-links :
      (vs : List (SqlVal X)) (s s' : D.State)
      → delete_removed T D m vs s ≡ ok s'
      → L.links s' ≡ retain (λ l. not (any (L.same_value l.1) vs)) (L.links s)
  unfolding any
  delete_removed-links [] s s' h = let q : s ≡ s' = cc in rw (q, retain-all) refl
  delete_removed-links (v ∷ vs) s s' h = L.deleted (v ∷ vs) s s' h

  -- After a `save` that succeeds, of a relation with an owner, the table has the links from before and
  -- one from the owner to each new value, the last first, less all links to a removed value; no new
  -- and no removed values are left to be saved. The database does what the statements say.
  pub save-links :
      (owner : SqlVal X) (m' : Many X T) (s s' : D.State)
      → m.owner ≡ some owner
      → save T D m s ≡ (m', s', ok tt)
      → (L.links s'
          ≡ retain
              (λ l. not (is_removed l))
              (L.links s ++ map (λ v. (owner, v)) (reverse m.new_values)))
        × (m'.new_values ≡ [])
        × (m'.removed_values ≡ [])
  unfolding save
  save-links owner m' s s' known h =
      let i = insert_new T D m owner (reverse m.new_values) s in
      let opened : save T D m s ≡ finish_save T D m i = ap (λ o. save_from T D o m s) known in
      let (went, deleted, same) = finish_save-done T D m i m' s' (sym opened ∙ h) in
      let links =
        insert_new-links owner (reverse m.new_values) s i.1 i.0 (ap (λ r. (i.0, i.1, r)) went) in
      (
        delete_removed-links m.removed_values i.1 s' deleted ∙ rw links refl,
        ap (λ n. n.new_values) same,
        ap (λ n. n.removed_values) same,
      )
