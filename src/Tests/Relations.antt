-- ===== src/Tests/Relations.antt =====
-- Relations saved to a database that is only the table of links.
use mathlib.Core.List.{reverse}
use butane.Prelude.{
  ℕ, ℤ, true, not, none, some, List, [], ◌∷◌, ◌++◌, map, any, retain, Result, ok, err, ◌≡◌, refl,
}
use butane.Value.{SqlType, SqlVal, Error, Fault}
use butane.Value.Equality.{val_eq}
use butane.Query.Types.{BoolExpr, Expr}
use butane.Database.{Database, DataObject}
use butane.Many.Types.{Many, new_many, ensure_init, add, insert_new, save}
use butane.Many.Links.{LinkTable, is_removed, save-links, save_drops}
use butane.Tests.Fixtures.{plain}

abbrev Links : Type 0
Links = List (SqlVal plain × SqlVal plain)

abbrev not_possible {ℓ} : {A : Type ℓ} → Result (Fault plain) A
not_possible = err (Fault.raised (Error.internal "not possible"))

-- A link to nothing is refused.
abbrev insert_link : List (SqlVal plain) → Links → Result (Fault plain) Links
insert_link (owner ∷ SqlVal.null ∷ []) s = not_possible
insert_link (owner ∷ v ∷ []) s = ok (s ++ ((owner, v) ∷ []))
insert_link _ s = not_possible

abbrev delete_links : BoolExpr plain → Links → Result (Fault plain) Links
delete_links (BoolExpr.in_ _ vs) s = ok (retain (λ l. not (any (val_eq l.1) vs)) s)
delete_links (BoolExpr.eq _ (Expr.val owner)) s = ok (retain (λ l. not (val_eq l.0 owner)) s)
delete_links _ s = not_possible

abbrev links_database : Database plain
links_database = record {
  State = Links;
  backend_name = "sqlite";
  has_table = λ _ _. ok true;
  query = λ _ _ _ _ _ _ _. not_possible;
  insert_only = λ _ _ values s. insert_link values s;
  delete_where = λ _ expr s. delete_links expr s;
  execute = λ _ _. not_possible;
  transaction = λ s. ok s;
  commit = λ s. ok s;
}

insert_link-ok :
    (owner v : SqlVal plain) (s s' : Links)
    → insert_link (owner ∷ v ∷ []) s ≡ ok s'
    → s' ≡ s ++ ((owner, v) ∷ [])
insert_link-ok owner SqlVal.null s s' h = absurd cc
insert_link-ok owner (SqlVal.bool _) s s' h = cc
insert_link-ok owner (SqlVal.int _) s s' h = cc
insert_link-ok owner (SqlVal.big_int _) s s' h = cc
insert_link-ok owner (SqlVal.real _) s s' h = cc
insert_link-ok owner (SqlVal.text _) s s' h = cc
insert_link-ok owner (SqlVal.blob _) s s' h = cc
insert_link-ok owner (SqlVal.json _) s s' h = cc
insert_link-ok owner (SqlVal.timestamp _) s s' h = cc
insert_link-ok owner (SqlVal.custom _ _) s s' h = cc

abbrev tag_object : DataObject plain
tag_object = record {
  Object = ℕ;
  table = "tag";
  pkcol = "id";
  columns = record { name = "id"; ty = SqlType.int } ∷ [];
  pk_type = SqlType.int;
  pk_is_valid = λ _. true;
  pk_to_sql = λ n. ok (SqlVal.int (ℤ.pos n));
  from_row = λ _. not_possible;
}

abbrev num : ℕ → SqlVal plain
num n = SqlVal.int (ℤ.pos n)

-- Post 1 gains tags 4 and 5, and loses tag 3.
abbrev tags : Many plain tag_object
tags = record {
  item_table = "post_tags_Many";
  owner = some (num 1);
  owner_type = SqlType.int;
  new_values = num 4 ∷ num 5 ∷ [];
  removed_values = num 3 ∷ [];
  all_values = none;
}

abbrev saved_tags : Many plain tag_object
saved_tags = record tags { new_values = []; removed_values = [] }

links_table : LinkTable links_database tags.item_table
unfolding val_eq
links_table = record {
  links = λ s. s;
  same_value = val_eq;
  same_int = λ a b. refl;
  same_big_int = λ a b. refl;
  same_text = λ a b. refl;
  inserted = λ cols owner v s s' h. insert_link-ok owner v s s' h;
  deleted = λ vs s s' h. cc;
}

-- Post 2 has tag 3 too.
abbrev before_save : Links
before_save = (num 1, num 3) ∷ (num 2, num 3) ∷ (num 2, num 6) ∷ []

abbrev after_save : Links
after_save = (num 2, num 6) ∷ (num 1, num 5) ∷ (num 1, num 4) ∷ []

save_run : save tag_object links_database tags before_save ≡ (saved_tags, after_save, ok tt)
unfolding save insert_new val_eq any retain
save_run = refl

add_run :
    (r : Many plain tag_object) × (add 7 (ensure_init "t" (num 1) SqlType.int new_many) ≡ ok r)
    × (r.new_values ≡ num 7 ∷ [])
unfolding add ensure_init new_many
add_run = (
  record new_many { item_table = "t"; owner = some (num 1); new_values = num 7 ∷ [] },
  refl,
  refl,
)

save-links_example :
    (links_table.links after_save
      ≡ retain
          (λ l. not (is_removed tag_object links_database tags links_table l))
          (links_table.links before_save ++ map (λ v. (num 1, v)) (reverse tags.new_values)))
    × (saved_tags.new_values ≡ [])
    × (saved_tags.removed_values ≡ [])
save-links_example =
    save-links tag_object links_database tags links_table (num 1) saved_tags before_save after_save
      refl save_run

abbrev broken_tags : Many plain tag_object
broken_tags = record tags { new_values = num 4 ∷ SqlVal.null ∷ [] }

save_drops_example :
    save tag_object links_database broken_tags before_save
    ≡ (record broken_tags { new_values = num 4 ∷ [] }, before_save, not_possible)
save_drops_example =
    save_drops tag_object links_database broken_tags (num 1) SqlVal.null (num 4 ∷ []) before_save
      (Fault.raised (Error.internal "not possible")) refl refl refl
