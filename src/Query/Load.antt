-- ===== src/Query/Load.antt =====
-- Queries that are run, `QueryOps` of butane_core/src/query/mod.rs.
use butane.Prelude.{ℤ, Option, none, some, List, [], ◌∷◌, Result, ok, ◌>>=◌, traverse}
use butane.Value.{Externals, SqlVal, Fault}
use butane.Database.{Database, DataObject}
use butane.Query.Types.{Query, Order}

-- The order that is asked for: none, if no column is.
abbrev sort_of : List Order → Option (List Order)
sort_of [] = none
sort_of (o ∷ sort) = some (o ∷ sort)

module _ {X : Externals} (D : Database X) (T : DataObject X) where
  unfoldable pub fetch : Query X → Option ℤ → D.State → Result (Fault X) (List (List (SqlVal X)))
  fetch q limit s = D.query q.table T.columns q.filter limit q.offset (sort_of q.sort) s

  -- The rows are decoded one by one, and only as far as they are asked for.
  abbrev decode_first : List (List (SqlVal X)) → Result (Fault X) (Option T.Object)
  decode_first [] = ok none
  decode_first (row ∷ _) = do object ← T.from_row row; ok (some object)

  unfoldable pub load_first : Query X → D.State → Result (Fault X) (Option T.Object)
  unfolding fetch
  load_first q s = do rows ← fetch q (some (ℤ.pos 1)) s; decode_first rows

  unfoldable pub load : Query X → D.State → Result (Fault X) (List T.Object)
  unfolding fetch
  load q s = do rows ← fetch q q.limit s; traverse T.from_row rows
