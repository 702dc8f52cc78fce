-- ===== src/Query/Build.antt =====
-- The builders: `Query`'s chained methods, `FieldExpr` and `ManyFieldExpr`. A `DataObject` is what the
-- builders use of it, its table and the name of its primary key.
use butane.Prelude.{ℤ, String, none, some, [], ◌∷◌, ◌++◌}
use butane.Value.{Externals, SqlVal}
use butane.Query.Types.{Join, Expr, BoolExpr, OrderDirection, Query}

pub record ObjectInfo : Type 0 where
  pub table : String
  pub pkcol : String

module _ {X : Externals} where
  unfoldable pub new : String → Query X
  new table = record { table = table; filter = none; limit = none; offset = none; sort = [] }

  unfoldable pub filter : BoolExpr X → Query X → Query X
  filter expr q = record q { filter = some expr }

  unfoldable pub limit : ℤ → Query X → Query X
  limit lim q = record q { limit = some lim }

  unfoldable pub offset : ℤ → Query X → Query X
  offset off q = record q { offset = some off }

  unfoldable pub order : String → OrderDirection → Query X → Query X
  order column direction q = record q {
    sort = q.sort ++ (record { direction = direction; column = column } ∷ []);
  }

  unfoldable pub order_asc : String → Query X → Query X
  unfolding order
  order_asc column q = order column OrderDirection.ascending q

  unfoldable pub order_desc : String → Query X → Query X
  unfolding order
  order_desc column q = order column OrderDirection.descending q

  -- `FieldExpr<ForeignKey<F>>::subfilter`
  unfoldable pub subfilter : String → ObjectInfo → BoolExpr X → BoolExpr X
  subfilter name f q = BoolExpr.subquery name f.table f.pkcol q

  unfoldable pub subfilterpk : String → ObjectInfo → SqlVal X → BoolExpr X
  unfolding subfilter
  subfilterpk name f pk = subfilter name f (BoolExpr.eq f.pkcol (Expr.val pk))

  -- `ManyFieldExpr::contains`
  unfoldable pub contains : String → ObjectInfo → ObjectInfo → BoolExpr X → BoolExpr X
  contains many_table o t q =
      BoolExpr.subquery_join o.pkcol t.table (record { table = some many_table; name = "owner" })
        (Join.inner many_table (record { table = some many_table; name = "has" })
            (record { table = some t.table; name = t.pkcol })
          ∷ [])
        q

  unfoldable pub containspk : String → ObjectInfo → ObjectInfo → SqlVal X → BoolExpr X
  unfolding contains
  containspk many_table o t pk = contains many_table o t (BoolExpr.eq t.pkcol (Expr.val pk))
