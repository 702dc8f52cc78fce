-- ===== src/Query/Types.antt =====
-- Expressions, conditions and queries of butane_core/src/query/mod.rs.
use butane.Prelude.{ℤ, String, Option, List}
use butane.Value.{Externals, SqlVal}

pub record Column : Type 0 where
  pub table : Option String
  pub name : String

pub data Join : Type 0 where
  inner : String → Column → Column → Join

mutual
  pub data Expr (X : Externals) : Type 0 where
    column : String → Expr X
    val : SqlVal X → Expr X
    placeholder : Expr X
    condition : BoolExpr X → Expr X

  pub data BoolExpr (X : Externals) : Type 0 where
    true : BoolExpr X
    eq ne lt gt le ge like : String → Expr X → BoolExpr X
    all_of : BoolExprs X → BoolExpr X
    and or : BoolExpr X → BoolExpr X → BoolExpr X
    not : BoolExpr X → BoolExpr X
    subquery : String → String → String → BoolExpr X → BoolExpr X
    in_ : String → List (SqlVal X) → BoolExpr X
    subquery_join : String → String → Column → List Join → BoolExpr X → BoolExpr X

  -- `Vec<BoolExpr>`
  pub data BoolExprs (X : Externals) : Type 0 where
    nil : BoolExprs X
    cons : BoolExpr X → BoolExprs X → BoolExprs X

pub data OrderDirection : Type 0 where
  ascending descending : OrderDirection

pub record Order : Type 0 where
  pub direction : OrderDirection
  pub column : String

pub record Query (X : Externals) : Type 0 where
  pub table : String
  pub filter : Option (BoolExpr X)
  pub limit : Option ℤ
  pub offset : Option ℤ
  pub sort : List Order
