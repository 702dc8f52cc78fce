-- ===== src/Tests/Texts.antt =====
-- Conditions and statements rendered to text.
use butane.Prelude.{
  ℕ, zero, suc, ◌<◌, ◌-◌, ◌+◌, String, List, [], ◌∷◌, ◌++◌, ◌≡◌, refl, arith, length, ◌<>◌, show_ℕ,
  none, some, ℤ, contains, any, not, ◌||◌, ok,
}
use butane.Value.{SqlType, SqlVal}
use butane.Query.Types.{Expr, BoolExpr}
use butane.Sql.Writer.{after, quote_reserved_word}
use butane.Sql.Expr.{sql_for_expr, sql_for_cond}
use butane.Sql.Params.{slots, filled, sql_for_expr_writes}
use butane.Sql.Grouping.{sql_for_cond_ungrouped}
use butane.Pg.Statements
use butane.Pg.Statements.{
  PgOut, pg_placeholders, placeholder_text, next_placeholder-sql_for_expr,
  next_placeholder-sql_for_expr_wraps,
}
use butane.Value.Equality.{type_eq, is_compatible}
use butane.Schema.Types.{TypeIdentifier, AColumn}
use butane.Schema.Table.{typeid}
use butane.Sql.Literals.{column_default}
use butane.Sql.Defaults.{column_default-is_compatible}
use butane.Tests.Fixtures.{plain, plain_column}

abbrev empty : PgOut plain
empty = Statements.start

abbrev titled : BoolExpr plain
titled = BoolExpr.eq "title" (Expr.val (SqlVal.text "tea"))

abbrev liked : BoolExpr plain
liked = BoolExpr.gt "likes" (Expr.val (SqlVal.int (ℤ.pos 3)))

abbrev chosen : BoolExpr plain
chosen = BoolExpr.in_ "order" (SqlVal.text "a" ∷ SqlVal.int (ℤ.pos 7) ∷ SqlVal.text "b" ∷ [])

abbrev both : Expr plain
both = Expr.condition (BoolExpr.and titled (BoolExpr.or liked chosen))

both_text : sql_for_expr both empty ≡ record {
  w = "title = $1 AND likes > 3 OR \"order\" IN ($2, 7, $3)";
  values = SqlVal.text "tea" ∷ SqlVal.text "a" ∷ SqlVal.text "b" ∷ [];
  pls = 4;
}
unfolding sql_for_expr placeholder_text Statements.next_count quote_reserved_word contains any
    show_ℕ butane.Prelude.show_ℤ
both_text = refl

sql_for_expr_writes_example :
    ((sql_for_expr both empty).values ≡ [] ++ filled (slots both))
    × ((sql_for_expr both empty).pls ≡ after pg_placeholders (length (slots both)) 1)
sql_for_expr_writes_example = sql_for_expr_writes both empty

sql_for_cond_ungrouped_example :
    (sql_for_cond (BoolExpr.and (BoolExpr.or titled liked) chosen) empty
      ≡ sql_for_cond (BoolExpr.or titled (BoolExpr.and liked chosen)) empty)
    × (sql_for_cond (BoolExpr.and titled (BoolExpr.or liked chosen)) empty
        ≡ sql_for_cond (BoolExpr.or (BoolExpr.and titled liked) chosen) empty)
    × (sql_for_cond (BoolExpr.not (BoolExpr.or titled liked)) empty
        ≡ sql_for_cond (BoolExpr.or (BoolExpr.not titled) liked) empty)
    × (sql_for_cond (BoolExpr.not (BoolExpr.and titled liked)) empty
        ≡ sql_for_cond (BoolExpr.and (BoolExpr.not titled) liked) empty)
sql_for_cond_ungrouped_example = sql_for_cond_ungrouped titled liked chosen empty

next_placeholder-sql_for_expr_example :
    placeholder_text (sql_for_expr both empty).pls ≡ "$" <> show_ℕ (length (slots both) + 1)
unfolding slots
next_placeholder-sql_for_expr_example = next_placeholder-sql_for_expr both (omega arith)

abbrev texts : ℕ → List (SqlVal plain)
texts zero = []
texts (suc n) = SqlVal.text "x" ∷ texts n

abbrev many : Expr plain
many = Expr.condition (BoolExpr.in_ "title" (texts 130))

next_placeholder-sql_for_expr_wraps_example :
    placeholder_text (sql_for_expr many empty).pls ≡ "$-" <> show_ℕ (255 - length (slots many))
unfolding slots
next_placeholder-sql_for_expr_wraps_example =
    next_placeholder-sql_for_expr_wraps many (omega arith) (omega arith)

abbrev likes : AColumn plain
likes = plain_column "likes" SqlType.big_int

likes-typeid : typeid likes ≡ ok (TypeIdentifier.ty SqlType.big_int)
unfolding typeid
likes-typeid = refl

likes-column_default : column_default likes ≡ ok (SqlVal.int (ℤ.pos 0))
unfolding column_default
likes-column_default = refl

column_default-is_compatible_example :
    is_compatible {X = plain} (SqlVal.int (ℤ.pos 0)) SqlType.big_int likes.nullable
    ≡ (likes.nullable || not (type_eq {X = plain} SqlType.big_int SqlType.big_int))
column_default-is_compatible_example =
    column_default-is_compatible likes SqlType.big_int (SqlVal.int (ℤ.pos 0)) refl likes-typeid
      likes-column_default
