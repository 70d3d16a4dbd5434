-- ===== src/Query/Plan.antt =====
-- src/query/plan.rs: logical plans, and the text of columns, literals and expressions.
use skipper_db.Base.{ℕ, zero, suc, Bool, true, false, List, [], ◌∷◌, ◌++◌, map}
use skipper_db.Base.Int.{ℤ}
use skipper_db.Base.Utf8.{Text, ascii}
use skipper_db.Base.Decimal.{decimal_ℤ}
use skipper_db.Parser.Ast.{
  ColumnDef, DataType, Literal, CompareOp, Expr, Exprs, column, literal, function, compare, and, or,
  no_exprs, exprs,
}

pub record ProjItem : Type 0 where
  pub expr : Expr
  pub name : Text

pub data LogicalPlan : Type 0 where
  create_table : Text → List ColumnDef → LogicalPlan
  insert : Text → List Literal → LogicalPlan
  scan : Text → List Text → LogicalPlan
  filter : Expr → LogicalPlan → LogicalPlan
  projection : List ProjItem → LogicalPlan → LogicalPlan
  sort : Text → Bool → LogicalPlan → LogicalPlan
  limit : ℤ → LogicalPlan → LogicalPlan

unfoldable pub format_op : CompareOp → Text
format_op CompareOp.eq = ascii "="
format_op CompareOp.not_eq = ascii "!="
format_op CompareOp.lt = ascii "<"
format_op CompareOp.lt_eq = ascii "<="
format_op CompareOp.gt = ascii ">"
format_op CompareOp.gt_eq = ascii ">="

abbrev data_type_name : DataType → Text
data_type_name DataType.int = ascii "INT"
data_type_name DataType.text = ascii "TEXT"

unfoldable pub format_column : ColumnDef → Text
format_column c = c.name ++ (ascii " " ++ data_type_name c.ty)

unfoldable pub format_literal : Literal → Text
unfolding decimal_ℤ
format_literal (Literal.int n) = decimal_ℤ n
format_literal (Literal.str s) = ascii "'" ++ (s ++ ascii "'")
format_literal Literal.null = ascii "NULL"

-- `join(", ")`
unfoldable pub join : List Text → Text
join [] = []
join (t ∷ []) = t
join (t ∷ u ∷ ts) = t ++ (ascii ", " ++ join (u ∷ ts))

unfoldable mutual
  unfolding format_literal format_op join

  pub format_expr : Expr → Text
  format_expr (column c) = c
  format_expr (literal l) = format_literal l
  format_expr (function name args) = name ++ (ascii "(" ++ (join (format_exprs args) ++ ascii ")"))
  format_expr (compare l op r) =
      format_expr l ++ (ascii " " ++ (format_op op ++ (ascii " " ++ format_expr r)))
  format_expr (and l r) = format_expr l ++ (ascii " AND " ++ format_expr r)
  format_expr (or l r) =
      ascii "(" ++ (format_expr l ++ (ascii " OR " ++ (format_expr r ++ ascii ")")))

  pub format_exprs : Exprs → List Text
  format_exprs no_exprs = []
  format_exprs (exprs e es) = format_expr e ∷ format_exprs es

-- `"  ".repeat(depth)`, and a line of the plan.
unfoldable pub indent : ℕ → Text
indent zero = []
indent (suc depth) = ascii "  " ++ indent depth

abbrev pub line : ℕ → Text → Text
line depth t = indent depth ++ (t ++ (b'\n' ∷ []))

abbrev pub direction : Bool → Text
direction true = ascii " DESC"
direction false = []

-- `write_at`: the plan as an indented tree, a node above its input.
unfoldable pub write_at : LogicalPlan → ℕ → Text
write_at (create_table t cs) d =
    line d
      (ascii "CreateTable " ++ (t ++ (ascii " [" ++ (join (map format_column cs) ++ ascii "]"))))
write_at (insert t vs) d =
    line d (ascii "Insert " ++ (t ++ (ascii " [" ++ (join (map format_literal vs) ++ ascii "]"))))
write_at (scan t cs) d = line d (ascii "Scan " ++ t)
write_at (filter p input) d =
    line d (ascii "Filter [" ++ (format_expr p ++ ascii "]")) ++ write_at input (suc d)
write_at (projection items input) d =
    line d (ascii "Projection [" ++ (join (map (λ i. i.name) items) ++ ascii "]"))
    ++ write_at input (suc d)
write_at (sort c desc input) d =
    line d (ascii "Sort [" ++ (c ++ (direction desc ++ ascii "]"))) ++ write_at input (suc d)
write_at (limit n input) d = line d (ascii "Limit " ++ decimal_ℤ n) ++ write_at input (suc d)
