-- ===== src/Query/Exec/Reference.antt =====
-- The rows of a whole operator, with no pulling: what src/query/exec.rs is to give row by row.
use skipper_db.Base.{ℕ, suc, List, [], ◌∷◌, some, none, length, take, if◌then◌else◌}
use skipper_db.Base.Utf8.{Text}
use skipper_db.Errors.{Result, ok, ◌>>=◌}
use skipper_db.Parser.Ast.{Expr}
use skipper_db.Query.Eval.{Row, eval_predicate, eval_items}
use skipper_db.Query.Sort.{sort_rows}
use skipper_db.Query.Exec.{Operator, scan_op, filter_op, project_op, sort_op, limit_op}

-- The rows on which the predicate holds.
unfoldable pub filter_rows : Expr → List Text → List Row → Result (List Row)
filter_rows predicate columns [] = ok []
filter_rows predicate columns (r ∷ rs) = do
  keep ← eval_predicate predicate r columns
  kept ← filter_rows predicate columns rs
  ok (if keep then r ∷ kept else kept)

-- The values of the expressions on each row.
unfoldable pub project_rows : List Expr → List Text → List Row → Result (List Row)
project_rows items columns [] = ok []
project_rows items columns (r ∷ rs) = do
  v ← eval_items items r columns
  vs ← project_rows items columns rs
  ok (v ∷ vs)

-- The rows that an operator has still to give.
unfoldable pub rows_of : Operator → Result (List Row)
rows_of (scan_op rows) = ok rows
rows_of (filter_op input predicate columns) = do
  rows ← rows_of input
  filter_rows predicate columns rows
rows_of (project_op input items columns) = do rows ← rows_of input; project_rows items columns rows
rows_of (sort_op input index descending (some rows)) = ok rows
rows_of (sort_op input index descending none) = do
  rows ← rows_of input
  sort_rows index descending rows
rows_of (limit_op input remaining) = do rows ← rows_of input; ok (take remaining rows)

-- Fuel that is enough for a call of `next`.
unfoldable pub enough : Operator → ℕ
enough (scan_op rows) = suc (length rows)
enough (filter_op input predicate columns) = suc (enough input)
enough (project_op input items columns) = suc (enough input)
enough (sort_op input index descending (some rows)) = suc (length rows)
enough (sort_op input index descending none) = suc (suc (enough input))
enough (limit_op input remaining) = suc (enough input)
