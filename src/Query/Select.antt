-- ===== src/Query/Select.antt =====
-- What a SELECT is to return, from the statement and the rows of the table, with no plan and no
-- operators; src/query/mod.rs, src/query/physical.rs and src/query/exec.rs together are to give it.
pub mod Parts
pub mod Stages
pub mod Runs
pub mod Star
use skipper_db.Base.{ℕ, List, map, take, Option, some, none}
use skipper_db.Base.Int.{ℤ, pos, negsuc}
use skipper_db.Base.Utf8.{Text}
use skipper_db.Errors.{Result, ok, panic, ◌>>=◌, ◌>>◌}
use skipper_db.Catalog.Schema.{Schema, column_index}
use skipper_db.Parser.Ast.{Expr, column, Select, SelectItem, Projection, OrderBy}
use skipper_db.Query.Eval.{Row}
use skipper_db.Query.Sort.{sort_rows}
use skipper_db.Query.Planner.{output_name}
use skipper_db.Query.Exec.Reference.{filter_rows, project_rows}

abbrev pub names : Schema → List Text
names s = map (λ c. c.name) s.columns

-- WHERE keeps the rows on which the predicate holds.
unfoldable pub where_rows : Option Expr → List Text → List Row → Result (List Row)
where_rows none columns rows = ok rows
where_rows (some predicate) columns rows = filter_rows predicate columns rows

-- ORDER BY sorts by the column of that name.
unfoldable pub order_rows : Option OrderBy → Schema → List Row → Result (List Row)
order_rows none s rows = ok rows
order_rows (some order) s rows = elim (column_index s order.column) [
  | none ↦ panic
  | some i ↦ sort_rows i order.descending rows
]

-- The expressions and the names of the result's columns.
unfoldable pub select_exprs : Projection → Schema → List Expr
select_exprs Projection.all s = map column (names s)
select_exprs (Projection.items items) s = map (λ i. i.expr) items

unfoldable pub select_names : Projection → Schema → List Text
select_names Projection.all s = names s
select_names (Projection.items items) s = map output_name items

unfoldable pub limit_rows : Option ℤ → List Row → List Row
limit_rows none rows = rows
limit_rows (some (pos n)) rows = take n rows
limit_rows (some (negsuc n)) rows = rows

-- The rows of the result.
unfoldable pub select_rows : Select → Schema → List Row → Result (List Row)
select_rows sel s rows = do
  kept ← where_rows sel.filter (names s) rows
  sorted ← order_rows sel.order_by s kept
  out ← project_rows (select_exprs sel.projection s) (names s) sorted
  ok (limit_rows sel.limit out)
