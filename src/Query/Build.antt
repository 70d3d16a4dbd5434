-- ===== src/Query/Build.antt =====
-- src/query/exec.rs: `build`, the operators of a physical plan. The rows of a table are a parameter.
use skipper_db.Base.{ℕ, suc, ◌-◌, ◌%◌, ◌^◌, List, some, none, map}
use skipper_db.Base.Int.{ℤ, pos, negsuc}
use skipper_db.Base.Utf8.{Text, text_eq}
use skipper_db.Errors.{Result, ok, panic, ◌>>=◌}
use skipper_db.Catalog.Schema.{position}
use skipper_db.Query.Physical.{PhysicalPlan}
use skipper_db.Query.Eval.{Row}
use skipper_db.Query.Exec.{Operator, scan_op, filter_op, project_op, sort_op, limit_op}

-- `count as usize` of an `i64`
unfoldable pub as_usize : ℤ → ℕ
as_usize (pos n) = n % 2 ^ 64
as_usize (negsuc n) = 2 ^ 64 - suc n

-- The index of the column to sort by, which must be there (`unwrap`).
unfoldable pub sort_index : List Text → Text → Result ℕ
sort_index columns name = elim (position (λ x. text_eq x name) columns) [
  | none ↦ panic
  | some i ↦ ok i
]

-- An operator and the names of its columns. CREATE TABLE and INSERT do not come here
-- (`unreachable!`).
unfoldable pub build : (Text → Result (List Row)) → PhysicalPlan → Result (Operator × List Text)
build read_table (PhysicalPlan.table_scan_exec table columns) = do
  rows ← read_table table
  ok (scan_op rows, columns)
build read_table (PhysicalPlan.filter_exec predicate input) = do
  (child, columns) ← build read_table input
  ok (filter_op child predicate columns, columns)
build read_table (PhysicalPlan.projection_exec items input) = do
  (child, columns) ← build read_table input
  ok (project_op child (map (λ i. i.expr) items) columns, map (λ i. i.name) items)
build read_table (PhysicalPlan.sort_exec column descending input) = do
  (child, columns) ← build read_table input
  index ← sort_index columns column
  ok (sort_op child index descending none, columns)
build read_table (PhysicalPlan.limit_exec count input) = do
  (child, columns) ← build read_table input
  ok (limit_op child (as_usize count), columns)
build read_table (PhysicalPlan.create_table_exec table columns) = panic
build read_table (PhysicalPlan.insert_exec table values) = panic
