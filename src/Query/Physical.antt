-- ===== src/Query/Physical.antt =====
-- src/query/physical.rs: physical plans, and the lowering of logical ones.
use skipper_db.Base.{ℕ, suc, Bool, List, map, ◌++◌}
use skipper_db.Base.Int.{ℤ}
use skipper_db.Base.Utf8.{Text, ascii}
use skipper_db.Base.Decimal.{decimal_ℤ}
use skipper_db.Parser.Ast.{ColumnDef, Literal, Expr}
use skipper_db.Query.Plan.{
  ProjItem, LogicalPlan, line, direction, join, format_column, format_literal, format_expr,
}

pub data PhysicalPlan : Type 0 where
  create_table_exec : Text → List ColumnDef → PhysicalPlan
  insert_exec : Text → List Literal → PhysicalPlan
  table_scan_exec : Text → List Text → PhysicalPlan
  filter_exec : Expr → PhysicalPlan → PhysicalPlan
  projection_exec : List ProjItem → PhysicalPlan → PhysicalPlan
  sort_exec : Text → Bool → PhysicalPlan → PhysicalPlan
  limit_exec : ℤ → PhysicalPlan → PhysicalPlan

unfoldable pub from_logical : LogicalPlan → PhysicalPlan
from_logical (LogicalPlan.create_table t cs) = create_table_exec t cs
from_logical (LogicalPlan.insert t vs) = insert_exec t vs
from_logical (LogicalPlan.scan t cs) = table_scan_exec t cs
from_logical (LogicalPlan.filter p input) = filter_exec p (from_logical input)
from_logical (LogicalPlan.projection items input) = projection_exec items (from_logical input)
from_logical (LogicalPlan.sort c desc input) = sort_exec c desc (from_logical input)
from_logical (LogicalPlan.limit n input) = limit_exec n (from_logical input)

-- `write_at`: as for the logical plan, under the names of the physical nodes.
unfoldable pub write_at : PhysicalPlan → ℕ → Text
write_at (create_table_exec t cs) d =
    line d (
      ascii "CreateTableExec " ++ (t ++ (ascii " [" ++ (join (map format_column cs) ++ ascii "]"))))
write_at (insert_exec t vs) d =
    line d
      (ascii "InsertExec " ++ (t ++ (ascii " [" ++ (join (map format_literal vs) ++ ascii "]"))))
write_at (table_scan_exec t cs) d = line d (ascii "TableScanExec " ++ t)
write_at (filter_exec p input) d =
    line d (ascii "FilterExec [" ++ (format_expr p ++ ascii "]")) ++ write_at input (suc d)
write_at (projection_exec items input) d =
    line d (ascii "ProjectionExec [" ++ (join (map (λ i. i.name) items) ++ ascii "]"))
    ++ write_at input (suc d)
write_at (sort_exec c desc input) d =
    line d (ascii "SortExec [" ++ (c ++ (direction desc ++ ascii "]"))) ++ write_at input (suc d)
write_at (limit_exec n input) d =
    line d (ascii "LimitExec " ++ decimal_ℤ n) ++ write_at input (suc d)
