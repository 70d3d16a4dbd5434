-- ===== src/Query/Select/Runs.antt =====
-- SELECT from the statement to the rows: src/query/mod.rs plans it, src/query/physical.rs lowers it,
-- and src/query/exec.rs runs it.
use skipper_db.Base.{ℕ, suc, ◌≤◌, ◌≡◌, refl, List, some, All, arith}
use skipper_db.Base.Utf8.{Text}
use skipper_db.Errors.{Result, ok}
use skipper_db.Catalog.Schema.{Schema}
use skipper_db.Parser.Ast.{Select}
use skipper_db.Query.Plan.{LogicalPlan}
use skipper_db.Query.Planner.{
  Catalog, planned, find_schema, plan_select, plan_filter, plan_order, plan_projection,
}
use skipper_db.Query.Planner.Checked.{planned_parts, HasValues}
use skipper_db.Query.Physical.{from_logical}
use skipper_db.Query.Eval.{Row}
use skipper_db.Fuel.{done}
use skipper_db.Query.Exec.{ResultSet, run_query, scan_op}
use skipper_db.Query.Exec.Reference.{rows_of, enough}
use skipper_db.Query.Exec.Streams.{drain_lem}
use skipper_db.Query.Build.{build}
use skipper_db.Query.Select.{names, select_rows, select_names, limit_rows}
use skipper_db.Query.Select.Parts.{IsLimit}
use skipper_db.Query.Select.Stages.{Stage, filter-Stage, order-Stage, project-Stage, limit-Stage}

-- What the plan of a query runs to, for all fuel from some number on.
abbrev pub RunsTo : (Text → Result (List Row)) → LogicalPlan → ResultSet → Type 0
RunsTo read_table node rs =
    (fuel : ℕ) × ((n : ℕ)
      → fuel ≤ n
      → run_query n (build read_table (from_logical node)) ≡ done (ok rs))

Stage-RunsTo :
    (read_table : Text → Result (List Row)) (node : LogicalPlan) (columns : List Text)
    (rows : List Row)
    → Stage read_table node columns rows
    → RunsTo read_table node (record { columns = columns; rows = rows })
unfolding run_query
Stage-RunsTo read_table node columns rows st = (
  suc (enough st.op),
  λ n h. let (op', e) = drain_lem n st.op rows st.gives (omega arith) in rw (st.built, e) refl,
)

pub find_schema_lem :
    (catalog : Catalog) (t : Text) (s : Schema)
    → catalog t ≡ some s
    → find_schema catalog t ≡ planned s
unfolding find_schema
find_schema_lem catalog t s h = rw (find_schema, h) refl

-- If the planner accepts a SELECT on a table of the catalog, and every row of the table has a value
-- for each column, then the plan runs, without a panic and for all fuel from some number on, to the
-- rows that WHERE keeps, sorted by ORDER BY, projected and cut to LIMIT, under the statement's names.
-- (A LIMIT is an i64.)
pub select_runs :
    (sel : Select) (catalog : Catalog) (read_table : Text → Result (List Row)) (s : Schema)
    (rows : List Row) (node : LogicalPlan)
    → catalog sel.from ≡ some s
    → read_table sel.from ≡ ok rows
    → All (HasValues (names s)) rows
    → IsLimit sel.limit
    → plan_select sel catalog ≡ planned node
    → (out : List Row) × (select_rows sel s rows ≡ ok out)
      × RunsTo read_table node (record { columns = select_names sel.projection s; rows = out })
unfolding plan_select select_rows build from_logical rows_of
select_runs sel catalog read_table s rows node in_catalog in_table wide limit h =
    let found = find_schema_lem catalog sel.from s in_catalog in
    let (filtered, e₁, h₁) =
      planned_parts (plan_filter s sel.from sel.filter (LogicalPlan.scan sel.from (names s))) _
        (rw (plan_select, found) at h) in
    let (ordered, e₂, h₂) = planned_parts (plan_order s sel.from sel.order_by filtered) _ h₁ in
    let (items, e₃, h₃) = planned_parts (plan_projection s sel.from sel.projection) _ h₂ in
    let scanned : Stage read_table (LogicalPlan.scan sel.from (names s)) (names s) rows = record {
      op = scan_op rows;
      built = rw in_table refl;
      gives = refl;
    } in
    let (kept, k₁, st₁, wide₁) =
      filter-Stage read_table s sel.from sel.filter _ filtered rows e₁ scanned wide in
    let (sorted, k₂, st₂, wide₂) =
      order-Stage read_table s sel.from sel.order_by filtered ordered kept e₂ st₁ wide₁ in
    let (out, k₃, st₃) =
      project-Stage read_table s sel.from sel.projection items ordered sorted e₃ st₂ wide₂ in
    let st₄ =
      limit-Stage read_table sel.limit (LogicalPlan.projection items ordered) node
        (select_names sel.projection s) out h₃ limit st₃ in
    (limit_rows sel.limit out, rw (k₁, k₂, k₃) refl, Stage-RunsTo read_table node _ _ st₄)
