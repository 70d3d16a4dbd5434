-- ===== src/Query/Select/Stages.antt =====
-- The stages of a planned SELECT of src/query/mod.rs and src/query/exec.rs, one for each node.
use skipper_db.Base.{◌%◌, ◌^◌, ◌≡◌, refl, ap, subst, List, Option, some, none, take, All, arith}
use skipper_db.Base.Int.{ℤ, pos, negsuc}
use skipper_db.Base.Utf8.{Text}
use skipper_db.Errors.{Result, ok}
use skipper_db.Catalog.Schema.{Schema}
use skipper_db.Parser.Ast.{Expr, Projection, OrderBy}
use skipper_db.Query.Plan.{ProjItem, LogicalPlan}
use skipper_db.Query.Planner.{
  planned, check_columns, require_column, plan_filter, plan_order, plan_projection, plan_limit,
  refuse,
}
use skipper_db.Query.Planner.Checked.{planned_parts, HasValues}
use skipper_db.Query.Physical.{from_logical}
use skipper_db.Query.Eval.{Row}
use skipper_db.Query.Sort.Total.{sort_rows_total}
use skipper_db.Query.Exec.{Operator, filter_op, project_op, sort_op, limit_op}
use skipper_db.Query.Exec.Reference.{rows_of, project_rows}
use skipper_db.Query.Build.{build, as_usize}
use skipper_db.Query.Select.{names, where_rows, order_rows, select_exprs, select_names, limit_rows}
use skipper_db.Query.Select.Parts.{
  filter_rows_total, project_rows_total, require_column_lem, sort_index_lem, All-Reaches,
  plan_projection_lem, IsLimit,
}

module _ (read_table : Text → Result (List Row)) where
  -- The operator of a node of the plan has these columns and rows.
  pub record Stage (node : LogicalPlan) (columns : List Text) (rows : List Row) : Type 0 where
    pub op : Operator
    pub built : build read_table (from_logical node) ≡ ok (op, columns)
    pub gives : rows_of op ≡ ok rows

  pub filter-Stage :
      (s : Schema) (t : Text) (o : Option Expr) (node node' : LogicalPlan) (rows : List Row)
      → plan_filter s t o node ≡ planned node'
      → Stage node (names s) rows
      → All (HasValues (names s)) rows
      → (kept : List Row) × (where_rows o (names s) rows ≡ ok kept)
        × Stage node' (names s) kept
        × All (HasValues (names s)) kept
  unfolding plan_filter where_rows build from_logical rows_of
  filter-Stage s t none node node' rows e st h =
      (rows, refl, subst (λ n. Stage n (names s) rows) {x = node} {y = node'} (cc e) st, h)
  filter-Stage s t (some p) node node' rows e st h =
      let (u, c, f) = planned_parts (check_columns s t p) _ e in
      let (kept, k, h') = filter_rows_total s t p (names s) rows c h in
      (
        kept,
        k,
        subst (λ n. Stage n (names s) kept) {x = LogicalPlan.filter p node} {y = node'} (cc f)
            (record {
              op = filter_op st.op p (names s);
              built = rw st.built refl;
              gives = rw st.gives k;
            }),
        h',
      )

  pub order-Stage :
      (s : Schema) (t : Text) (o : Option OrderBy) (node node' : LogicalPlan) (rows : List Row)
      → plan_order s t o node ≡ planned node'
      → Stage node (names s) rows
      → All (HasValues (names s)) rows
      → (sorted : List Row) × (order_rows o s rows ≡ ok sorted)
        × Stage node' (names s) sorted
        × All (HasValues (names s)) sorted
  unfolding plan_order order_rows build from_logical rows_of
  order-Stage s t none node node' rows e st h =
      (rows, refl, subst (λ n. Stage n (names s) rows) {x = node} {y = node'} (cc e) st, h)
  order-Stage s t (some o) node node' rows e st h =
      let (u, c, f) = planned_parts (require_column s t o.column) _ e in
      let (i, i_is) = require_column_lem s t o.column c in
      let (sorted, k, reach, h') =
        sort_rows_total (HasValues (names s)) i o.descending rows
          (All-Reaches s o.column i rows i_is h) h in
      (
        sorted,
        rw (i_is, order_rows) k,
        subst (λ n. Stage n (names s) sorted) {x = LogicalPlan.sort o.column o.descending node}
            {y = node'} (cc f)
            (record {
              op = sort_op st.op i o.descending none;
              built = rw (st.built, sort_index_lem s o.column i i_is) refl;
              gives = rw st.gives k;
            }),
        h',
      )

  pub project-Stage :
      (s : Schema) (t : Text) (p : Projection) (items : List ProjItem) (node : LogicalPlan)
      (rows : List Row)
      → plan_projection s t p ≡ planned items
      → Stage node (names s) rows
      → All (HasValues (names s)) rows
      → (out : List Row) × (project_rows (select_exprs p s) (names s) rows ≡ ok out)
        × Stage (LogicalPlan.projection items node) (select_names p s) out
  unfolding build from_logical rows_of
  project-Stage s t p items node rows e st h =
      let (expr_is, name_is, values) = plan_projection_lem s t p items e in
      let (out, k) = project_rows_total (select_exprs p s) (names s) rows (values (names s)) h in
      (
        out,
        k,
        record {
          op = project_op st.op (select_exprs p s) (names s);
          built = rw (st.built, expr_is, name_is) refl;
          gives = rw st.gives k;
        },
      )

  pub limit-Stage :
      (o : Option ℤ) (node node' : LogicalPlan) (columns : List Text) (rows : List Row)
      → plan_limit o node ≡ planned node'
      → IsLimit o
      → Stage node columns rows
      → Stage node' columns (limit_rows o rows)
  unfolding plan_limit limit_rows build from_logical rows_of as_usize refuse
  limit-Stage none node node' columns rows e b st =
      subst (λ n. Stage n columns rows) {x = node} {y = node'} (cc e) st
  limit-Stage (some (pos n)) node node' columns rows e b st =
      subst (λ m. Stage m columns (take n rows)) {x = LogicalPlan.limit (pos n) node} {y = node'}
        (cc e)
        (record {
          op = limit_op st.op (n % 2 ^ 64);
          built = rw st.built refl;
          gives = rw st.gives (ap (λ k. ok (take k rows)) (omega arith));
        })
  limit-Stage (some (negsuc n)) node node' columns rows e b st = cc e
