-- ===== src/Query/Select/Star.antt =====
-- SELECT * in src/query/mod.rs and src/query/exec.rs.
use skipper_db.Base.{
  ◌≡◌, ◌≢◌, refl, sym, ◌∙◌, subst, List, [], ◌∷◌, none, some, map, length, All, inl, inr,
  Bool-cases, Option-cases, arith,
}
use skipper_db.Base.Utf8.{Text, text_eq, text_eq_refl, text_eq→eq}
use skipper_db.Errors.{Result, ok}
use skipper_db.Types.{Value}
use skipper_db.Catalog.Schema.{Schema, position}
use skipper_db.Parser.Ast.{column, Select, Projection}
use skipper_db.Query.Plan.{LogicalPlan}
use skipper_db.Query.Planner.{
  Catalog, planned, plan_select, plan_filter, plan_order, plan_projection, plan_limit, all_items,
}
use skipper_db.Query.Planner.Create.{Differs, Distinct}
use skipper_db.Query.Planner.Checked.{HasValues}
use skipper_db.Query.Eval.{Row, eval_items, eval_scalar, column_value}
use skipper_db.Query.Exec.Reference.{project_rows}
use skipper_db.Query.Select.{
  names, select_rows, select_exprs, select_names, where_rows, order_rows, limit_rows,
}
use skipper_db.Query.Select.Runs.{RunsTo, select_runs, find_schema_lem}

-- A column of another name does not count.
column_value_shift :
    (m n : Text) (v : Value) (row : Row) (columns : List Text)
    → m ≢ n
    → column_value m (v ∷ row) (n ∷ columns) ≡ column_value m row columns
unfolding column_value position
column_value_shift m n v row columns h = elim (Bool-cases (text_eq n m)) [
  | inl same ↦ absurd (h (sym (text_eq→eq n m same)))
  | inr other ↦ elim (Option-cases (position (λ c. text_eq c m) columns)) [
    | inl e ↦ rw (column_value, position, other, e) refl
    | inr (i, e) ↦ rw (column_value, position, other, e) refl
  ]
]

column_value_here :
    (n : Text) (v : Value) (row : Row) (columns : List Text)
    → column_value n (v ∷ row) (n ∷ columns) ≡ ok v
unfolding column_value position
column_value_here n v row columns = rw (column_value, position, text_eq_refl n) refl

eval_items_shift :
    (ms : List Text) (n : Text) (v : Value) (row : Row) (columns : List Text)
    → Differs n ms
    → eval_items (map column ms) (v ∷ row) (n ∷ columns) ≡ eval_items (map column ms) row columns
unfolding eval_items eval_scalar
eval_items_shift [] n v row columns h = refl
eval_items_shift (m ∷ ms) n v row columns h =
    rw (column_value_shift m n v row columns h.0, eval_items_shift ms n v row columns h.1) refl

-- A row has the values of its columns.
eval_items_all :
    (columns : List Text) (row : Row)
    → Distinct columns
    → length row ≡ length columns
    → eval_items (map column columns) row columns ≡ ok row
unfolding eval_items eval_scalar
eval_items_all [] [] d h = refl
eval_items_all [] (v ∷ row) d h = absurd (omega arith)
eval_items_all (n ∷ columns) [] d h = absurd (omega arith)
eval_items_all (n ∷ columns) (v ∷ row) d h =
    rw
      (
        column_value_here n v row columns,
        eval_items_shift columns n v row columns d.0,
        eval_items_all columns row d.1 (omega arith),
      )
      refl

-- One value for each column.
abbrev pub IsFull : List Text → Row → Type 0
IsFull columns row = length row ≡ length columns

project_rows-All :
    (columns : List Text) (rows : List Row)
    → Distinct columns
    → All (IsFull columns) rows
    → project_rows (map column columns) columns rows ≡ ok rows
unfolding project_rows
project_rows-All columns [] d h = refl
project_rows-All columns (r ∷ rs) d h =
    rw (eval_items_all columns r d h.0, project_rows-All columns rs d h.1) refl

All-HasValues :
    (columns : List Text) (rows : List Row)
    → All (IsFull columns) rows
    → All (HasValues columns) rows
All-HasValues columns [] h = tt
All-HasValues columns (r ∷ rs) h = (omega (arith, h.0), All-HasValues columns rs h.1)

-- `SELECT * FROM t`
abbrev pub star : Text → Select
star t = record {
  projection = Projection.all;
  from = t;
  filter = none;
  order_by = none;
  limit = none;
}

ok_inj : {x y : List Row} → ok x ≡ ok y → x ≡ y
ok_inj h = cc h

-- SELECT * from a table whose columns have different names and whose rows have one value for each
-- column is planned and runs, without a panic, to the rows of the table under the names of its columns.
pub select_star :
    (t : Text) (catalog : Catalog) (read_table : Text → Result (List Row)) (s : Schema)
    (rows : List Row)
    → catalog t ≡ some s
    → read_table t ≡ ok rows
    → Distinct (names s)
    → All (IsFull (names s)) rows
    → (node : LogicalPlan) × (plan_select (star t) catalog ≡ planned node)
      × RunsTo read_table node (record { columns = names s; rows = rows })
unfolding plan_select plan_filter plan_order plan_projection plan_limit select_rows where_rows
    order_rows select_exprs select_names limit_rows
select_star t catalog read_table s rows there found d full =
    let node = LogicalPlan.projection (all_items s) (LogicalPlan.scan t (names s)) in
    let is_planned : plan_select (star t) catalog ≡ planned node =
      rw (plan_select, find_schema_lem catalog t s there) refl in
    let (out, selected, runs) =
      select_runs (star t) catalog read_table s rows node there found
        (All-HasValues (names s) rows full) tt is_planned in
    let whole = project_rows-All (names s) rows d full in
    let same : out ≡ rows = ok_inj (sym selected ∙ rw whole refl) in
    (
      node,
      is_planned,
      subst (λ l. RunsTo read_table node (record { columns = names s; rows = l })) same runs,
    )
