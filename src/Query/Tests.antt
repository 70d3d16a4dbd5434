-- ===== src/Query/Tests.antt =====
-- A table of users, and the theorems about statements at it.
use skipper_db.Base.{
  get_elem?, ℕ, ◌≡◌, refl, true, false, List, [], ◌∷◌, ◌++◌, some, none, arith, if◌then◌else◌, ◌⊎◌,
  Bool,
}
use skipper_db.Base.Utf8.{
  Text, ascii, text_eq, cmp_text, eq_ignore_ascii_case, count_chars, to_lower,
}
use skipper_db.Base.Int.{pos, cmp_ℤ}
use skipper_db.Base.Decimal.{decimal_ℤ, decimal}
use skipper_db.Errors.{Result, ok, err, io, not_found}
use skipper_db.Types.{ColumnType, Value}
use skipper_db.Catalog.Schema.{Schema, position, column_index}
use skipper_db.Parser.Ast.{
  Expr, column, literal, function, compare, and, or, no_exprs, exprs, CompareOp, DataType, Select,
  Projection, CreateTable, Insert, ColumnDef,
}
use skipper_db.Parser.Ast
use skipper_db.Query.Plan.{
  LogicalPlan, format_expr, format_exprs, format_literal, format_op, join, indent,
}
use skipper_db.Query.Physical.{from_logical}
use skipper_db.Query.Physical
use skipper_db.Query.Planner.{
  Catalog, planned, refuse, quoted, find_schema, require_column, distinct_columns, is_member,
  plan_create_table, known_columns, listed_value, order_values, not_null_columns, plan_insert,
  validate_function, check_columns, check_args, output_name, plan_items, plan_projection,
  plan_filter, plan_order, plan_limit, plan_select,
}
use skipper_db.Query.Planner.Create.{Distinct, column_names, plan_create_table_lem}
use skipper_db.Query.Planner.Checked.{eval_checked}
use skipper_db.Query.Planner.Ordering.{Ordered, NullsAllowed, plan_insert_lem}
use skipper_db.Query.Eval.{
  Row, to_value, apply_function, compare_values, value_order, column_value, eval_scalar,
  eval_predicate, eval_first, eval_items,
}
use skipper_db.Query.Eval.Related.{Decides}
use skipper_db.Query.Eval.Meaning.{HasValue, Holds}
use skipper_db.Query.Eval.Holds.{eval_predicate-Holds}
use skipper_db.Query.Sort.{row_value, row_order, insert_row, sort_rows}
use skipper_db.Query.Sort.Sorted.{sort_rows_lem, Ordered as Sorted}
use skipper_db.Query.Sort.Places.{those}
use skipper_db.Fuel.{done}
use skipper_db.Query.Exec.{Operator, scan_op, filter_op, sort_op, next, drain, run_query}
use skipper_db.Query.Exec.Reference.{filter_rows, rows_of, enough}
use skipper_db.Query.Exec.Streams.{drain-rows_of}
use skipper_db.Query.Build.{build, sort_index, as_usize}
use skipper_db.Query.Select.{names, select_rows, select_names}
use skipper_db.Query.Select.Runs.{RunsTo, select_runs}
use skipper_db.Query.Select.Star.{star, select_star}
use mathlib.Core.List.{Perm}

abbrev users : Schema
users = record {
  columns =
      record { name = ascii "id"; ty = ColumnType.int; nullable = false }
      ∷ record { name = ascii "name"; ty = ColumnType.text; nullable = true }
      ∷ record { name = ascii "age"; ty = ColumnType.int; nullable = true }
      ∷ [];
}

abbrev tables : Catalog
unfolding text_eq
tables t = if text_eq t (ascii "users") then some users else none

abbrev person : ℕ → Text → ℕ → Row
person id name age = Value.int (pos id) ∷ Value.text name ∷ Value.int (pos age) ∷ []

abbrev people : List Row
people = person 1 (ascii "Alice") 20 ∷ person 2 (ascii "Bob") 17 ∷ person 3 (ascii "Carol") 30 ∷ []

abbrev files : Text → Result (List Row)
unfolding text_eq
files t = if text_eq t (ascii "users") then ok people else err (io not_found)

-- age > 18
abbrev adult : Expr
adult = compare (column (ascii "age")) CompareOp.gt (literal (Ast.int (pos 18)))

-- LENGTH(name)
abbrev name_length : Expr
name_length = function (ascii "length") (exprs (column (ascii "name")) no_exprs)

-- SELECT id, LENGTH(name) FROM users WHERE age > 18 ORDER BY name DESC LIMIT 10
abbrev query : Select
query = record {
  projection = Projection.items (
      record { expr = column (ascii "id"); alias = none }
      ∷ record { expr = name_length; alias = none }
      ∷ []);
  from = ascii "users";
  filter = some adult;
  order_by = some (record { column = ascii "name"; descending = true });
  limit = some (pos 10);
}

abbrev query_plan : LogicalPlan
query_plan = LogicalPlan.limit (pos 10) (
    LogicalPlan.projection
      (record { expr = column (ascii "id"); name = ascii "id" }
        ∷ record { expr = name_length; name = ascii "length(name)" }
        ∷ [])
      (LogicalPlan.sort (ascii "name") true
        (LogicalPlan.filter adult (LogicalPlan.scan (ascii "users") (names users)))))

query_planned : plan_select query tables ≡ planned query_plan
unfolding plan_select find_schema plan_filter check_columns check_args require_column column_index
    position text_eq validate_function eq_ignore_ascii_case to_lower plan_order plan_projection
    plan_items output_name format_expr format_exprs join plan_limit
query_planned = refl

query_text :
    Physical.write_at (from_logical query_plan) 0
    ≡ ascii "LimitExec 10\n"
      ++ (ascii "  ProjectionExec [id, length(name)]\n"
          ++ (ascii "    SortExec [name DESC]\n"
              ++ (ascii "      FilterExec [age > 18]\n" ++ ascii "        TableScanExec users\n")))
unfolding Physical.write_at from_logical format_expr format_op format_literal decimal_ℤ decimal join
    indent
query_text = refl

query_rows :
    run_query 100 (build files (from_logical query_plan))
    ≡ done (
        ok (record {
          columns = ascii "id" ∷ ascii "length(name)" ∷ [];
          rows =
              (Value.int (pos 3) ∷ Value.int (pos 5) ∷ [])
              ∷ (Value.int (pos 1) ∷ Value.int (pos 5) ∷ [])
              ∷ [];
        }))
unfolding run_query build from_logical sort_index as_usize position text_eq next drain
    eval_predicate eval_scalar eval_first eval_items apply_function compare_values column_value
    value_order cmp_text cmp_ℤ to_value sort_rows insert_row row_order row_value
    eq_ignore_ascii_case to_lower count_chars
query_rows = refl

select_runs_example :
    (out : List Row) × (select_rows query users people ≡ ok out)
    × RunsTo files query_plan (record { columns = select_names query.projection users; rows = out })
unfolding text_eq
select_runs_example =
    select_runs query tables files users people query_plan refl refl
      (omega arith, (omega arith, (omega arith, tt))) (omega arith) query_planned

select_star_example :
    (node : LogicalPlan) × (plan_select (star (ascii "users")) tables ≡ planned node)
    × RunsTo files node (record { columns = names users; rows = people })
unfolding text_eq
select_star_example =
    select_star (ascii "users") tables files users people refl refl
      (((λ e. cc e), ((λ e. cc e), tt)), (((λ e. cc e), tt), (tt, tt))) (refl, (refl, (refl, tt)))

-- The operator of the query, before the projection.
abbrev sorted_adults : Operator
sorted_adults = sort_op (filter_op (scan_op people) adult (names users)) 1 true none

adults_rows :
    rows_of sorted_adults ≡ ok (person 3 (ascii "Carol") 30 ∷ person 1 (ascii "Alice") 20 ∷ [])
unfolding rows_of filter_rows eval_predicate eval_scalar column_value position text_eq
    compare_values cmp_ℤ to_value sort_rows insert_row row_order row_value value_order cmp_text
adults_rows = refl

drain-rows_of_example :
    (op' : Operator) × (drain 8 sorted_adults
      ≡ done (ok (op', person 3 (ascii "Carol") 30 ∷ person 1 (ascii "Alice") 20 ∷ [])))
unfolding enough
drain-rows_of_example =
    drain-rows_of sorted_adults (person 3 (ascii "Carol") 30 ∷ person 1 (ascii "Alice") 20 ∷ []) 8
      adults_rows (omega arith)

sort_rows_lem_example :
    (ss : List Row) × (sort_rows 2 true people ≡ ok ss)
    × Perm ss people
    × Sorted 2 true ss
    × ((v : Value) (p : Row → Bool)
        → ((r : Row) → p r ≡ true → get_elem? r 2 ≡ some v)
        → those p ss ≡ those p people)
sort_rows_lem_example = sort_rows_lem 2 true people (omega arith, (omega arith, (omega arith, tt)))

eval_checked_example :
    ((v : Value) × (eval_scalar name_length (person 1 (ascii "Al") 20) (names users) ≡ ok v))
    × ((b : Bool) × (eval_predicate name_length (person 1 (ascii "Al") 20) (names users) ≡ ok b))
unfolding check_columns check_args require_column column_index position text_eq validate_function
    eq_ignore_ascii_case to_lower
eval_checked_example =
    eval_checked users (ascii "users") name_length (person 1 (ascii "Al") 20) (names users) refl
      (omega arith)

eval_predicate-Holds_example :
    ((v : Value) × (eval_scalar (or adult name_length) (person 1 (ascii "Al") 20) (names users)
        ≡ ok v)
      × HasValue (person 1 (ascii "Al") 20) (names users) (or adult name_length) v)
    × ((b : Bool) × (eval_predicate (or adult name_length) (person 1 (ascii "Al") 20) (names users)
          ≡ ok b)
        × Decides b (Holds (person 1 (ascii "Al") 20) (names users) (or adult name_length)))
unfolding check_columns check_args require_column column_index position text_eq validate_function
    eq_ignore_ascii_case to_lower
eval_predicate-Holds_example =
    eval_predicate-Holds users (ascii "users") (or adult name_length) (person 1 (ascii "Al") 20)
      (names users) refl (omega arith)

-- CREATE TABLE t (a INT, a TEXT)
abbrev twice : CreateTable
twice = record {
  table = ascii "t";
  columns =
      record { name = ascii "a"; ty = DataType.int; nullable = true }
      ∷ record { name = ascii "a"; ty = DataType.text; nullable = true }
      ∷ [];
}

twice_refused : plan_create_table twice ≡ refuse (ascii "duplicate column \"a\"")
unfolding plan_create_table distinct_columns is_member text_eq refuse
twice_refused = refl

plan_create_table_lem_example :
    ((plan_create_table twice ≡ planned (LogicalPlan.create_table twice.table twice.columns))
      × Distinct (column_names twice.columns))
    ⊎ ((c : Text) × (plan_create_table twice ≡ refuse (ascii "duplicate column " ++ quoted c))
        × (¬ Distinct (column_names twice.columns)))
plan_create_table_lem_example = plan_create_table_lem twice

-- INSERT INTO users (age, id) VALUES (40, 9)
abbrev zoe : Insert
zoe = record {
  table = ascii "users";
  columns = some (ascii "age" ∷ ascii "id" ∷ []);
  values = Ast.int (pos 40) ∷ Ast.int (pos 9) ∷ [];
}

abbrev zoe_plan : LogicalPlan
zoe_plan = LogicalPlan.insert (ascii "users") (Ast.int (pos 9) ∷ Ast.null ∷ Ast.int (pos 40) ∷ [])

zoe_planned : plan_insert zoe tables ≡ planned zoe_plan
unfolding plan_insert find_schema order_values known_columns require_column column_index position
    text_eq listed_value not_null_columns
zoe_planned = refl

plan_insert_lem_example :
    (vs : List Ast.Literal) × (zoe_plan ≡ LogicalPlan.insert zoe.table vs)
    × Ordered zoe.columns users zoe.values vs
    × NullsAllowed vs users.columns
unfolding text_eq
plan_insert_lem_example = plan_insert_lem zoe tables users zoe_plan refl zoe_planned
