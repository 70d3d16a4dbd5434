-- ===== src/Query/Planner/Checked.antt =====
-- The checks of src/query/mod.rs, and the evaluation of checked expressions in src/query/exec.rs.
use skipper_db.Base.{
  ℕ, suc, ◌<◌, ◌≤◌, ◌≡◌, refl, ap, Bool, true, false, List, [], ◌∷◌, Option, some, none, length,
  get_elem?_lt, arith, Option-cases, inl, inr, if◌then◌else◌,
}
use skipper_db.Base.Utf8.{Text, text_eq}
use mathlib.Core.Option.{some_inj}
use skipper_db.Errors.{ok}
use skipper_db.Errors
use skipper_db.Types.{Value}
use skipper_db.Catalog.Schema.{Schema, position}
use skipper_db.Parser.Ast.{
  Expr, Exprs, column, literal, function, compare, and, or, no_exprs, exprs,
}
use skipper_db.Query.Planner.{
  PlanResult, planned, refused, ◌>>=◌, check_columns, check_args, validate_function, refuse,
  args_len,
}
use skipper_db.Query.Eval.{
  Row, eval_scalar, eval_predicate, eval_first, column_value, and_also, or_else, apply_function,
  is_true, of_bool, compare_values, to_value,
}

pub planned_parts {ℓ κ} :
    {A : Type ℓ} {B : Type κ} (m : PlanResult A) (f : A → PlanResult B) {y : B}
    → (m >>= f) ≡ planned y
    → (x : A) × (m ≡ planned x) × (f x ≡ planned y)
planned_parts (planned x) f h = (x, refl, h)
planned_parts (refused e) f h = cc h

-- The step of `position` behind its test.
step_bound :
    (b : Bool) (o : Option ℕ) (n i : ℕ)
    → ((j : ℕ) → o ≡ some j → j < n)
    → (if b then some 0 else elim o [ none ↦ none | some j ↦ some (suc j) ]) ≡ some i
    → i < suc n
step_bound true o n i more h = omega (arith, some_inj.0 h)
step_bound false none n i more h = cc h
step_bound false (some j) n i more h = omega (arith, some_inj.0 h, more j refl)

pub position_bound {ℓ} :
    {A : Type ℓ} (p : A → Bool) (xs : List A) (i : ℕ) → position p xs ≡ some i → i < length xs
unfolding position
position_bound p [] i h = cc h
position_bound p (x ∷ xs) i h =
    step_bound (p x) (position p xs) (length xs) i (λ j. position_bound p xs j) h

pub column_value_lem :
    (name : Text) (row : Row) (columns : List Text)
    → length columns ≤ length row
    → (v : Value) × (column_value name row columns ≡ ok v)
unfolding column_value
column_value_lem name row columns h = elim (Option-cases (position (λ c. text_eq c name) columns)) [
  | inl none_there ↦ (Value.null, rw (none_there, column_value) refl)
  | inr (i, there) ↦
      let (v, e) =
        get_elem?_lt row i (omega (arith, position_bound (λ c. text_eq c name) columns i there)) in
      (v, rw (there, column_value, e) refl)
]

-- The row has a value for each column.
abbrev pub HasValues : List Text → Row → Type 0
HasValues columns row = length columns ≤ length row

and_also_lem : (a b : Bool) → (c : Bool) × (and_also (ok a) (ok b) ≡ ok c)
and_also_lem true b = (b, refl)
and_also_lem false b = (false, refl)

or_else_lem : (a b : Bool) → (c : Bool) × (or_else (ok a) (ok b) ≡ ok c)
or_else_lem true b = (true, refl)
or_else_lem false b = (b, refl)

-- The check of a function passes LENGTH of one argument only.
validate_function_lem :
    (name : Text) (argc : ℕ) {u : Unit {0}} → validate_function name argc ≡ planned u → argc ≡ 1
unfolding validate_function refuse
validate_function_lem name argc h = ground (arith, h)

mutual
  unfolding eval_scalar eval_predicate eval_first check_columns check_args

  -- A checked expression has a value.
  pub eval_scalar_lem :
      (s : Schema) (t : Text) (e : Expr) (row : Row) (columns : List Text)
      → check_columns s t e ≡ planned tt
      → HasValues columns row
      → (v : Value) × (eval_scalar e row columns ≡ ok v)
  eval_scalar_lem s t (column name) row columns h k = column_value_lem name row columns k
  eval_scalar_lem s t (literal l) row columns h k = (to_value l, refl)
  eval_scalar_lem s t (function name args) row columns h k =
      let (u, e, f) = planned_parts (validate_function name (args_len args)) _ h in
      let (v, v_is) =
        eval_first_lem s t args row columns (validate_function_lem name (args_len args) e) f k in
      (apply_function name v, rw v_is refl)
  eval_scalar_lem s t (compare l op r) row columns h k =
      let (u, e, f) = planned_parts (check_columns s t l) _ h in
      let (x, x_is) = eval_scalar_lem s t l row columns e k in
      let (y, y_is) = eval_scalar_lem s t r row columns f k in
      (of_bool (compare_values x op y), rw (x_is, y_is) refl)
  eval_scalar_lem s t (and l r) row columns h k =
      let (u, e, f) = planned_parts (check_columns s t l) _ h in
      let (a, a_is) = eval_predicate_lem s t l row columns e k in
      let (b, b_is) = eval_predicate_lem s t r row columns f k in
      let (c, c_is) = and_also_lem a b in
      (of_bool c, rw (a_is, b_is) (ap (λ m. Errors.◌>>=◌ m λ q. ok (of_bool q)) c_is))
  eval_scalar_lem s t (or l r) row columns h k =
      let (u, e, f) = planned_parts (check_columns s t l) _ h in
      let (a, a_is) = eval_predicate_lem s t l row columns e k in
      let (b, b_is) = eval_predicate_lem s t r row columns f k in
      let (c, c_is) = or_else_lem a b in
      (of_bool c, rw (a_is, b_is) (ap (λ m. Errors.◌>>=◌ m λ q. ok (of_bool q)) c_is))

  pub eval_predicate_lem :
      (s : Schema) (t : Text) (e : Expr) (row : Row) (columns : List Text)
      → check_columns s t e ≡ planned tt
      → HasValues columns row
      → (b : Bool) × (eval_predicate e row columns ≡ ok b)
  eval_predicate_lem s t (column name) row columns h k =
      let (v, e) = column_value_lem name row columns k in (is_true v, rw e refl)
  eval_predicate_lem s t (literal l) row columns h k = (is_true (to_value l), refl)
  eval_predicate_lem s t (function name args) row columns h k =
      let (u, e, f) = planned_parts (validate_function name (args_len args)) _ h in
      let (v, v_is) =
        eval_first_lem s t args row columns (validate_function_lem name (args_len args) e) f k in
      (is_true (apply_function name v), rw v_is refl)
  eval_predicate_lem s t (compare l op r) row columns h k =
      let (u, e, f) = planned_parts (check_columns s t l) _ h in
      let (x, x_is) = eval_scalar_lem s t l row columns e k in
      let (y, y_is) = eval_scalar_lem s t r row columns f k in
      (compare_values x op y, rw (x_is, y_is) refl)
  eval_predicate_lem s t (and l r) row columns h k =
      let (u, e, f) = planned_parts (check_columns s t l) _ h in
      let (a, a_is) = eval_predicate_lem s t l row columns e k in
      let (b, b_is) = eval_predicate_lem s t r row columns f k in
      let (c, c_is) = and_also_lem a b in (c, rw (a_is, b_is) c_is)
  eval_predicate_lem s t (or l r) row columns h k =
      let (u, e, f) = planned_parts (check_columns s t l) _ h in
      let (a, a_is) = eval_predicate_lem s t l row columns e k in
      let (b, b_is) = eval_predicate_lem s t r row columns f k in
      let (c, c_is) = or_else_lem a b in (c, rw (a_is, b_is) c_is)

  -- The arguments of a checked function start with a value.
  eval_first_lem :
      (s : Schema) (t : Text) (args : Exprs) (row : Row) (columns : List Text)
      → args_len args ≡ 1
      → check_args s t args ≡ planned tt
      → HasValues columns row
      → (v : Value) × (eval_first args row columns ≡ ok v)
  eval_first_lem s t no_exprs row columns n h k = absurd (omega arith)
  eval_first_lem s t (exprs e es) row columns n h k =
      let (u, c, f) = planned_parts (check_columns s t e) _ h in
      eval_scalar_lem s t e row columns c k

-- An expression that passes the planner's check is evaluated without a panic, as a value and as a
-- condition, on every row that has a value for each column.
pub eval_checked :
    (s : Schema) (t : Text) (e : Expr) (row : Row) (columns : List Text)
    → check_columns s t e ≡ planned tt
    → length columns ≤ length row
    → ((v : Value) × (eval_scalar e row columns ≡ ok v))
      × ((b : Bool) × (eval_predicate e row columns ≡ ok b))
eval_checked s t e row columns c h =
    (eval_scalar_lem s t e row columns c h, eval_predicate_lem s t e row columns c h)
