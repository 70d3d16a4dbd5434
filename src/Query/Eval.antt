-- ===== src/Query/Eval.antt =====
-- src/query/exec.rs: the evaluation of expressions on a row, and the order of values.
pub mod Leaves
pub mod Values
pub mod Related
pub mod Meaning
pub mod Holds
use skipper_db.Base.{
  [], ◌∷◌, ℕ, Bool, true, false, List, some, none, get_elem?, ◌==◌, not, if◌then◌else◌, Ordering,
}
use skipper_db.Base.Int.{pos, negsuc, cmp_ℤ}
use skipper_db.Base.Utf8.{Text, ascii, text_eq, cmp_text, count_chars, eq_ignore_ascii_case}
use skipper_db.Errors.{Result, ok, panic, ◌>>=◌}
use skipper_db.Types.{Value}
use skipper_db.Catalog.Schema.{position}
use skipper_db.Parser.Ast.{
  Literal, CompareOp, Expr, Exprs, column, literal, function, compare, and, or, no_exprs, exprs,
}

abbrev pub Row : Type 0
Row = List Value

unfoldable pub to_value : Literal → Value
to_value (Literal.int n) = Value.int n
to_value (Literal.str s) = Value.text s
to_value Literal.null = Value.null

unfoldable pub apply_function : Text → Value → Value
apply_function name (Value.text s) =
    if eq_ignore_ascii_case name (ascii "LENGTH")
    then Value.int (pos (count_chars s))
    else Value.null
apply_function name (Value.int n) = Value.null
apply_function name Value.null = Value.null

abbrev pub op_holds : CompareOp → Ordering → Bool
op_holds CompareOp.eq Ordering.eq = true
op_holds CompareOp.eq _ = false
op_holds CompareOp.not_eq Ordering.eq = false
op_holds CompareOp.not_eq _ = true
op_holds CompareOp.lt Ordering.lt = true
op_holds CompareOp.lt _ = false
op_holds CompareOp.lt_eq Ordering.gt = false
op_holds CompareOp.lt_eq _ = true
op_holds CompareOp.gt Ordering.gt = true
op_holds CompareOp.gt _ = false
op_holds CompareOp.gt_eq Ordering.lt = false
op_holds CompareOp.gt_eq _ = true

-- NULLs and values of two types are in no relation.
unfoldable pub compare_values : Value → CompareOp → Value → Bool
compare_values (Value.int a) op (Value.int b) = op_holds op (cmp_ℤ a b)
compare_values (Value.text a) op (Value.text b) = op_holds op (cmp_text a b)
compare_values _ op _ = false

-- The order of ORDER BY.
unfoldable pub value_order : Value → Value → Ordering
value_order Value.null Value.null = Ordering.eq
value_order Value.null _ = Ordering.lt
value_order _ Value.null = Ordering.gt
value_order (Value.int x) (Value.int y) = cmp_ℤ x y
value_order (Value.text x) (Value.text y) = cmp_text x y
value_order (Value.int x) (Value.text y) = Ordering.lt
value_order (Value.text x) (Value.int y) = Ordering.gt

-- `matches!(v, Value::Int(n) if n != 0)`
abbrev pub is_true : Value → Bool
is_true (Value.int (pos n)) = not (n == 0)
is_true (Value.int (negsuc n)) = true
is_true (Value.text s) = false
is_true Value.null = false

-- `v as i64` of a `bool`
abbrev pub of_bool : Bool → Value
of_bool true = Value.int (pos 1)
of_bool false = Value.int (pos 0)

-- The value of a column: NULL if no column has the name, and a panic if the row is too short.
unfoldable pub column_value : Text → Row → List Text → Result Value
column_value name row columns = elim (position (λ c. text_eq c name) columns) [
  | none ↦ ok Value.null
  | some i ↦ elim (get_elem? row i) [ none ↦ panic | some v ↦ ok v ]
]

-- `l && r` and `l || r`, where `r` is not looked at if `l` decides.
abbrev pub and_also : Result Bool → Result Bool → Result Bool
and_also l r = l >>= λ a. if a then r else ok false

abbrev pub or_else : Result Bool → Result Bool → Result Bool
or_else l r = l >>= λ a. if a then ok true else r

-- `eval_scalar` and `eval_predicate` call one another at the same expression; here each has those
-- calls written out. `eval_first` is the value of `args[0]`.
unfoldable mutual
  pub eval_scalar : Expr → Row → List Text → Result Value
  eval_scalar (column name) row columns = column_value name row columns
  eval_scalar (literal l) row columns = ok (to_value l)
  eval_scalar (function name args) row columns = do
    v ← eval_first args row columns
    ok (apply_function name v)
  eval_scalar (compare left op right) row columns = do
    l ← eval_scalar left row columns
    r ← eval_scalar right row columns
    ok (of_bool (compare_values l op r))
  eval_scalar (and l r) row columns = do
    b ← and_also (eval_predicate l row columns) (eval_predicate r row columns)
    ok (of_bool b)
  eval_scalar (or l r) row columns = do
    b ← or_else (eval_predicate l row columns) (eval_predicate r row columns)
    ok (of_bool b)

  pub eval_predicate : Expr → Row → List Text → Result Bool
  eval_predicate (column name) row columns = do v ← column_value name row columns; ok (is_true v)
  eval_predicate (literal l) row columns = ok (is_true (to_value l))
  eval_predicate (function name args) row columns = do
    v ← eval_first args row columns
    ok (is_true (apply_function name v))
  eval_predicate (compare left op right) row columns = do
    l ← eval_scalar left row columns
    r ← eval_scalar right row columns
    ok (compare_values l op r)
  eval_predicate (and l r) row columns =
      and_also (eval_predicate l row columns) (eval_predicate r row columns)
  eval_predicate (or l r) row columns =
      or_else (eval_predicate l row columns) (eval_predicate r row columns)

  pub eval_first : Exprs → Row → List Text → Result Value
  eval_first no_exprs row columns = panic
  eval_first (exprs e es) row columns = eval_scalar e row columns

-- The values of the expressions on a row, in order.
unfoldable pub eval_items : List Expr → Row → List Text → Result Row
eval_items [] row columns = ok []
eval_items (e ∷ es) row columns = do
  v ← eval_scalar e row columns
  vs ← eval_items es row columns
  ok (v ∷ vs)
