-- ===== src/Query/Planner.antt =====
-- src/query/mod.rs: statements are checked against the catalog and become logical plans.
pub mod Checked
pub mod Create
pub mod Ordering
use skipper_db.Base.{
  ℕ, suc, Bool, true, false, List, [], ◌∷◌, ◌++◌, Option, some, none, map, length, get_or, ◌==◌,
  if◌then◌else◌,
}
use skipper_db.Base.Int.{ℤ, pos, negsuc}
use skipper_db.Base.Utf8.{Text, ascii, text_eq, eq_ignore_ascii_case}
use skipper_db.Base.Decimal.{decimal, decimal_ℤ}
use skipper_db.Catalog.Schema.{Schema, Column, column_index, position}
use skipper_db.Parser.Ast.{
  ColumnDef, Literal, Expr, Exprs, column, literal, function, compare, and, or, no_exprs, exprs,
  CreateTable, Insert, Select, SelectItem, Projection, OrderBy, Statement,
}
use skipper_db.Query.Plan.{ProjItem, LogicalPlan, format_expr}

pub record PlanError : Type 0 where
  pub message : Text

pub data PlanResult {ℓ} (A : Type ℓ) : Type ℓ where
  planned : A → PlanResult A
  refused : PlanError → PlanResult A

infixl 5 ◌>>=◌ ◌>>◌
abbrev pub ◌>>=◌ {ℓ κ} :
    {A : Type ℓ} {B : Type κ} → PlanResult A → (A → PlanResult B) → PlanResult B
planned a >>= f = f a
refused e >>= f = refused e

abbrev pub ◌>>◌ {ℓ κ} : {A : Type ℓ} {B : Type κ} → PlanResult A → PlanResult B → PlanResult B
m >> k = m >>= λ _. k

-- `trait Catalog`: the schema of a table, if there is one.
abbrev pub Catalog : Type 0
Catalog = Text → Option Schema

abbrev pub quoted : Text → Text
quoted t = b'"' ∷ (t ++ (b'"' ∷ []))

unfoldable pub refuse {ℓ} : {A : Type ℓ} → Text → PlanResult A
refuse message = refused (record { message = message })

unfoldable pub unknown_table {ℓ} : {A : Type ℓ} → Text → PlanResult A
unfolding refuse
unknown_table t = refuse (ascii "unknown table " ++ quoted t)

unfoldable pub unknown_column {ℓ} : {A : Type ℓ} → Text → Text → PlanResult A
unfolding refuse
unknown_column c t =
    refuse (ascii "unknown column " ++ (quoted c ++ (ascii " in table " ++ quoted t)))

-- The schema of a table that must be there.
unfoldable pub find_schema : Catalog → Text → PlanResult Schema
unfolding unknown_table
find_schema catalog t = elim (catalog t) [ none ↦ unknown_table t | some s ↦ planned s ]

unfoldable pub require_column : Schema → Text → Text → PlanResult (Unit {0})
require_column s t c = elim (column_index s c) [ none ↦ unknown_column c t | some i ↦ planned tt ]

unfoldable pub is_member : Text → List Text → Bool
is_member t [] = false
is_member t (u ∷ us) = if text_eq u t then true else is_member t us

-- The loop of `plan_create_table` over the columns, with the names seen so far.
unfoldable pub distinct_columns : List Text → List ColumnDef → PlanResult (Unit {0})
distinct_columns seen [] = planned tt
distinct_columns seen (c ∷ cs) =
    let rest = distinct_columns (c.name ∷ seen) cs in
    if is_member c.name seen then refuse (ascii "duplicate column " ++ quoted c.name) else rest

unfoldable pub plan_create_table : CreateTable → PlanResult LogicalPlan
plan_create_table ct =
    distinct_columns [] ct.columns >> planned (LogicalPlan.create_table ct.table ct.columns)

-- The loop of `plan_insert` over the listed names.
unfoldable pub known_columns : Schema → Text → List Text → PlanResult (Unit {0})
known_columns s t [] = planned tt
known_columns s t (n ∷ ns) = require_column s t n >> known_columns s t ns

-- The value listed for a column, or NULL. There are as many values as names, so the index that
-- `position` finds is an index of `values`.
unfoldable pub listed_value : List Text → List Literal → Column → Literal
listed_value names values c = elim (position (λ n. text_eq n c.name) names) [
  | none ↦ Literal.null
  | some i ↦ get_or values i Literal.null
]

-- The values in the order of the table's columns.
unfoldable pub order_values :
    Schema → Text → Option (List Text) → List Literal → PlanResult (List Literal)
order_values s t none values =
    if length values == length s.columns
    then planned values
    else refuse (
        ascii "table "
        ++ (quoted t
            ++ (ascii " expects "
                ++ (decimal (length s.columns)
                    ++ (ascii " values but got " ++ decimal (length values))))))
order_values s t (some names) values =
    if length names == length values
    then known_columns s t names >> planned (map (listed_value names values) s.columns)
    else refuse (
        ascii "got "
        ++ (decimal (length names)
            ++ (ascii " columns but " ++ (decimal (length values) ++ ascii " values"))))

abbrev pub is_null : Literal → Bool
is_null Literal.null = true
is_null _ = false

-- The last loop of `plan_insert`.
unfoldable pub not_null_columns : List Literal → List Column → PlanResult (Unit {0})
not_null_columns (v ∷ vs) (c ∷ cs) =
    let rest = not_null_columns vs cs in
    if is_null v
    then (if c.nullable
        then rest
        else refuse (ascii "column " ++ (quoted c.name ++ ascii " is NOT NULL")))
    else rest
not_null_columns [] cs = planned tt
not_null_columns (v ∷ vs) [] = planned tt

unfoldable pub plan_insert : Insert → Catalog → PlanResult LogicalPlan
plan_insert ins catalog = do
  s ← find_schema catalog ins.table
  ordered ← order_values s ins.table ins.columns ins.values
  not_null_columns ordered s.columns
  planned (LogicalPlan.insert ins.table ordered)

unfoldable pub validate_function : Text → ℕ → PlanResult (Unit {0})
validate_function name argc =
    if eq_ignore_ascii_case name (ascii "LENGTH")
    then (if argc == 1
        then planned tt
        else refuse (ascii "LENGTH expects 1 argument, got " ++ decimal argc))
    else refuse (ascii "unknown function " ++ quoted name)

abbrev pub args_len : Exprs → ℕ
args_len no_exprs = 0
args_len (exprs e es) = suc (args_len es)

unfoldable mutual
  pub check_columns : Schema → Text → Expr → PlanResult (Unit {0})
  check_columns s t (column c) = require_column s t c
  check_columns s t (literal l) = planned tt
  check_columns s t (function name args) =
      validate_function name (args_len args) >> check_args s t args
  check_columns s t (compare l op r) = check_columns s t l >> check_columns s t r
  check_columns s t (and l r) = check_columns s t l >> check_columns s t r
  check_columns s t (or l r) = check_columns s t l >> check_columns s t r

  pub check_args : Schema → Text → Exprs → PlanResult (Unit {0})
  check_args s t no_exprs = planned tt
  check_args s t (exprs e es) = check_columns s t e >> check_args s t es

unfoldable pub output_name : SelectItem → Text
output_name item = elim item.alias [
  | some a ↦ a
  | none ↦ elim item.expr [ column c ↦ c | other ↦ format_expr other ]
]

-- The loop of `plan_select` over the items.
unfoldable pub plan_items : Schema → Text → List SelectItem → PlanResult (List ProjItem)
plan_items s t [] = planned []
plan_items s t (item ∷ rest) = do
  check_columns s t item.expr
  out ← plan_items s t rest
  planned (record { expr = item.expr; name = output_name item } ∷ out)

abbrev pub all_items : Schema → List ProjItem
all_items s = map (λ c. record { expr = column c.name; name = c.name }) s.columns

unfoldable pub plan_projection : Schema → Text → Projection → PlanResult (List ProjItem)
plan_projection s t Projection.all = planned (all_items s)
plan_projection s t (Projection.items is) = plan_items s t is

unfoldable pub plan_filter : Schema → Text → Option Expr → LogicalPlan → PlanResult LogicalPlan
plan_filter s t none node = planned node
plan_filter s t (some predicate) node =
    check_columns s t predicate >> planned (LogicalPlan.filter predicate node)

unfoldable pub plan_order : Schema → Text → Option OrderBy → LogicalPlan → PlanResult LogicalPlan
plan_order s t none node = planned node
plan_order s t (some order) node =
    require_column s t order.column >> planned (LogicalPlan.sort order.column order.descending node)

unfoldable pub plan_limit : Option ℤ → LogicalPlan → PlanResult LogicalPlan
plan_limit none node = planned node
plan_limit (some (pos n)) node = planned (LogicalPlan.limit (pos n) node)
plan_limit (some (negsuc n)) node =
    refuse (ascii "LIMIT must not be negative, got " ++ decimal_ℤ (negsuc n))

unfoldable pub plan_select : Select → Catalog → PlanResult LogicalPlan
plan_select sel catalog = do
  s ← find_schema catalog sel.from
  let source = LogicalPlan.scan sel.from (map (λ c. c.name) s.columns)
  filtered ← plan_filter s sel.from sel.filter source
  ordered ← plan_order s sel.from sel.order_by filtered
  items ← plan_projection s sel.from sel.projection
  plan_limit sel.limit (LogicalPlan.projection items ordered)

unfoldable pub plan : Statement → Catalog → PlanResult LogicalPlan
plan (Statement.create_table ct) catalog = plan_create_table ct
plan (Statement.insert ins) catalog = plan_insert ins catalog
plan (Statement.select sel) catalog = plan_select sel catalog
