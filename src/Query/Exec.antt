-- ===== src/Query/Exec.antt =====
-- src/query/exec.rs: the pull operators, and the rows of a query.
-- A run of an operator ends in a Result, or is out of fuel. The rows of a table are a parameter.
pub mod Reference
pub mod Pulls
pub mod Streams
use skipper_db.Base.{ℕ, zero, suc, Bool, true, false, List, [], ◌∷◌, Option, some, none}
use skipper_db.Base.Utf8.{Text}
use skipper_db.Fuel.{Run, done, out_of_fuel, ◌>>=◌, ◌>>◌}
use skipper_db.Errors.{Result, ok, err, panic}
use skipper_db.Parser.Ast.{Expr}
use skipper_db.Query.Eval.{Row, eval_predicate, eval_items}
use skipper_db.Query.Sort.{sort_rows}

-- The operators with their state: `scan_op` has the rows that are left, `sort_op` the sorted rows
-- that are left once it has drained its input, and `limit_op` the number of rows it may still give.
pub data Operator : Type 0 where
  scan_op : List Row → Operator
  filter_op : Operator → Expr → List Text → Operator
  project_op : Operator → List Expr → List Text → Operator
  sort_op : Operator → ℕ → Bool → Option (List Row) → Operator
  limit_op : Operator → ℕ → Operator

-- The first row of an iterator, and the rows that are left.
abbrev pub first : List Row → Option Row
first [] = none
first (r ∷ rs) = some r

abbrev pub later : List Row → List Row
later [] = []
later (r ∷ rs) = rs

-- `next`, and the loop that drains an operator. Fuel is spent by every call.
unfoldable mutual
  pub next : ℕ → Operator → Run (Operator × Option Row)
  next zero op = out_of_fuel
  next (suc n) (scan_op rows) = done (ok (scan_op (later rows), first rows))
  next (suc n) (filter_op input predicate columns) = do
    (input', row) ← next n input
    elim row [
      | none ↦ done (ok (filter_op input' predicate columns, none))
      | some r ↦ (do
        keep ← done (eval_predicate predicate r columns)
        elim keep [
          | true ↦ done (ok (filter_op input' predicate columns, some r))
          | false ↦ next n (filter_op input' predicate columns)
        ])
    ]
  next (suc n) (project_op input items columns) = do
    (input', row) ← next n input
    elim row [
      | none ↦ done (ok (project_op input' items columns, none))
      | some r ↦ (do
        vs ← done (eval_items items r columns)
        done (ok (project_op input' items columns, some vs)))
    ]
  next (suc n) (sort_op input index descending (some rows)) =
      done (ok (sort_op input index descending (some (later rows)), first rows))
  next (suc n) (sort_op input index descending none) = do
    (input', rows) ← drain n input
    sorted ← done (sort_rows index descending rows)
    done (ok (sort_op input' index descending (some (later sorted)), first sorted))
  next (suc n) (limit_op input zero) = done (ok (limit_op input zero, none))
  next (suc n) (limit_op input (suc remaining)) = do
    (input', row) ← next n input
    elim row [
      | none ↦ done (ok (limit_op input' (suc remaining), none))
      | some r ↦ done (ok (limit_op input' remaining, some r))
    ]

  -- `while let Some(row) = op.next() { rows.push(row) }`
  pub drain : ℕ → Operator → Run (Operator × List Row)
  drain zero op = out_of_fuel
  drain (suc n) op = do
    (op', row) ← next n op
    elim row [
      | none ↦ done (ok (op', []))
      | some r ↦ (do (op'', rows) ← drain n op'; done (ok (op'', r ∷ rows)))
    ]

pub record ResultSet : Type 0 where
  pub columns : List Text
  pub rows : List Row

-- The arm of `execute` for a query, on an operator that `build` returned.
unfoldable pub run_query : ℕ → Result (Operator × List Text) → Run ResultSet
run_query fuel built = do
  (op, columns) ← done built
  (op', rows) ← drain fuel op
  done (ok (record { columns = columns; rows = rows }))
