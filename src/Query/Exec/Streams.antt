-- ===== src/Query/Exec/Streams.antt =====
-- `next` and `drain` of src/query/exec.rs, against the reference rows.
use skipper_db.Base.{ℕ, zero, suc, ◌<◌, ◌≡◌, subst, List, some, none, take, arith}
use skipper_db.Errors.{ok, bind_parts}
use skipper_db.Query.Eval.{Row}
use skipper_db.Query.Sort.Steps.{length-sort_rows}
use skipper_db.Fuel.{done}
use skipper_db.Query.Exec.{Operator, scan_op, filter_op, project_op, sort_op, limit_op, drain}
use skipper_db.Query.Exec.Reference.{rows_of, enough}
use skipper_db.Query.Exec.Pulls.{
  rows_of_bound, Pulls, Pulling, Draining, scan_pull, filter_pull, project_pull, sorted_pull,
  sort_pull, limit_pull, drain_pull,
}

mutual
  unfolding rows_of enough

  -- A call of `next` with enough fuel.
  pub next_lem : (n : ℕ) → Pulling n
  next_lem zero op rs h b = absurd (omega (arith, rows_of_bound op rs h))
  next_lem (suc n) (scan_op rows) rs h b =
      subst (Pulls (suc n) (scan_op rows)) {x = rows} {y = rs} (cc h) (scan_pull n rows)
  next_lem (suc n) (filter_op input p cols) rs h b =
      let (xs, e, f) = bind_parts (rows_of input) _ h in
      filter_pull n input p cols xs rs (next_lem n) (next_lem n input xs e (omega arith)) f
        (omega arith)
  next_lem (suc n) (project_op input es cols) rs h b =
      let (xs, e, f) = bind_parts (rows_of input) _ h in
      project_pull n input es cols xs rs (next_lem n input xs e (omega arith)) f
  next_lem (suc n) (sort_op input i d (some rows)) rs h b =
      subst (Pulls (suc n) (sort_op input i d (some rows))) {x = rows} {y = rs} (cc h)
        (sorted_pull n input i d rows)
  next_lem (suc n) (sort_op input i d none) rs h b =
      let (xs, e, f) = bind_parts (rows_of input) _ h in
      let (input', k) = drain_lem n input xs e (omega arith) in
      sort_pull n input input' i d xs rs k f
        (omega (arith, rows_of_bound input xs e, length-sort_rows i d xs rs f))
  next_lem (suc n) (limit_op input remaining) rs h b =
      let (xs, e, f) = bind_parts (rows_of input) _ h in
      subst (Pulls (suc n) (limit_op input remaining)) {x = take remaining xs} {y = rs} (cc f)
        (limit_pull n input remaining xs e (next_lem n input xs e (omega arith)))

  pub drain_lem : (n : ℕ) → Draining n
  drain_lem zero op rs h b = absurd (omega arith)
  drain_lem (suc n) op rs h b =
      drain_pull n op rs (drain_lem n) (next_lem n op rs h (omega arith)) (omega arith)

-- An operator whose rows are defined, that is which evaluates all its expressions without a panic, is
-- drained to exactly those rows, in order, with any fuel above a bound that is computed from it.
pub drain-rows_of :
    (op : Operator) (rs : List Row) (n : ℕ)
    → rows_of op ≡ ok rs
    → enough op < n
    → (op' : Operator) × (drain n op ≡ done (ok (op', rs)))
drain-rows_of op rs n h b = drain_lem n op rs h b
