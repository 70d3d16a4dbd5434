-- ===== src/Query/Exec/Pulls.antt =====
-- One call of `next` of src/query/exec.rs on each operator, against the reference rows.
use skipper_db.Base.{
  ℕ, zero, suc, ◌≤◌, ◌<◌, ◌≡◌, refl, sym, ap, subst, Bool, true, false, List, [], ◌∷◌, some, none,
  length, length-take, take, if◌then◌else◌, arith,
}
use skipper_db.Base.Utf8.{Text}
use skipper_db.Errors.{ok, bind_parts}
use skipper_db.Parser.Ast.{Expr}
use skipper_db.Query.Eval.{Row, eval_predicate, eval_items}
use skipper_db.Query.Sort.{sort_rows}
use skipper_db.Query.Sort.Steps.{length-sort_rows}
use skipper_db.Fuel.{done}
use skipper_db.Query.Exec.{Operator, scan_op, filter_op, project_op, sort_op, limit_op, next, drain}
use skipper_db.Query.Exec.Reference.{filter_rows, project_rows, rows_of, enough}

-- The rows that a filter keeps, one row at a time.
filter_parts :
    (p : Expr) (cols : List Text) (r : Row) (rs out : List Row)
    → filter_rows p cols (r ∷ rs) ≡ ok out
    → (keep : Bool) × (kept : List Row) × (eval_predicate p r cols ≡ ok keep)
      × (filter_rows p cols rs ≡ ok kept)
      × (out ≡ (if keep then r ∷ kept else kept))
unfolding filter_rows
filter_parts p cols r rs out h =
    let (keep, e, f) = bind_parts (eval_predicate p r cols) _ h in
    let (kept, e', f') = bind_parts (filter_rows p cols rs) _ f in (keep, kept, e, e', cc f')

project_parts :
    (es : List Expr) (cols : List Text) (r : Row) (rs out : List Row)
    → project_rows es cols (r ∷ rs) ≡ ok out
    → (v : Row) × (vs : List Row) × (eval_items es r cols ≡ ok v)
      × (project_rows es cols rs ≡ ok vs)
      × (out ≡ v ∷ vs)
unfolding project_rows
project_parts es cols r rs out h =
    let (v, e, f) = bind_parts (eval_items es r cols) _ h in
    let (vs, e', f') = bind_parts (project_rows es cols rs) _ f in (v, vs, e, e', cc f')

filter_rows_bound :
    (p : Expr) (cols : List Text) (rs out : List Row)
    → filter_rows p cols rs ≡ ok out
    → length out ≤ length rs
unfolding filter_rows
filter_rows_bound p cols [] out h =
    subst (λ l. length l ≤ 0) {x = []} {y = out} (cc h) (omega arith)
filter_rows_bound p cols (r ∷ rs) out h =
    let (keep, kept, e, e', f) = filter_parts p cols r rs out h in
    let k = filter_rows_bound p cols rs kept e' in
    subst (λ l. length l ≤ suc (length rs)) (sym f) (grind (arith, k))

length-project_rows :
    (es : List Expr) (cols : List Text) (rs out : List Row)
    → project_rows es cols rs ≡ ok out
    → length out ≡ length rs
unfolding project_rows
length-project_rows es cols [] out h = subst (λ l. length l ≡ 0) {x = []} {y = out} (cc h) refl
length-project_rows es cols (r ∷ rs) out h =
    let (v, vs, e, e', f) = project_parts es cols r rs out h in
    subst (λ l. length l ≡ suc (length rs)) (sym f) (ap suc (length-project_rows es cols rs vs e'))

-- There is fuel for every row and for one call more.
pub rows_of_bound : (op : Operator) (rs : List Row) → rows_of op ≡ ok rs → length rs < enough op
unfolding rows_of enough
rows_of_bound (scan_op rows) rs h =
    subst (λ l. length l < suc (length rows)) {x = rows} {y = rs} (cc h) (omega arith)
rows_of_bound (filter_op input p cols) rs h =
    let (xs, e, f) = bind_parts (rows_of input) _ h in
    omega (arith, rows_of_bound input xs e, filter_rows_bound p cols xs rs f)
rows_of_bound (project_op input es cols) rs h =
    let (xs, e, f) = bind_parts (rows_of input) _ h in
    omega (arith, rows_of_bound input xs e, length-project_rows es cols xs rs f)
rows_of_bound (sort_op input i d (some rows)) rs h =
    subst (λ l. length l < suc (length rows)) {x = rows} {y = rs} (cc h) (omega arith)
rows_of_bound (sort_op input i d none) rs h =
    let (xs, e, f) = bind_parts (rows_of input) _ h in
    omega (arith, rows_of_bound input xs e, length-sort_rows i d xs rs f)
rows_of_bound (limit_op input n) rs h =
    let (xs, e, f) = bind_parts (rows_of input) _ h in
    subst (λ l. length l < suc (enough input)) {x = take n xs} {y = rs} (cc f)
      (omega (arith, rows_of_bound input xs e, length-take n xs))

-- What a call of `next` does on an operator with these rows: it returns the first of them, and an
-- operator for the others, for which less fuel is enough.
pub data Pulls (n : ℕ) (op : Operator) : List Row → Type 0 where
  ended : {op' : Operator} → next n op ≡ done (ok (op', none)) → rows_of op' ≡ ok [] → Pulls n op []
  pulled :
      {op' : Operator} {r : Row} {rs : List Row}
      → next n op ≡ done (ok (op', some r))
      → rows_of op' ≡ ok rs
      → enough op' < enough op
      → Pulls n op (r ∷ rs)

abbrev pub Pulling : ℕ → Type 0
Pulling n = (op : Operator) (rs : List Row) → rows_of op ≡ ok rs → enough op ≤ n → Pulls n op rs

abbrev pub Draining : ℕ → Type 0
Draining n =
    (op : Operator) (rs : List Row)
    → rows_of op ≡ ok rs
    → enough op < n
    → (op' : Operator) × (drain n op ≡ done (ok (op', rs)))

pub scan_pull : (n : ℕ) (rows : List Row) → Pulls (suc n) (scan_op rows) rows
unfolding next rows_of enough
scan_pull n [] = ended refl refl
scan_pull n (r ∷ rs) = pulled refl refl (omega arith)

-- A filter keeps its input's row, or pulls again.
filter_skip :
    (n : ℕ) (input input' : Operator) (p : Expr) (cols : List Text) (x : Row) (kept : List Row)
    → Pulls n (filter_op input' p cols) kept
    → next n input ≡ done (ok (input', some x))
    → eval_predicate p x cols ≡ ok false
    → enough input' < enough input
    → Pulls (suc n) (filter_op input p cols) kept
unfolding next enough
filter_skip n input input' p cols x [] (ended {op'} e' k') e t lt =
    ended {op' = op'} (rw (e, t) e') k'
filter_skip n input input' p cols x (r ∷ rs) (pulled {op'} e' k' lt') e t lt =
    pulled {op' = op'} (rw (e, t) e') k' (omega arith)

filter_keep :
    (n : ℕ) (input input' : Operator) (p : Expr) (cols : List Text) (x : Row) (kept : List Row)
    (keep : Bool)
    → Pulling n
    → next n input ≡ done (ok (input', some x))
    → eval_predicate p x cols ≡ ok keep
    → rows_of (filter_op input' p cols) ≡ ok kept
    → enough input' < enough input
    → enough input ≤ n
    → Pulls (suc n) (filter_op input p cols) (if keep then x ∷ kept else kept)
unfolding next enough
filter_keep n input input' p cols x kept true more e t k lt b =
    pulled {op' = filter_op input' p cols} (rw (e, t) refl) k (omega arith)
filter_keep n input input' p cols x kept false more e t k lt b =
    filter_skip n input input' p cols x kept (more (filter_op input' p cols) kept k (omega arith)) e
      t lt

pub filter_pull :
    (n : ℕ) (input : Operator) (p : Expr) (cols : List Text) (xs rs : List Row)
    → Pulling n
    → Pulls n input xs
    → filter_rows p cols xs ≡ ok rs
    → enough input ≤ n
    → Pulls (suc n) (filter_op input p cols) rs
unfolding next rows_of enough filter_rows
filter_pull n input p cols [] rs more (ended {op'} e k) h b =
    subst (Pulls (suc n) (filter_op input p cols)) {x = []} {y = rs} (cc h)
      (ended {op' = filter_op op' p cols} (rw e refl) (rw k refl))
filter_pull n input p cols (x ∷ xs) rs more (pulled {op'} e k lt) h b =
    let (keep, kept, t, f, out) = filter_parts p cols x xs rs h in
    subst (Pulls (suc n) (filter_op input p cols)) (sym out)
      (filter_keep n input op' p cols x kept keep more e t (rw k f) lt b)

pub project_pull :
    (n : ℕ) (input : Operator) (es : List Expr) (cols : List Text) (xs rs : List Row)
    → Pulls n input xs
    → project_rows es cols xs ≡ ok rs
    → Pulls (suc n) (project_op input es cols) rs
unfolding next rows_of enough project_rows
project_pull n input es cols [] rs (ended {op'} e k) h =
    subst (Pulls (suc n) (project_op input es cols)) {x = []} {y = rs} (cc h)
      (ended {op' = project_op op' es cols} (rw e refl) (rw k refl))
project_pull n input es cols (x ∷ xs) rs (pulled {op'} e k lt) h =
    let (v, vs, t, f, out) = project_parts es cols x xs rs h in
    subst (Pulls (suc n) (project_op input es cols)) (sym out)
      (pulled {op' = project_op op' es cols} (rw (e, t) refl) (rw k f) (omega arith))

pub sorted_pull :
    (n : ℕ) (input : Operator) (i : ℕ) (d : Bool) (rows : List Row)
    → Pulls (suc n) (sort_op input i d (some rows)) rows
unfolding next rows_of enough
sorted_pull n input i d [] = ended refl refl
sorted_pull n input i d (r ∷ rs) = pulled refl refl (omega arith)

pub sort_pull :
    (n : ℕ) (input input' : Operator) (i : ℕ) (d : Bool) (xs rs : List Row)
    → drain n input ≡ done (ok (input', xs))
    → sort_rows i d xs ≡ ok rs
    → length rs < enough input
    → Pulls (suc n) (sort_op input i d none) rs
unfolding next rows_of enough
sort_pull n input input' i d xs [] e t b =
    ended {op' = sort_op input' i d (some [])} (rw (e, t) refl) refl
sort_pull n input input' i d xs (r ∷ rs) e t b =
    pulled {op' = sort_op input' i d (some rs)} (rw (e, t) refl) refl (omega arith)

pub limit_pull :
    (n : ℕ) (input : Operator) (remaining : ℕ) (xs : List Row)
    → rows_of input ≡ ok xs
    → Pulls n input xs
    → Pulls (suc n) (limit_op input remaining) (take remaining xs)
unfolding next rows_of enough
limit_pull n input zero xs own p = ended refl (rw own refl)
limit_pull n input (suc remaining) [] own (ended {op'} e k) =
    ended {op' = limit_op op' (suc remaining)} (rw e refl) (rw k refl)
limit_pull n input (suc remaining) (x ∷ xs) own (pulled {op'} e k lt) =
    pulled {op' = limit_op op' remaining} (rw e refl) (rw k refl) (omega arith)

pub drain_pull :
    (n : ℕ) (op : Operator) (rs : List Row)
    → Draining n
    → Pulls n op rs
    → enough op ≤ n
    → (op' : Operator) × (drain (suc n) op ≡ done (ok (op', rs)))
unfolding drain
drain_pull n op [] more (ended {op'} e k) b = (op', rw e refl)
drain_pull n op (r ∷ rs) more (pulled {op'} e k lt) b =
    let (op'', f) = more op' rs k (omega arith) in (op'', rw (e, f) refl)
