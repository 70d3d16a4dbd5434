-- ===== src/Query/Sort.antt =====
-- src/query/exec.rs: the sort of `SortOp`. `slice::sort_by` is stable, and a stable sort is
-- determined by its order: here it is an insertion sort.
pub mod Steps
pub mod Total
pub mod Order
pub mod Places
pub mod Sorted
use skipper_db.Base.{
  ℕ, Bool, true, false, List, [], ◌∷◌, some, none, get_elem?, Ordering, if◌then◌else◌,
}
use skipper_db.Errors.{Result, ok, panic, ◌>>=◌}
use skipper_db.Types.{Value}
use skipper_db.Query.Eval.{Row, value_order}

-- `Ordering::reverse`
abbrev pub reverse_order : Ordering → Ordering
reverse_order Ordering.lt = Ordering.gt
reverse_order Ordering.eq = Ordering.eq
reverse_order Ordering.gt = Ordering.lt

abbrev pub is_gt : Ordering → Bool
is_gt Ordering.gt = true
is_gt _ = false

-- `row[index]`
unfoldable pub row_value : Row → ℕ → Result Value
row_value row index = elim (get_elem? row index) [ none ↦ panic | some v ↦ ok v ]

-- The closure that `sort_by` is given.
unfoldable pub row_order : ℕ → Bool → Row → Row → Result Ordering
row_order index descending a b = do
  x ← row_value a index
  y ← row_value b index
  let ord = value_order x y
  ok (if descending then reverse_order ord else ord)

-- A row in front of the first row that is not before it.
unfoldable pub insert_row : ℕ → Bool → Row → List Row → Result (List Row)
insert_row index descending r [] = ok (r ∷ [])
insert_row index descending r (s ∷ rest) = do
  ord ← row_order index descending r s
  elim (is_gt ord) [
    | true ↦ (do later ← insert_row index descending r rest; ok (s ∷ later))
    | false ↦ ok (r ∷ s ∷ rest)
  ]

unfoldable pub sort_rows : ℕ → Bool → List Row → Result (List Row)
sort_rows index descending [] = ok []
sort_rows index descending (r ∷ rs) = do
  sorted ← sort_rows index descending rs
  insert_row index descending r sorted
