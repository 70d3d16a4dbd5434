-- ===== src/Query/Sort/Total.antt =====
-- The sort of src/query/exec.rs on rows that have the column.
use skipper_db.Base.{
  ℕ, ◌<◌, ◌≡◌, refl, Bool, true, false, List, [], ◌∷◌, length, get_elem?_lt, All, Ordering,
  if◌then◌else◌,
}
use skipper_db.Errors.{Result, ok, ◌>>=◌}
use skipper_db.Types.{Value}
use skipper_db.Query.Eval.{Row, value_order}
use skipper_db.Query.Sort.{insert_row, sort_rows, row_order, row_value, is_gt, reverse_order}
use skipper_db.Query.Sort.Steps.{Inserted, last, before, behind, insert_row-Inserted}

-- The row has a column `i`.
abbrev pub Reaches : ℕ → Row → Type 0
Reaches i row = i < length row

row_value_lem : (row : Row) (i : ℕ) → Reaches i row → (v : Value) × (row_value row i ≡ ok v)
unfolding row_value
row_value_lem row i h = let (v, e) = get_elem?_lt row i h in (v, rw (row_value, e) refl)

row_order_lem :
    (i : ℕ) (d : Bool) (a b : Row)
    → Reaches i a
    → Reaches i b
    → (o : Ordering) × (row_order i d a b ≡ ok o)
unfolding row_order
row_order_lem i d a b h k =
    let (x, x_is) = row_value_lem a i h in
    let (y, y_is) = row_value_lem b i k in
    (if d then reverse_order (value_order x y) else value_order x y, rw (x_is, y_is) refl)

pub All-Inserted {κ} :
    (P : Row → Type κ) {i : ℕ} {d : Bool} {r : Row} {rs ss : List Row}
    → Inserted i d r rs ss
    → P r
    → All P rs
    → All P ss
All-Inserted P last p ps = (p, tt)
All-Inserted P (before e gt) p ps = (p, ps)
All-Inserted P (behind e gt more) p ps = (ps.0, All-Inserted P more p ps.1)

insert_step :
    (b : Bool) (r s : Row) (rest us : List Row) {ts : Result (List Row)}
    → ts ≡ ok us
    → (elim b [ true ↦ (ts >>= λ later. ok (s ∷ later)) | false ↦ ok (r ∷ s ∷ rest) ])
      ≡ ok (if b then s ∷ us else r ∷ s ∷ rest)
insert_step true r s rest us e = rw e refl
insert_step false r s rest us e = refl

insert_row_total :
    (i : ℕ) (d : Bool) (r : Row) (rs : List Row)
    → Reaches i r
    → All (Reaches i) rs
    → (ss : List Row) × (insert_row i d r rs ≡ ok ss)
unfolding insert_row
insert_row_total i d r [] h k = (r ∷ [], refl)
insert_row_total i d r (s ∷ rest) h k =
    let (o, e) = row_order_lem i d r s h k.0 in
    let (ss, f) = insert_row_total i d r rest h k.1 in
    (if is_gt o then s ∷ ss else r ∷ s ∷ rest, rw e (insert_step (is_gt o) r s rest ss f))

pub sort_rows_total :
    (P : Row → Type 0) (i : ℕ) (d : Bool) (rs : List Row)
    → All (Reaches i) rs
    → All P rs
    → (ss : List Row) × (sort_rows i d rs ≡ ok ss) × All (Reaches i) ss × All P ss
unfolding sort_rows
sort_rows_total P i d [] h k = ([], refl, tt, tt)
sort_rows_total P i d (r ∷ rs) h k =
    let (ts, e, h', k') = sort_rows_total P i d rs h.1 k.1 in
    let (ss, f) = insert_row_total i d r ts h.0 h' in
    let steps = insert_row-Inserted i d r ts ss f in
    (ss, rw e f, All-Inserted (Reaches i) steps h.0 h', All-Inserted P steps k.0 k')
