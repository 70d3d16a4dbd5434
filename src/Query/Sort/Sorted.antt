-- ===== src/Query/Sort/Sorted.antt =====
-- What the sort of src/query/exec.rs returns.
use skipper_db.Base.{
  ℕ, ◌≡◌, sym, subst, Bool, true, false, List, [], ◌∷◌, some, get_elem?, All, Ordering,
  Option-cases, inl, inr,
}
use skipper_db.Errors.{ok}
use skipper_db.Types.{Value}
use skipper_db.Query.Eval.{Row, value_order}
use skipper_db.Query.Eval.Values.{ValueAtMost, Compares, value_order-Compares}
use skipper_db.Query.Sort.{sort_rows, row_value, is_gt, reverse_order}
use skipper_db.Query.Sort.Steps.{sort_rows-Perm}
use skipper_db.Query.Sort.Total.{Reaches, sort_rows_total}
use skipper_db.Query.Sort.Places
use skipper_db.Query.Sort.Places.{directed, NotAfter, those, sort_rows-Ordered, sort_rows-those}
use mathlib.Core.List.{Perm}

-- In the direction of the sort, `x` may stand in front of `y`.
abbrev pub Leads : Bool → Value → Value → Type 0
Leads true x y = ValueAtMost y x
Leads false x y = ValueAtMost x y

-- The first row may stand in front of the second, by their values in column `i`.
abbrev pub RowLeads : ℕ → Bool → Row → Row → Type 0
RowLeads i d r s =
    (x : Value) × (y : Value) × (get_elem? r i ≡ some x) × (get_elem? s i ≡ some y) × Leads d x y

-- Every row may stand in front of those behind it.
abbrev pub Ordered : ℕ → Bool → List Row → Type 0
Ordered i d [] = Unit
Ordered i d (r ∷ rs) = All (RowLeads i d r) rs × Ordered i d rs

up_lem :
    (o : Ordering) (x y : Value) → Compares ValueAtMost o x y → is_gt o ≡ false → ValueAtMost x y
up_lem Ordering.lt x y c h = c.0
up_lem Ordering.eq x y c h = c.1
up_lem Ordering.gt x y c h = cc h

down_lem :
    (o : Ordering) (x y : Value)
    → Compares ValueAtMost o x y
    → is_gt (reverse_order o) ≡ false
    → ValueAtMost y x
down_lem Ordering.lt x y c h = cc h
down_lem Ordering.eq x y c h =
    subst (λ z. ValueAtMost z x) c.0 (subst (λ z. ValueAtMost x z) (sym c.0) c.1)
down_lem Ordering.gt x y c h = c.0

directed-Leads : (d : Bool) (x y : Value) → is_gt (directed d x y) ≡ false → Leads d x y
directed-Leads true x y h = down_lem (value_order x y) x y (value_order-Compares x y) h
directed-Leads false x y h = up_lem (value_order x y) x y (value_order-Compares x y) h

row_value_parts :
    (row : Row) (i : ℕ) (v : Value) → row_value row i ≡ ok v → get_elem? row i ≡ some v
unfolding row_value
row_value_parts row i v h = elim (Option-cases (get_elem? row i)) [
  | inl e ↦ absurd (cc (rw (row_value, e) at h))
  | inr (w, e) ↦ cc (e, rw (row_value, e) at h)
]

All-RowLeads :
    (i : ℕ) (d : Bool) (r : Row) (rs : List Row) → All (NotAfter i d r) rs → All (RowLeads i d r) rs
All-RowLeads i d r [] h = tt
All-RowLeads i d r (s ∷ rs) ((x, y, x_is, y_is, k), more) = (
  (x, y, row_value_parts r i x x_is, row_value_parts s i y y_is, directed-Leads d x y k),
  All-RowLeads i d r rs more,
)

Ordered-Places : (i : ℕ) (d : Bool) (rs : List Row) → Places.Ordered i d rs → Ordered i d rs
Ordered-Places i d [] h = tt
Ordered-Places i d (r ∷ rs) h = (All-RowLeads i d r rs h.0, Ordered-Places i d rs h.1)

-- Rows that all have column `i` are sorted without a panic: the result is a permutation of them, each
-- row may stand in front of those behind it (in the direction of the sort, NULL being the least
-- value, then the integers, then the texts, byte by byte), and any choice of rows that have the same
-- value in the column keeps its order.
pub sort_rows_lem :
    (i : ℕ) (d : Bool) (rs : List Row)
    → All (Reaches i) rs
    → (ss : List Row) × (sort_rows i d rs ≡ ok ss)
      × Perm ss rs
      × Ordered i d ss
      × ((v : Value) (p : Row → Bool)
          → ((r : Row) → p r ≡ true → get_elem? r i ≡ some v)
          → those p ss ≡ those p rs)
sort_rows_lem i d rs h =
    let (ss, e, reach, _) = sort_rows_total (Reaches i) i d rs h h in
    (
      ss,
      e,
      sort_rows-Perm i d rs ss e,
      Ordered-Places i d ss (sort_rows-Ordered i d rs ss e),
      λ v p only. sort_rows-those i d v p only rs ss e,
    )
