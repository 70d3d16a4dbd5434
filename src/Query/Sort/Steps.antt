-- ===== src/Query/Sort/Steps.antt =====
-- The steps of the sort of src/query/exec.rs that end well, as relations.
use skipper_db.Base.{
  ℕ, suc, ◌≡◌, refl, ◌∙◌, ap, Bool, true, false, List, [], ◌∷◌, length, Ordering, subst,
}
use skipper_db.Errors.{Result, ok, err, panic, ◌>>=◌, bind_parts}
use skipper_db.Query.Eval.{Row}
use skipper_db.Query.Sort.{insert_row, sort_rows, row_order, is_gt}
use mathlib.Core.List.{Perm}
use mathlib.Core.List.Perm

-- `ss` is `rs` with the row `r` in front of the first row that is not before it.
pub data Inserted (i : ℕ) (d : Bool) (r : Row) : List Row → List Row → Type 0 where
  last : Inserted i d r [] (r ∷ [])
  before :
      {s : Row} {rest : List Row} {o : Ordering}
      → row_order i d r s ≡ ok o
      → is_gt o ≡ false
      → Inserted i d r (s ∷ rest) (r ∷ s ∷ rest)
  behind :
      {s : Row} {rest ss : List Row} {o : Ordering}
      → row_order i d r s ≡ ok o
      → is_gt o ≡ true
      → Inserted i d r rest ss
      → Inserted i d r (s ∷ rest) (s ∷ ss)

-- The step of `insert_row` behind its test.
step-Inserted :
    {i : ℕ} {d : Bool} {r s : Row} {rest : List Row} {o : Ordering} (b : Bool)
    (ts : Result (List Row)) (ss : List Row)
    → row_order i d r s ≡ ok o
    → is_gt o ≡ b
    → ((us : List Row) → ts ≡ ok us → Inserted i d r rest us)
    → (elim b [ true ↦ (ts >>= λ later. ok (s ∷ later)) | false ↦ ok (r ∷ s ∷ rest) ]) ≡ ok ss
    → Inserted i d r (s ∷ rest) ss
step-Inserted {i} {d} {r} {s} {rest} true (ok us) ss e gt more h =
    subst (Inserted i d r (s ∷ rest)) (cc h) (behind e gt (more us refl))
step-Inserted true (err why) ss e gt more h = cc h
step-Inserted true panic ss e gt more h = cc h
step-Inserted {i} {d} {r} {s} {rest} false ts ss e gt more h =
    subst (Inserted i d r (s ∷ rest)) (cc h) (before e gt)

pub insert_row-Inserted :
    (i : ℕ) (d : Bool) (r : Row) (rs ss : List Row)
    → insert_row i d r rs ≡ ok ss
    → Inserted i d r rs ss
unfolding insert_row
insert_row-Inserted i d r [] ss h = subst (Inserted i d r []) (cc h) last
insert_row-Inserted i d r (s ∷ rest) ss h =
    let (o, e, f) = bind_parts (row_order i d r s) _ h in
    step-Inserted (is_gt o) (insert_row i d r rest) ss e refl
      (λ us k. insert_row-Inserted i d r rest us k) f

pub length-Inserted :
    {i : ℕ} {d : Bool} {r : Row} {rs ss : List Row}
    → Inserted i d r rs ss
    → length ss ≡ suc (length rs)
length-Inserted last = refl
length-Inserted (before e gt) = refl
length-Inserted (behind e gt more) = ap suc (length-Inserted more)

pub Inserted-Perm :
    {i : ℕ} {d : Bool} {r : Row} {rs ss : List Row} → Inserted i d r rs ss → Perm ss (r ∷ rs)
Inserted-Perm {r} last = Perm.refl (r ∷ [])
Inserted-Perm {r} {rs} (before e gt) = Perm.refl (r ∷ rs)
Inserted-Perm {r} (behind {s} {rest} e gt more) =
    Perm.trans (Perm.cons s (Inserted-Perm more)) (Perm.swap r s rest)

pub length-sort_rows :
    (i : ℕ) (d : Bool) (rs ss : List Row) → sort_rows i d rs ≡ ok ss → length ss ≡ length rs
unfolding sort_rows
length-sort_rows i d [] ss h = subst (λ l. length l ≡ 0) {x = []} {y = ss} (cc h) refl
length-sort_rows i d (r ∷ rs) ss h =
    let (ts, e, f) = bind_parts (sort_rows i d rs) _ h in
    length-Inserted (insert_row-Inserted i d r ts ss f) ∙ ap suc (length-sort_rows i d rs ts e)

-- The sort rearranges the rows.
pub sort_rows-Perm : (i : ℕ) (d : Bool) (rs ss : List Row) → sort_rows i d rs ≡ ok ss → Perm ss rs
unfolding sort_rows
sort_rows-Perm i d [] ss h = subst (λ l. Perm l []) {x = []} {y = ss} (cc h) (Perm.refl [])
sort_rows-Perm i d (r ∷ rs) ss h =
    let (ts, e, f) = bind_parts (sort_rows i d rs) _ h in
    Perm.trans (Inserted-Perm (insert_row-Inserted i d r ts ss f))
      (Perm.cons r (sort_rows-Perm i d rs ts e))
