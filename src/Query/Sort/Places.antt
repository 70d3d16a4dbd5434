-- ===== src/Query/Sort/Places.antt =====
-- The places of the rows that the sort of src/query/exec.rs returns, by its own comparison.
use skipper_db.Base.{
  ℕ, ◌≡◌, refl, sym, ap, ◌∙◌, subst, Bool, true, false, List, [], ◌∷◌, some, get_elem?, All,
  Ordering, if◌then◌else◌, Bool-cases, inl, inr, ◌⊎◌,
}
use skipper_db.Errors.{ok, bind_parts}
use skipper_db.Types.{Value}
use skipper_db.Query.Eval.{Row, value_order}
use skipper_db.Query.Sort.{sort_rows, row_order, row_value, is_gt, reverse_order}
use skipper_db.Query.Sort.Steps.{Inserted, last, before, behind, insert_row-Inserted}
use skipper_db.Query.Sort.Order.{value_order_flip, value_order_trans}
use skipper_db.Query.Sort.Total.{All-Inserted}

-- The order of two values in the direction of the sort.
abbrev pub directed : Bool → Value → Value → Ordering
directed d x y = if d then reverse_order (value_order x y) else value_order x y

gt_reverse : (o : Ordering) → is_gt o ≡ true → is_gt (reverse_order o) ≡ false
gt_reverse Ordering.lt h = sym h
gt_reverse Ordering.eq h = refl
gt_reverse Ordering.gt h = refl

directed_flip :
    (d : Bool) (x y : Value) → is_gt (directed d x y) ≡ true → is_gt (directed d y x) ≡ false
directed_flip true x y h =
    rw (value_order_flip x y) (gt_reverse (reverse_order (value_order x y)) h)
directed_flip false x y h = rw (value_order_flip x y) (gt_reverse (value_order x y) h)

directed_trans :
    (d : Bool) (x y z : Value)
    → is_gt (directed d x y) ≡ false
    → is_gt (directed d y z) ≡ false
    → is_gt (directed d x z) ≡ false
directed_trans true x y z h k =
    ap is_gt (sym (value_order_flip x z))
    ∙ value_order_trans z y x (ap is_gt (value_order_flip y z) ∙ k)
        (ap is_gt (value_order_flip x y) ∙ h)
directed_trans false x y z h k = value_order_trans x y z h k

-- The first row may stand in front of the second.
abbrev pub NotAfter : ℕ → Bool → Row → Row → Type 0
NotAfter i d r s =
    (x : Value) × (y : Value) × (row_value r i ≡ ok x)
    × (row_value s i ≡ ok y)
    × (is_gt (directed d x y) ≡ false)

NotAfter-trans :
    (i : ℕ) (d : Bool) (r s t : Row) → NotAfter i d r s → NotAfter i d s t → NotAfter i d r t
NotAfter-trans i d r s t (x, y, x_is, y_is, h) (y', z, y'_is, z_is, k) =
    let same : y' ≡ y = cc (y_is, y'_is) in
    (
      x,
      z,
      x_is,
      z_is,
      directed_trans d x y z h (subst (λ v. is_gt (directed d v z) ≡ false) same k),
    )

-- Every row may stand in front of those behind it.
abbrev pub Ordered : ℕ → Bool → List Row → Type 0
Ordered i d [] = Unit
Ordered i d (r ∷ rs) = All (NotAfter i d r) rs × Ordered i d rs

All-trans :
    (i : ℕ) (d : Bool) (r s : Row) (rs : List Row)
    → NotAfter i d r s
    → All (NotAfter i d s) rs
    → All (NotAfter i d r) rs
All-trans i d r s [] h k = tt
All-trans i d r s (t ∷ rs) h k = (NotAfter-trans i d r s t h k.0, All-trans i d r s rs h k.1)

row_order_parts :
    (i : ℕ) (d : Bool) (r s : Row) (o : Ordering)
    → row_order i d r s ≡ ok o
    → (x : Value) × (y : Value) × (row_value r i ≡ ok x)
      × (row_value s i ≡ ok y)
      × (o ≡ directed d x y)
unfolding row_order
row_order_parts i d r s o h =
    let (x, x_is, f) = bind_parts (row_value r i) _ h in
    let (y, y_is, g) = bind_parts (row_value s i) _ f in (x, y, x_is, y_is, cc g)

Inserted-Ordered :
    (i : ℕ) (d : Bool) (r : Row) (rs ss : List Row)
    → Inserted i d r rs ss
    → Ordered i d rs
    → Ordered i d ss
Inserted-Ordered i d r [] ss last h = (tt, tt)
Inserted-Ordered i d r (s ∷ rest) ss (before {o} e gt) h =
    let (x, y, x_is, y_is, o_is) = row_order_parts i d r s o e in
    let le : NotAfter i d r s = (x, y, x_is, y_is, subst (λ p. is_gt p ≡ false) o_is gt) in
    ((le, All-trans i d r s rest le h.0), h)
Inserted-Ordered i d r (s ∷ rest) (s' ∷ ss) (behind {o} e gt more) h =
    let (x, y, x_is, y_is, o_is) = row_order_parts i d r s o e in
    let ge : NotAfter i d s r =
      (y, x, y_is, x_is, directed_flip d x y (subst (λ p. is_gt p ≡ true) o_is gt)) in
    (All-Inserted (NotAfter i d s) more ge h.0, Inserted-Ordered i d r rest ss more h.1)

pub sort_rows-Ordered :
    (i : ℕ) (d : Bool) (rs ss : List Row) → sort_rows i d rs ≡ ok ss → Ordered i d ss
unfolding sort_rows
sort_rows-Ordered i d [] ss h = subst (Ordered i d) {x = []} {y = ss} (cc h) tt
sort_rows-Ordered i d (r ∷ rs) ss h =
    let (ts, e, f) = bind_parts (sort_rows i d rs) _ h in
    Inserted-Ordered i d r ts ss (insert_row-Inserted i d r ts ss f) (sort_rows-Ordered i d rs ts e)

-- The rows with a property, in order.
abbrev pub those {ℓ} : {A : Type ℓ} → (A → Bool) → List A → List A
those p [] = []
those p (x ∷ xs) = if p x then x ∷ those p xs else those p xs

reversed_gt : (o : Ordering) → o ≡ reverse_order o → is_gt o ≡ false
reversed_gt Ordering.lt h = refl
reversed_gt Ordering.eq h = refl
reversed_gt Ordering.gt h = cc h

directed_self : (d : Bool) (v : Value) → is_gt (directed d v v) ≡ false
directed_self true v =
    ap is_gt (sym (value_order_flip v v)) ∙ reversed_gt (value_order v v) (value_order_flip v v)
directed_self false v = reversed_gt (value_order v v) (value_order_flip v v)

row_value-some : (row : Row) (i : ℕ) (v : Value) → get_elem? row i ≡ some v → row_value row i ≡ ok v
unfolding row_value
row_value-some row i v h = rw (row_value, h) refl

step-those {ℓ} :
    {A : Type ℓ} (p : A → Bool) (r s : A) (ss rest : List A)
    → those p ss ≡ those p (r ∷ rest)
    → (p r ≡ false) ⊎ (p s ≡ false)
    → those p (s ∷ ss) ≡ those p (r ∷ s ∷ rest)
step-those p r s ss rest h (inl not_r) =
    rw not_r (ap (λ l. if p s then s ∷ l else l) (h ∙ rw not_r refl))
step-those p r s ss rest h (inr not_s) = rw not_s h

-- A choice of rows that all have one value in column `i`.
module _ (i : ℕ) (d : Bool) (v : Value) (p : Row → Bool)
    (only : (r : Row) → p r ≡ true → get_elem? r i ≡ some v) where
  same-order :
      (r s : Row) (o : Ordering)
      → row_order i d r s ≡ ok o
      → is_gt o ≡ true
      → (p r ≡ false) ⊎ (p s ≡ false)
  same-order r s o h gt =
      let (x, y, x_is, y_is, o_is) = row_order_parts i d r s o h in
      elim (Bool-cases (p r)) [
        | inr not_r ↦ inl not_r
        | inl is_r ↦ elim (Bool-cases (p s)) [
          | inr not_s ↦ inr not_s
          | inl is_s ↦
              let x_v : x ≡ v = cc (x_is, row_value-some r i v (only r is_r)) in
              let y_v : y ≡ v = cc (y_is, row_value-some s i v (only s is_s)) in
              let same : o ≡ directed d v v =
                o_is
                ∙ subst (λ z. directed d x y ≡ directed d v z) y_v
                    (subst (λ z. directed d x y ≡ directed d z y) x_v refl) in
              absurd (cc (gt, same, directed_self d v))
        ]
      ]

  Inserted-those :
      (r : Row) (rs ss : List Row) → Inserted i d r rs ss → those p ss ≡ those p (r ∷ rs)
  Inserted-those r [] ss last = refl
  Inserted-those r (s ∷ rest) ss (before {o} e gt) = refl
  Inserted-those r (s ∷ rest) (s' ∷ ss) (behind {o} e gt more) =
      step-those p r s ss rest (Inserted-those r rest ss more) (same-order r s o e gt)

  pub sort_rows-those : (rs ss : List Row) → sort_rows i d rs ≡ ok ss → those p ss ≡ those p rs
  unfolding sort_rows
  sort_rows-those [] ss h = subst (λ l. those p l ≡ []) {x = []} {y = ss} (cc h) refl
  sort_rows-those (r ∷ rs) ss h =
      let (ts, e, f) = bind_parts (sort_rows i d rs) _ h in
      Inserted-those r ts ss (insert_row-Inserted i d r ts ss f)
      ∙ ap (λ l. if p r then r ∷ l else l) (sort_rows-those rs ts e)
