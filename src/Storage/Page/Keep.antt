-- ===== src/Storage/Page/Keep.antt =====
-- A page stays valid under the edit of one slot, and the other slots show what they did.
use native.Mathlib.Decide.{ℕ_discrete}
use skipper_db.Base.{
  ℕ, ◌+◌, ◌*◌, ◌≤◌, ◌<◌, ◌≡◌, ◌≢◌, ◌∙◌, ap, length, Apart, inl, inr, arith, ◌==◌, if◌then◌else◌,
  some, none, subst, sym, le_or_lt,
}
use skipper_db.Base.Utf8.{Bytes}
use skipper_db.Storage.Page.{SlottedPage, page_size, header_size, slot_size}
use skipper_db.Storage.Page.Layout.{
  count, ptr, offset, len, IsValid, cell, cell_live, cell_dead, cell_beyond,
}
use skipper_db.Storage.Page.Edit.{Edited}

Apart-symm : (a n b m : ℕ) → Apart a n b m → Apart b m a n
Apart-symm a n b m h = omega arith

if_same {ℓ} : {A : Type ℓ} (a b : ℕ) (x y : A) → a ≡ b → (if a == b then x else y) ≡ x
if_same a b x y h = ground arith

if_other {ℓ} : {A : Type ℓ} (a b : ℕ) (x y : A) → a ≢ b → (if a == b then x else y) ≡ y
if_other a b x y h = ground arith

-- `top` slots after the edit, none but `index` of them new; the cell of `index` is apart from
-- every other live cell.
module _ (p q : SlottedPage) (top index off : ℕ) (r : Bytes) (ptr' : ℕ)
    (e : Edited p q top index off r ptr' top) (v : IsValid p) (inside : index < top)
    (grows : count p ≤ top) (old : (j : ℕ) → j ≢ index → j < top → j < count p)
    (room : header_size + top * slot_size ≤ ptr') (down : ptr' ≤ ptr p)
    (above : 0 < length r → ptr' ≤ off) (high : off + length r ≤ page_size)
    (fresh : (j : ℕ)
      → j ≢ index
      → j < count p
      → 0 < len p j
      → Apart (offset p j) (len p j) off (length r)) where
  other_slot :
      (j : ℕ)
      → j ≢ index
      → j < count q
      → (j < count p) × (offset q j ≡ offset p j) × (len q j ≡ len p j)
  other_slot j n h =
      let h' : j < top = omega (arith, e.counted) in
      (old j n h', (e.others j n h').0, (e.others j n h').1)

  cells_index :
      0 < len q index → (ptr q ≤ offset q index) × (offset q index + len q index ≤ page_size)
  cells_index l =
      let low = above (omega (arith, e.measured)) in
      (omega (arith, low, e.pointed, e.placed), omega (arith, high, e.placed, e.measured))

  cells_kept :
      (j : ℕ)
      → j < count q
      → 0 < len q j
      → (ptr q ≤ offset q j) × (offset q j + len q j ≤ page_size)
  cells_kept j h l = elim (ℕ_discrete j index) [
    | yes same ↦
        subst (λ k. (ptr q ≤ offset q k) × (offset q k + len q k ≤ page_size)) (sym same)
          (cells_index (subst (λ k. 0 < len q k) same l))
    | no n ↦
        let o = other_slot j n h in
        let c = v.cells j o.0 (omega (arith, o.2)) in
        (omega (arith, o.1, e.pointed, c.0, down), omega (arith, o.1, o.2, c.1))
  ]

  Apart-index :
      (j : ℕ)
      → j ≢ index
      → j < count q
      → 0 < len q j
      → Apart (offset q j) (len q j) (offset q index) (len q index)
  Apart-index j n h l =
      let o = other_slot j n h in
      omega (arith, fresh j n o.0 (omega (arith, o.2)), o.1, o.2, e.placed, e.measured)

  Apart-kept :
      (i j : ℕ)
      → i < count q
      → j < count q
      → i ≢ j
      → 0 < len q i
      → 0 < len q j
      → Apart (offset q i) (len q i) (offset q j) (len q j)
  Apart-kept i j hi hj n li lj = elim (ℕ_discrete i index) [
    | yes same ↦
        subst (λ k. Apart (offset q k) (len q k) (offset q j) (len q j)) (sym same)
          (Apart-symm _ _ _ _ (Apart-index j (λ d. n (same ∙ sym d)) hj lj))
    | no ni ↦ elim (ℕ_discrete j index) [
      | yes same ↦
          subst (λ k. Apart (offset q i) (len q i) (offset q k) (len q k)) (sym same)
            (Apart-index i ni hi li)
      | no nj ↦
          let a = other_slot i ni hi in
          let b = other_slot j nj hj in
          omega (
            arith,
            v.apart i j a.0 b.0 n (omega (arith, a.2)) (omega (arith, b.2)),
            a.1,
            a.2,
            b.1,
            b.2,
          )
    ]
  ]

  pub Edited-IsValid : IsValid q
  Edited-IsValid = record {
    sized = e.sized;
    room = omega (arith, e.counted, e.pointed);
    bounded = omega (arith, e.pointed, v.bounded);
    cells = cells_kept;
    apart = Apart-kept;
  }

  cell_index : cell q index ≡ (if length r == 0 then none else some r)
  cell_index = elim (ℕ_discrete (length r) 0) [
    | yes z ↦ cell_dead q index (e.measured ∙ z) ∙ sym (if_same _ _ _ _ z)
    | no n ↦
        cell_live q index (omega (arith, e.counted)) (omega (arith, e.measured))
        ∙ ap some (rw (e.placed, e.measured) e.written)
        ∙ sym (if_other _ _ _ _ n)
  ]

  cell_other : (j : ℕ) → j ≢ index → cell q j ≡ cell p j
  cell_other j n = elim (le_or_lt (count q) j) [
    | inl h ↦ cell_beyond q j h ∙ sym (cell_beyond p j (omega (arith, e.counted)))
    | inr h ↦
        let o = other_slot j n h in
        elim (ℕ_discrete (len p j) 0) [
          | yes z ↦ cell_dead q j (o.2 ∙ z) ∙ sym (cell_dead p j z)
          | no nz ↦
              let c = v.cells j o.0 (omega arith) in
              cell_live q j h (omega (arith, o.2))
              ∙ ap some (
                  rw (o.1, o.2)
                    (e.kept (offset p j) (len p j) (omega arith) (fresh j n o.0 (omega arith))))
              ∙ sym (cell_live p j o.0 (omega arith))
        ]
  ]

  -- Slot `index` shows the record, or nothing if that is empty; the others show what they did.
  pub cell-Edited :
      (j : ℕ)
      → cell q j ≡ (if j == index then (if length r == 0 then none else some r) else cell p j)
  cell-Edited j = elim (ℕ_discrete j index) [
    | yes same ↦ ap (cell q) same ∙ cell_index ∙ sym (if_same _ _ _ _ same)
    | no n ↦ cell_other j n ∙ sym (if_other _ _ _ _ n)
  ]
