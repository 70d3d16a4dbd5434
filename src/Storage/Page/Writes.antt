-- ===== src/Storage/Page/Writes.antt =====
-- The page that each writing method of a valid page leaves, on every branch; none panics.
use skipper_db.Base.{
  ℕ, ◌+◌, ◌-◌, ◌*◌, ◌≤◌, ◌<◌, ◌≡◌, ◌∙◌, ap, subst, length, le→leb, lt→leb, lt→ltb, le→ltb, eq→==,
  ne→==, arith, none, some, true, false, length-splice, splice-nil, [],
}
use skipper_db.Base.Utf8.{Bytes}
use skipper_db.Errors.{ok}
use skipper_db.Storage.Page.{
  SlottedPage, header_size, slot_size, u16_to_le, insert, delete, update, slot_count,
}
use skipper_db.Storage.Page.Layout.{
  count, ptr, offset, len, IsValid, copy_into_lem, u16_at-splice-Apart,
}
use skipper_db.Storage.Page.Edit.{
  put_u16, put_slot, put_cell, Edited, put_slot-Edited, put_ptr-Edited, put_count-Edited,
}
use skipper_db.Storage.Page.Reads.{
  slot_count_lem, free_ptr_lem, free_space_lem, slot_lem, set_slot_lem, set_free_ptr_lem,
  set_slot_count_lem, as_u16_lem,
}

put_cell-nil : (p : SlottedPage) (off : ℕ) → put_cell p off [] ≡ p
put_cell-nil p off = ap (λ bs. record { bytes = bs }) (splice-nil p.bytes off)

module _ (p : SlottedPage) (r : Bytes) where
  slot_count-put_cell :
      IsValid p → (off : ℕ) → header_size ≤ off → slot_count (put_cell p off r) ≡ ok (count p)
  slot_count-put_cell v off h =
      slot_count_lem (put_cell p off r) (length-splice p.bytes off r ∙ v.sized)
      ∙ ap ok (u16_at-splice-Apart p.bytes off r 0 (omega arith))

  abbrev new_offset : ℕ
  new_offset = ptr p - length r

  -- The page after an `insert` that fits.
  abbrev pub inserted : SlottedPage
  inserted =
      put_u16
        (put_u16 (put_slot (put_cell p new_offset r) (count p) new_offset (length r)) 2 new_offset)
        0 (count p + 1)

  pub insert_full :
      IsValid p
      → ptr p < header_size + count p * slot_size + (length r + slot_size)
      → insert p r ≡ ok (p, none)
  unfolding insert
  insert_full v h = rw (
    free_space_lem p v.sized v.room,
    lt→ltb (ptr p - (header_size + count p * slot_size)) (length r + slot_size) (omega arith),
  )

  pub inserted-Edited :
      IsValid p
      → header_size + count p * slot_size + (length r + slot_size) ≤ ptr p
      → Edited p inserted (count p + 1) (count p) new_offset r new_offset (count p + 1)
  inserted-Edited v h =
      let low : header_size + (count p + 1) * slot_size ≤ new_offset = omega arith in
      put_count-Edited p _ (count p + 1) (count p) new_offset r new_offset (count p)
        (put_ptr-Edited p _ (count p + 1) (count p) new_offset r (ptr p) (count p)
          (put_slot-Edited p (count p + 1) (count p) new_offset r v.sized low (omega arith)
            (omega arith))
          low new_offset (omega arith))
        low (count p + 1) (omega arith)

  pub insert_fits :
      IsValid p
      → header_size + count p * slot_size + (length r + slot_size) ≤ ptr p
      → insert p r ≡ ok (inserted, some (count p))
  unfolding insert
  insert_fits v h =
      let low : header_size + (count p + 1) * slot_size ≤ new_offset = omega arith in
      let e =
        put_slot-Edited p (count p + 1) (count p) new_offset r v.sized low (omega arith)
          (omega arith) in
      rw
        (
          free_space_lem p v.sized v.room,
          le→ltb (ptr p - (header_size + count p * slot_size)) (length r + slot_size) (omega arith),
          free_ptr_lem p v.sized,
          le→leb (length r) (ptr p) (omega arith),
          copy_into_lem p new_offset r (omega arith),
        )
        (rw (
          slot_count-put_cell v new_offset (omega arith),
          as_u16_lem new_offset (omega arith),
          as_u16_lem (length r) (omega arith),
          as_u16_lem (count p + 1) (omega arith),
          as_u16_lem (count p) (omega arith),
          set_slot_lem (put_cell p new_offset r) (length-splice p.bytes new_offset r ∙ v.sized)
              (count p) new_offset (length r) (omega arith),
          set_free_ptr_lem _ e.sized new_offset,
          set_slot_count_lem _ (length-splice _ 2 (u16_to_le new_offset) ∙ e.sized) (count p + 1),
        ))

  -- The page after an `update` that writes at `off`, and the one where the cell moved.
  abbrev pub placed_at : ℕ → ℕ → SlottedPage
  placed_at i off = put_slot (put_cell p off r) i off (length r)

  abbrev pub moved : ℕ → SlottedPage
  moved i = put_u16 (placed_at i new_offset) 2 new_offset

  pub placed-Edited :
      (i : ℕ)
      → IsValid p
      → i < count p
      → 0 < len p i
      → length r ≤ len p i
      → Edited p (placed_at i (offset p i)) (count p) i (offset p i) r (ptr p) (count p)
  placed-Edited i v h l fits =
      let c = v.cells i h l in
      put_slot-Edited p (count p) i (offset p i) r v.sized (omega arith) (omega arith) h

  pub moved-Edited :
      (i : ℕ)
      → IsValid p
      → i < count p
      → header_size + count p * slot_size + length r ≤ ptr p
      → Edited p (moved i) (count p) i new_offset r new_offset (count p)
  moved-Edited i v h fits =
      let low : header_size + count p * slot_size ≤ new_offset = omega arith in
      put_ptr-Edited p _ (count p) i new_offset r (ptr p) (count p)
        (put_slot-Edited p (count p) i new_offset r v.sized low (omega arith) h) low new_offset
        (omega arith)

  pub update_beyond : (i : ℕ) → IsValid p → count p ≤ i → update p i r ≡ ok (p, false)
  unfolding update
  update_beyond i v h = rw (slot_count_lem p v.sized, le→leb _ _ h)

  pub update_dead : (i : ℕ) → IsValid p → i < count p → len p i ≡ 0 → update p i r ≡ ok (p, false)
  unfolding update
  update_dead i v h z =
      rw (slot_count_lem p v.sized, lt→leb _ _ h, slot_lem p v.sized i (omega arith), eq→== _ _ z)

  pub update_in_place :
      (i : ℕ)
      → IsValid p
      → i < count p
      → 0 < len p i
      → length r ≤ len p i
      → update p i r ≡ ok (placed_at i (offset p i), true)
  unfolding update
  update_in_place i v h l fits =
      let c = v.cells i h l in
      rw
        (
          slot_count_lem p v.sized,
          lt→leb _ _ h,
          slot_lem p v.sized i (omega arith),
          ne→== (len p i) 0 (omega arith),
          le→leb (length r) (len p i) fits,
          copy_into_lem p (offset p i) r (omega arith),
        )
        (rw (
          as_u16_lem (offset p i) (omega arith),
          as_u16_lem (length r) (omega arith),
          set_slot_lem (put_cell p (offset p i) r) (length-splice p.bytes _ r ∙ v.sized) i _ _
              (omega arith),
        ))

  pub update_full :
      (i : ℕ)
      → IsValid p
      → i < count p
      → 0 < len p i
      → len p i < length r
      → ptr p < header_size + count p * slot_size + length r
      → update p i r ≡ ok (p, false)
  unfolding update
  update_full i v h l grow full = rw (
    slot_count_lem p v.sized,
    lt→leb _ _ h,
    slot_lem p v.sized i (omega arith),
    ne→== (len p i) 0 (omega arith),
    lt→leb (length r) (len p i) grow,
    free_space_lem p v.sized v.room,
    lt→ltb (ptr p - (header_size + count p * slot_size)) (length r) (omega arith),
  )

  pub update_moves :
      (i : ℕ)
      → IsValid p
      → i < count p
      → 0 < len p i
      → len p i < length r
      → header_size + count p * slot_size + length r ≤ ptr p
      → update p i r ≡ ok (moved i, true)
  unfolding update
  update_moves i v h l grow fits =
      let e = put_slot-Edited p (count p) i new_offset r v.sized (omega arith) (omega arith) h in
      rw
        (
          slot_count_lem p v.sized,
          lt→leb _ _ h,
          slot_lem p v.sized i (omega arith),
          ne→== (len p i) 0 (omega arith),
          lt→leb (length r) (len p i) grow,
          free_space_lem p v.sized v.room,
          le→ltb (ptr p - (header_size + count p * slot_size)) (length r) (omega arith),
          free_ptr_lem p v.sized,
          le→leb (length r) (ptr p) (omega arith),
          copy_into_lem p new_offset r (omega arith),
        )
        (rw (
          as_u16_lem new_offset (omega arith),
          as_u16_lem (length r) (omega arith),
          set_slot_lem (put_cell p new_offset r) (length-splice p.bytes _ r ∙ v.sized) i _ _
              (omega arith),
          set_free_ptr_lem _ e.sized new_offset,
        ))

module _ (p : SlottedPage) (i : ℕ) (v : IsValid p) where
  pub delete_beyond : count p ≤ i → delete p i ≡ ok (p, false)
  unfolding delete
  delete_beyond h = rw (slot_count_lem p v.sized, le→leb _ _ h)

  pub delete_dead : i < count p → len p i ≡ 0 → delete p i ≡ ok (p, false)
  unfolding delete
  delete_dead h z =
      rw (slot_count_lem p v.sized, lt→leb _ _ h, slot_lem p v.sized i (omega arith), eq→== _ _ z)

  -- The slot's length becomes 0: an edit by the empty record.
  pub deleted-Edited :
      i < count p
      → 0 < len p i
      → Edited p (put_slot p i (offset p i) 0) (count p) i (offset p i) [] (ptr p) (count p)
  deleted-Edited h l =
      let c = v.cells i h l in
      subst
        (λ q. Edited p (put_slot q i (offset p i) 0) (count p) i (offset p i) [] (ptr p) (count p))
        (put_cell-nil p (offset p i))
        (put_slot-Edited p (count p) i (offset p i) [] v.sized (omega arith) (omega arith) h)

  pub delete_live : i < count p → 0 < len p i → delete p i ≡ ok (put_slot p i (offset p i) 0, true)
  unfolding delete
  delete_live h l =
      let c = v.cells i h l in
      rw
        (
          slot_count_lem p v.sized,
          lt→leb _ _ h,
          slot_lem p v.sized i (omega arith),
          ne→== (len p i) 0 (omega arith),
        )
        (rw (as_u16_lem (offset p i) (omega arith), set_slot_lem p v.sized i _ 0 (omega arith)))
