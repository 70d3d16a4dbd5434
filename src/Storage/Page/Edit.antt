-- ===== src/Storage/Page/Edit.antt =====
-- What a page reads like after a record was written to a cell and the cell to a slot: the common
-- part of `insert`, `delete` and `update`.
use skipper_db.Base.{
  ℕ, ◌+◌, ◌*◌, ◌≤◌, ◌<◌, ◌≡◌, ◌≢◌, ◌∙◌, length, slice, splice, Apart, length-splice,
  slice-splice_self, slice-splice-Apart, inr, arith,
}
use skipper_db.Base.Utf8.{Bytes}
use skipper_db.Storage.Page.{SlottedPage, page_size, header_size, slot_size, u16_at, u16_to_le}
use skipper_db.Storage.Page.Layout.{
  count, ptr, offset, len, u16_at-splice-Apart, u16_at-splice_self,
}

-- `q` is `p` with the record `r` in a cell at `off`, that cell in slot `index`, the free-space
-- pointer at `ptr'` and `count'` slots. The first `top` slots are looked at.
pub record Edited (p q : SlottedPage) (top index off : ℕ) (r : Bytes) (ptr' count' : ℕ)
    : Type 0 where
  pub sized : length q.bytes ≡ page_size
  pub counted : count q ≡ count'
  pub pointed : ptr q ≡ ptr'
  pub placed : offset q index ≡ off
  pub measured : len q index ≡ length r
  pub others : (j : ℕ) → j ≢ index → j < top → (offset q j ≡ offset p j) × (len q j ≡ len p j)
  pub written : slice q.bytes off (length r) ≡ r
  pub kept :
      (a n : ℕ)
      → header_size + top * slot_size ≤ a
      → Apart a n off (length r)
      → slice q.bytes a n ≡ slice p.bytes a n

-- A `u16` written at `at`.
abbrev pub put_u16 : SlottedPage → ℕ → ℕ → SlottedPage
put_u16 p at v = record { bytes = splice p.bytes at (u16_to_le v) }

abbrev pub put_cell : SlottedPage → ℕ → Bytes → SlottedPage
put_cell p off r = record { bytes = splice p.bytes off r }

abbrev pub put_slot : SlottedPage → ℕ → ℕ → ℕ → SlottedPage
put_slot p i off n =
    put_u16 (put_u16 p (header_size + i * slot_size) off) (header_size + i * slot_size + 2) n

module _ (p : SlottedPage) (top index off : ℕ) (r : Bytes) (sized : length p.bytes ≡ page_size)
    (low : header_size + top * slot_size ≤ off) (high : off + length r ≤ page_size)
    (inside : index < top) where
  -- A read apart from the three writes.
  read-Apart :
      (at : ℕ)
      → Apart at 2 (header_size + index * slot_size) 4
      → at + 2 ≤ header_size + top * slot_size
      → u16_at (put_slot (put_cell p off r) index off (length r)).bytes at ≡ u16_at p.bytes at
  read-Apart at h t =
      u16_at-splice-Apart _ _ (u16_to_le (length r)) at (omega arith)
      ∙ u16_at-splice-Apart _ _ (u16_to_le off) at (omega arith)
      ∙ u16_at-splice-Apart p.bytes off r at (omega arith)

  slice_apart :
      (a n : ℕ)
      → header_size + top * slot_size ≤ a
      → slice (put_slot (put_cell p off r) index off (length r)).bytes a n
        ≡ slice (splice p.bytes off r) a n
  slice_apart a n h =
      slice-splice-Apart _ _ (u16_to_le (length r)) a n (inr (omega arith))
      ∙ slice-splice-Apart _ _ (u16_to_le off) a n (inr (omega arith))

  pub put_slot-Edited :
      Edited p (put_slot (put_cell p off r) index off (length r)) top index off r (ptr p) (count p)
  put_slot-Edited = record {
    sized = length-splice _ _ _ ∙ length-splice _ _ _ ∙ length-splice _ _ _ ∙ sized;
    counted = read-Apart 0 (omega arith) (omega arith);
    pointed = read-Apart 2 (omega arith) (omega arith);
    placed =
        u16_at-splice-Apart _ _ (u16_to_le (length r)) _ (omega arith)
        ∙ u16_at-splice_self _ _ off (omega (arith, length-splice p.bytes off r)) (omega arith);
    measured =
        u16_at-splice_self _ _ (length r)
          (omega (
            arith,
            length-splice (put_cell p off r).bytes (header_size + index * slot_size)
                (u16_to_le off),
            length-splice p.bytes off r,
          ))
          (omega arith);
    others = λ j n h.
        (read-Apart _ (omega arith) (omega arith), read-Apart _ (omega arith) (omega arith));
    written = slice_apart off (length r) low ∙ slice-splice_self p.bytes off r (omega arith);
    kept = λ a n h apart. slice_apart a n h ∙ slice-splice-Apart p.bytes off r a n apart;
  }

module _ (p q : SlottedPage) (top index off : ℕ) (r : Bytes) (ptr' count' : ℕ)
    (e : Edited p q top index off r ptr' count') (low : header_size + top * slot_size ≤ off) where
  -- Then the header: the free-space pointer, and the number of slots.
  pub put_ptr-Edited : (v : ℕ) → v < 65536 → Edited p (put_u16 q 2 v) top index off r v count'
  put_ptr-Edited v hv = record {
    sized = length-splice _ _ _ ∙ e.sized;
    counted = u16_at-splice-Apart q.bytes 2 (u16_to_le v) 0 (omega arith) ∙ e.counted;
    pointed = u16_at-splice_self q.bytes 2 v (omega (arith, e.sized)) hv;
    placed = u16_at-splice-Apart q.bytes 2 (u16_to_le v) _ (omega arith) ∙ e.placed;
    measured = u16_at-splice-Apart q.bytes 2 (u16_to_le v) _ (omega arith) ∙ e.measured;
    others = λ j n h. (
      u16_at-splice-Apart q.bytes 2 (u16_to_le v) _ (omega arith) ∙ (e.others j n h).0,
      u16_at-splice-Apart q.bytes 2 (u16_to_le v) _ (omega arith) ∙ (e.others j n h).1,
    );
    written = slice-splice-Apart q.bytes 2 (u16_to_le v) off _ (omega arith) ∙ e.written;
    kept = λ a n h apart.
        slice-splice-Apart q.bytes 2 (u16_to_le v) a n (omega arith) ∙ e.kept a n h apart;
  }

  pub put_count-Edited : (v : ℕ) → v < 65536 → Edited p (put_u16 q 0 v) top index off r ptr' v
  put_count-Edited v hv = record {
    sized = length-splice _ _ _ ∙ e.sized;
    counted = u16_at-splice_self q.bytes 0 v (omega (arith, e.sized)) hv;
    pointed = u16_at-splice-Apart q.bytes 0 (u16_to_le v) 2 (omega arith) ∙ e.pointed;
    placed = u16_at-splice-Apart q.bytes 0 (u16_to_le v) _ (omega arith) ∙ e.placed;
    measured = u16_at-splice-Apart q.bytes 0 (u16_to_le v) _ (omega arith) ∙ e.measured;
    others = λ j n h. (
      u16_at-splice-Apart q.bytes 0 (u16_to_le v) _ (omega arith) ∙ (e.others j n h).0,
      u16_at-splice-Apart q.bytes 0 (u16_to_le v) _ (omega arith) ∙ (e.others j n h).1,
    );
    written = slice-splice-Apart q.bytes 0 (u16_to_le v) off _ (omega arith) ∙ e.written;
    kept = λ a n h apart.
        slice-splice-Apart q.bytes 0 (u16_to_le v) a n (omega arith) ∙ e.kept a n h apart;
  }
