-- ===== src/Storage/Page/Reads.antt =====
-- What the reading methods of a page return on a valid page, none of which panics.
use native.Mathlib.Decide.{ℕ_discrete}
use skipper_db.Base.{
  ℕ, ◌+◌, ◌-◌, ◌*◌, ◌≤◌, ◌<◌, ◌≡◌, ◌∙◌, length, le→leb, lt→leb, eq→==, ne→==, le_or_lt, inl, inr,
  arith, length-splice,
}
use skipper_db.Errors.{ok}
use skipper_db.Storage.Page.{
  SlottedPage, page_size, header_size, slot_size, u16_to_le, write_u16, slot_count, free_ptr,
  slot_dir_end, free_space, slot, set_slot, set_slot_count, set_free_ptr, as_u16, get,
}
use skipper_db.Storage.Page.Layout.{
  count, ptr, offset, len, IsValid, cell, cell_live, cell_dead, cell_beyond, read_u16_lem,
  copy_into_lem,
}
use skipper_db.Storage.Page.Edit.{put_u16, put_slot}

module _ (p : SlottedPage) (sized : length p.bytes ≡ page_size) where
  pub slot_count_lem : slot_count p ≡ ok (count p)
  unfolding slot_count
  slot_count_lem = read_u16_lem p 0 (omega arith)

  pub free_ptr_lem : free_ptr p ≡ ok (ptr p)
  unfolding free_ptr
  free_ptr_lem = read_u16_lem p 2 (omega arith)

  pub slot_dir_end_lem : slot_dir_end p ≡ ok (header_size + count p * slot_size)
  unfolding slot_dir_end
  slot_dir_end_lem = rw slot_count_lem

  pub free_space_lem :
      header_size + count p * slot_size ≤ ptr p
      → free_space p ≡ ok (ptr p - (header_size + count p * slot_size))
  unfolding free_space
  free_space_lem h = rw (free_ptr_lem, slot_dir_end_lem, le→leb _ _ h)

  pub slot_lem :
      (i : ℕ) → header_size + i * slot_size + 4 ≤ page_size → slot p i ≡ ok (offset p i, len p i)
  unfolding slot
  slot_lem i h = rw (
    read_u16_lem p (header_size + i * slot_size) (omega arith),
    read_u16_lem p (header_size + i * slot_size + 2) (omega arith),
  )

  pub write_u16_lem : (at v : ℕ) → at + 2 ≤ page_size → write_u16 p at v ≡ ok (put_u16 p at v)
  unfolding write_u16
  write_u16_lem at v h = copy_into_lem p at (u16_to_le v) (omega arith)

module _ (p : SlottedPage) (sized : length p.bytes ≡ page_size) where
  pub set_slot_lem :
      (i off n : ℕ)
      → header_size + i * slot_size + 4 ≤ page_size
      → set_slot p i off n ≡ ok (put_slot p i off n)
  unfolding set_slot
  set_slot_lem i off n h =
      let base = header_size + i * slot_size in
      rw (
        write_u16_lem p sized base off (omega arith),
        write_u16_lem (put_u16 p base off) (length-splice p.bytes base _ ∙ sized) (base + 2) n
            (omega arith),
      )

  pub set_free_ptr_lem : (v : ℕ) → set_free_ptr p v ≡ ok (put_u16 p 2 v)
  unfolding set_free_ptr
  set_free_ptr_lem v = write_u16_lem p sized 2 v (omega arith)

  pub set_slot_count_lem : (v : ℕ) → set_slot_count p v ≡ ok (put_u16 p 0 v)
  unfolding set_slot_count
  set_slot_count_lem v = write_u16_lem p sized 0 v (omega arith)

pub as_u16_lem : (n : ℕ) → n < 65536 → as_u16 n ≡ n
as_u16_lem n h = omega arith

-- On a valid page `get` does not panic: it returns the record of a live slot and `none` otherwise.
pub get_lem : (p : SlottedPage) (i : ℕ) → IsValid p → get p i ≡ ok (cell p i)
unfolding get
get_lem p i v = elim (le_or_lt (count p) i) [
  | inl h ↦ rw (slot_count_lem p v.sized, le→leb _ _ h, cell_beyond p i h)
  | inr h ↦
      rw (slot_count_lem p v.sized, lt→leb _ _ h, slot_lem p v.sized i (omega arith))
        (elim (ℕ_discrete (len p i) 0) [
          | yes z ↦ rw (eq→== _ _ z, cell_dead p i z)
          | no n ↦
              let c = v.cells i h (omega arith) in
              rw (
                ne→== _ _ n,
                le→leb (offset p i + len p i) (length p.bytes) (omega arith),
                cell_live p i h (omega arith),
              )
        ])
]
