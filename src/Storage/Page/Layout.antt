-- ===== src/Storage/Page/Layout.antt =====
-- How the bytes of a page are read, the invariant of a page, and what a write to a cell and to its
-- slot leaves of both.
use skipper_db.Base.{
  ℕ, ◌+◌, ◌*◌, ◌≤◌, ◌<◌, ◌≡◌, ◌≢◌, Option, none, some, leb, ◌==◌, if◌then◌else◌, le→leb, length,
  slice, splice, Apart, get_or-splice-Apart, get_or-splice_in, arith,
}
use skipper_db.Base.Utf8.{Bytes}
use skipper_db.Errors.{ok}
use skipper_db.Storage.Page.{
  SlottedPage, page_size, header_size, slot_size, u16_at, u16_to_le, read_u16, copy_into,
}

abbrev pub count : SlottedPage → ℕ
count p = u16_at p.bytes 0

abbrev pub ptr : SlottedPage → ℕ
ptr p = u16_at p.bytes 2

abbrev pub offset : SlottedPage → ℕ → ℕ
offset p i = u16_at p.bytes (header_size + i * slot_size)

abbrev pub len : SlottedPage → ℕ → ℕ
len p i = u16_at p.bytes (header_size + i * slot_size + 2)

-- The directory lies below the free-space pointer, live cells lie above it, and no two live cells
-- overlap.
pub record IsValid (p : SlottedPage) : Type 0 where
  pub sized : length p.bytes ≡ page_size
  pub room : header_size + count p * slot_size ≤ ptr p
  pub bounded : ptr p ≤ page_size
  pub cells :
      (i : ℕ)
      → i < count p
      → 0 < len p i
      → (ptr p ≤ offset p i) × (offset p i + len p i ≤ page_size)
  pub apart :
      (i j : ℕ)
      → i < count p
      → j < count p
      → i ≢ j
      → 0 < len p i
      → 0 < len p j
      → Apart (offset p i) (len p i) (offset p j) (len p j)

-- The record that a slot shows.
pub cell : SlottedPage → ℕ → Option Bytes
cell p i =
    if leb (count p) i
    then none
    else if len p i == 0
    then none
    else some (slice p.bytes (offset p i) (len p i))

pub cell_live :
    (p : SlottedPage) (i : ℕ)
    → i < count p
    → 0 < len p i
    → cell p i ≡ some (slice p.bytes (offset p i) (len p i))
unfolding cell
cell_live p i h l = ground arith

pub cell_dead : (p : SlottedPage) (i : ℕ) → len p i ≡ 0 → cell p i ≡ none
unfolding cell
cell_dead p i l = ground arith

pub cell_beyond : (p : SlottedPage) (i : ℕ) → count p ≤ i → cell p i ≡ none
unfolding cell
cell_beyond p i l = ground arith

-- Reading and writing within the page.
pub read_u16_lem :
    (p : SlottedPage) (at : ℕ) → at + 2 ≤ length p.bytes → read_u16 p at ≡ ok (u16_at p.bytes at)
unfolding read_u16
read_u16_lem p at h = rw (le→leb _ _ h)

pub copy_into_lem :
    (p : SlottedPage) (at : ℕ) (bs : Bytes)
    → at + length bs ≤ length p.bytes
    → copy_into p at bs ≡ ok (record { bytes = splice p.bytes at bs })
unfolding copy_into
copy_into_lem p at bs h = rw (le→leb _ _ h)

pub u16_at-splice-Apart :
    (bs : Bytes) (off : ℕ) (r : Bytes) (at : ℕ)
    → Apart at 2 off (length r)
    → u16_at (splice bs off r) at ≡ u16_at bs at
unfolding u16_at
u16_at-splice-Apart bs off r at h = rw (
  get_or-splice-Apart bs off r at 0 (omega arith),
  get_or-splice-Apart bs off r (at + 1) 0 (omega arith),
)

pub u16_at-splice_self :
    (bs : Bytes) (at v : ℕ)
    → at + 2 ≤ length bs
    → v < 65536
    → u16_at (splice bs at (u16_to_le v)) at ≡ v
unfolding u16_at
u16_at-splice_self bs at v h hv =
    let low = get_or-splice_in bs at (u16_to_le v) at 0 0 h (omega arith) (omega arith) in
    let high = get_or-splice_in bs at (u16_to_le v) (at + 1) 1 0 h (omega arith) (omega arith) in
    omega (arith, low, high)
