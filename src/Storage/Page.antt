-- ===== src/Storage/Page.antt =====
-- src/storage/page.rs: a fixed-size page that holds records of any length.
-- The methods that change the page return it. `panic` is an index out of the page or an overflow
-- of `usize` arithmetic, as in a build with overflow checks.
pub mod Layout
pub mod Edit
pub mod Keep
pub mod Reads
pub mod Writes
pub mod Store
pub mod Refines
pub mod History
mod Tests
use skipper_db.Base.{
  ℕ, ◌+◌, ◌-◌, ◌*◌, ◌/◌, ◌%◌, Bool, true, false, [], ◌∷◌, Option, none, some, ltb, leb, ◌==◌,
  if◌then◌else◌, length, get_or, replicate, slice, splice,
}
use skipper_db.Base.Utf8.{Bytes}
use skipper_db.Errors.{Result, ok, panic, check, ◌>>=◌, ◌>>◌}

abbrev pub page_size : ℕ
page_size = 4096

abbrev pub header_size : ℕ
header_size = 4

abbrev pub slot_size : ℕ
slot_size = 4

pub record SlottedPage : Type 0 where
  pub bytes : Bytes

-- `u16::to_le_bytes`
abbrev pub u16_to_le : ℕ → Bytes
u16_to_le v = (v % 256) ∷ (v / 256 % 256) ∷ []

-- The value that the two bytes at `at` hold.
unfoldable pub u16_at : Bytes → ℕ → ℕ
u16_at bs at = get_or bs at 0 + 256 * get_or bs (at + 1) 0

unfoldable pub read_u16 : SlottedPage → ℕ → Result ℕ
read_u16 p at = if leb (at + 2) (length p.bytes) then ok (u16_at p.bytes at) else panic

-- `self.bytes[at..at + len].copy_from_slice(bs)`
unfoldable pub copy_into : SlottedPage → ℕ → Bytes → Result SlottedPage
copy_into p at bs =
    if leb (at + length bs) (length p.bytes)
    then ok (record { bytes = splice p.bytes at bs })
    else panic

unfoldable pub write_u16 : SlottedPage → ℕ → ℕ → Result SlottedPage
write_u16 p at v = copy_into p at (u16_to_le v)

unfoldable pub set_slot_count : SlottedPage → ℕ → Result SlottedPage
set_slot_count p count = write_u16 p 0 count

unfoldable pub set_free_ptr : SlottedPage → ℕ → Result SlottedPage
set_free_ptr p ptr = write_u16 p 2 ptr

-- `[0u8; PAGE_SIZE]`
unfoldable pub zeroed : Bytes
zeroed = replicate page_size 0

-- An empty page: no slots, and the free-space pointer at the end.
unfoldable pub new : Result SlottedPage
new = do p ← set_slot_count (record { bytes = zeroed }) 0; set_free_ptr p page_size

unfoldable pub from_bytes : Bytes → SlottedPage
from_bytes bs = record { bytes = bs }

unfoldable pub as_bytes : SlottedPage → Bytes
as_bytes p = p.bytes

unfoldable pub slot_count : SlottedPage → Result ℕ
slot_count p = read_u16 p 0

unfoldable pub free_ptr : SlottedPage → Result ℕ
free_ptr p = read_u16 p 2

unfoldable pub slot_dir_end : SlottedPage → Result ℕ
slot_dir_end p = do count ← slot_count p; ok (header_size + count * slot_size)

-- `usize` subtraction: below 0 it overflows.
unfoldable pub free_space : SlottedPage → Result ℕ
free_space p = do
  ptr ← free_ptr p
  end ← slot_dir_end p
  if leb end ptr then ok (ptr - end) else panic

-- The offset and the length of a slot.
unfoldable pub slot : SlottedPage → ℕ → Result (ℕ × ℕ)
slot p index = do
  let base = header_size + index * slot_size
  offset ← read_u16 p base
  len ← read_u16 p (base + 2)
  ok (offset, len)

unfoldable pub set_slot : SlottedPage → ℕ → ℕ → ℕ → Result SlottedPage
set_slot p index offset len = do
  let base = header_size + index * slot_size
  q ← write_u16 p base offset
  write_u16 q (base + 2) len

abbrev pub as_u16 : ℕ → ℕ
as_u16 n = n % 65536

-- Copies `record` to a cell, appends a slot, and returns its number, or `none` if it does not fit.
unfoldable pub insert : SlottedPage → Bytes → Result (SlottedPage × Option ℕ)
insert p rec = do
  room ← free_space p
  if ltb room (length rec + slot_size) then ok (p, none) else do
    ptr ← free_ptr p
    check (leb (length rec) ptr)
    let offset = ptr - length rec
    p₁ ← copy_into p offset rec
    index ← slot_count p₁
    p₂ ← set_slot p₁ index (as_u16 offset) (as_u16 (length rec))
    p₃ ← set_free_ptr p₂ (as_u16 offset)
    p₄ ← set_slot_count p₃ (as_u16 (index + 1))
    ok (p₄, some (as_u16 index))

-- The record of a slot, or `none` if the slot is out of range or dead.
unfoldable pub get : SlottedPage → ℕ → Result (Option Bytes)
get p index = do
  count ← slot_count p
  if leb count index then ok none else do
    (offset, len) ← slot p index
    if len == 0
        then ok none
        else do check (leb (offset + len) (length p.bytes)); ok (some (slice p.bytes offset len))

-- Marks a slot as dead; its cell is not reclaimed.
unfoldable pub delete : SlottedPage → ℕ → Result (SlottedPage × Bool)
delete p index = do
  count ← slot_count p
  if leb count index then ok (p, false) else do
    (offset, len) ← slot p index
    if len == 0 then ok (p, false) else do q ← set_slot p index (as_u16 offset) 0; ok (q, true)

-- Replaces a live slot's record, in place where it fits, else in the free space.
unfoldable pub update : SlottedPage → ℕ → Bytes → Result (SlottedPage × Bool)
update p index rec = do
  count ← slot_count p
  if leb count index then ok (p, false) else do
    (offset, len) ← slot p index
    if len == 0
        then ok (p, false)
        else if leb (length rec) len
        then (do
          p₁ ← copy_into p offset rec
          p₂ ← set_slot p₁ index (as_u16 offset) (as_u16 (length rec))
          ok (p₂, true))
        else (do
          room ← free_space p
          if ltb room (length rec) then ok (p, false) else do
            ptr ← free_ptr p
            check (leb (length rec) ptr)
            let new_offset = ptr - length rec
            p₁ ← copy_into p new_offset rec
            p₂ ← set_slot p₁ index (as_u16 new_offset) (as_u16 (length rec))
            p₃ ← set_free_ptr p₂ (as_u16 new_offset)
            ok (p₃, true))
