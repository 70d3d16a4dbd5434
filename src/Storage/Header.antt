-- ===== src/Storage/Header.antt =====
-- src/storage/mod.rs: the header of the database file, and src/catalog/mod.rs, which calls it.
-- A file is its bytes, and `none` if it is not there.
pub mod Reads
mod Tests
use skipper_db.Base.{
  ℕ, ◌+◌, ◌-◌, List, [], ◌∷◌, ◌++◌, Bool, true, false, Option, none, some, ltb, ◌==◌, if◌then◌else◌,
  length, replicate, take, drop,
}
use skipper_db.Base.Utf8.{Bytes, Text, text_eq}
use skipper_db.Base.Words.{to_le, from_le}
use skipper_db.Errors.{
  Result, ok, err, ◌>>=◌, ◌>>◌, io, not_found, already_exists, unexpected_eof, not_a_skipper_db,
  unsupported_version,
}

abbrev pub magic : Bytes
magic = b'S' ∷ b'K' ∷ b'P' ∷ b'R' ∷ b'D' ∷ b'B' ∷ 0 ∷ 0 ∷ []

abbrev pub format_version : ℕ
format_version = 1

abbrev pub default_page_size : ℕ
default_page_size = 4096

pub record FileHeader : Type 0 where
  pub magic : Bytes
  pub version : ℕ
  pub page_size : ℕ

-- `FileHeader::write`: the file that it makes, if there was none.
unfoldable pub write_header : Option Bytes → Result Bytes
write_header (some file) = err (io already_exists)
write_header none = ok (
    magic
    ++ (to_le 4 format_version
        ++ (to_le 4 default_page_size ++ replicate (default_page_size - (length magic + 4 + 4)) 0)))

-- `read_exact` of `n` bytes, with the bytes behind them.
unfoldable pub read_exact : ℕ → Bytes → Result (Bytes × Bytes)
read_exact n bs = if ltb (length bs) n then err (io unexpected_eof) else ok (take n bs, drop n bs)

-- `FileHeader::read` of the file at a path.
unfoldable pub read_header : Text → Option Bytes → Result FileHeader
read_header path none = err (io not_found)
read_header path (some file) = do
  (m, r₁) ← read_exact 8 file
  (v, r₂) ← read_exact 4 r₁
  (p, r₃) ← read_exact 4 r₂
  if text_eq m magic
      then (if from_le v == format_version
          then ok (record { magic = m; version = from_le v; page_size = from_le p })
          else err (unsupported_version (from_le v)))
      else err (not_a_skipper_db path)

-- `init`: the file in the directory, which must not be there.
unfoldable pub init : Option (Option Bytes) → Result Bytes
init (some directory) = err (io already_exists)
init none = write_header none
