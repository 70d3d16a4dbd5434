-- ===== src/Storage/Header/Reads.antt =====
-- What src/storage/mod.rs reads from a file as its header.
use skipper_db.Base.{
  ℕ, ◌≤◌, ◌<◌, ◌≡◌, ◌≢◌, refl, ◌∙◌, ap, some, lt→ltb, le→ltb, le_or_lt, ◌==◌, eq→==, ne→==,
  if◌then◌else◌, length, length-drop, take, drop, Bool-cases, inl, inr, ◌⊎◌, arith,
}
use skipper_db.Base.Utf8.{Bytes, Text, text_eq, text_eq→eq, text_eq_refl}
use skipper_db.Base.Words.{from_le}
use skipper_db.Errors.{ok, err, io, unexpected_eof, not_a_skipper_db, unsupported_version}
use skipper_db.Storage.Header.{magic, format_version, read_exact, read_header}
use native.Mathlib.Decide.{ℕ_discrete}

read_exact_short : (n : ℕ) (bs : Bytes) → length bs < n → read_exact n bs ≡ err (io unexpected_eof)
unfolding read_exact
read_exact_short n bs h = rw (read_exact, lt→ltb _ _ h) refl

read_exact_long : (n : ℕ) (bs : Bytes) → n ≤ length bs → read_exact n bs ≡ ok (take n bs, drop n bs)
unfolding read_exact
read_exact_long n bs h = rw (read_exact, le→ltb _ _ h) refl

-- The fields of a header, where they stand in a file.
abbrev pub version_of : Bytes → ℕ
version_of file = from_le (take 4 (drop 8 file))

abbrev pub page_size_of : Bytes → ℕ
page_size_of file = from_le (take 4 (drop 4 (drop 8 file)))

-- The read of a file that holds a header's bytes.
long_lem :
    (path : Text) (file : Bytes)
    → 16 ≤ length file
    → read_header path (some file) ≡ (
        if text_eq (take 8 file) magic
        then (if version_of file == format_version
            then ok (record {
              magic = take 8 file;
              version = version_of file;
              page_size = page_size_of file;
            })
            else err (unsupported_version (version_of file)))
        else err (not_a_skipper_db path))
unfolding read_header
long_lem path file h =
    rw
      (
        read_header,
        read_exact_long 8 file (omega arith),
        read_exact_long 4 (drop 8 file) (omega (arith, length-drop 8 file)),
        read_exact_long 4 (drop 4 (drop 8 file))
            (omega (arith, length-drop 8 file, length-drop 4 (drop 8 file))),
      )
      refl

short_lem :
    (path : Text) (file : Bytes)
    → length file < 16
    → read_header path (some file) ≡ err (io unexpected_eof)
unfolding read_header
short_lem path file h = elim (le_or_lt 8 (length file)) [
  | inr lt8 ↦ rw (read_header, read_exact_short 8 file lt8) refl
  | inl le8 ↦ elim (le_or_lt 12 (length file)) [
    | inr lt12 ↦
        rw
          (
            read_header,
            read_exact_long 8 file le8,
            read_exact_short 4 (drop 8 file) (omega (arith, length-drop 8 file)),
          )
          refl
    | inl le12 ↦
        rw
          (
            read_header,
            read_exact_long 8 file le8,
            read_exact_long 4 (drop 8 file) (omega (arith, length-drop 8 file)),
            read_exact_short 4 (drop 4 (drop 8 file))
                (omega (arith, length-drop 8 file, length-drop 4 (drop 8 file))),
          )
          refl
  ]
]

-- The read of a file that is there ends in one of four ways: the file is shorter than 16 bytes and the
-- read fails; it starts with other bytes than the magic ones and is not a database; it has another
-- version than the program's, which the error names; or the header is returned, with the magic bytes,
-- the program's version, and the file's page size.
pub read_header_lem :
    (path : Text) (file : Bytes)
    → ((length file < 16) × (read_header path (some file) ≡ err (io unexpected_eof)))
      ⊎ ((take 8 file ≢ magic) × (read_header path (some file) ≡ err (not_a_skipper_db path)))
      ⊎ ((version_of file ≢ format_version)
          × (read_header path (some file) ≡ err (unsupported_version (version_of file))))
      ⊎ (read_header path (some file)
          ≡ ok (record { magic = magic; version = format_version; page_size = page_size_of file }))
read_header_lem path file = elim (le_or_lt 16 (length file)) [
  | inr few ↦ inl (few, short_lem path file few)
  | inl h ↦ elim (Bool-cases (text_eq (take 8 file) magic)) [
    | inr other ↦ inr (
        inl (
          (λ e. absurd (cc (other, ap (λ m. text_eq m magic) e, text_eq_refl magic))),
          long_lem path file h ∙ rw other refl,
        ))
    | inl same ↦ elim (ℕ_discrete (version_of file) format_version) [
      | no n ↦ inr (inr (inl (n, long_lem path file h ∙ rw (same, ne→== _ _ n) refl)))
      | yes e ↦ inr (
          inr (
            inr (
              long_lem path file h
              ∙ rw (same, eq→== _ _ e)
                  (ap
                      (λ m. ok (record {
                        magic = m;
                        version = version_of file;
                        page_size = page_size_of file;
                      }))
                      (text_eq→eq (take 8 file) magic same)
                    ∙ ap
                        (λ v.
                          ok (record { magic = magic; version = v; page_size = page_size_of file }))
                        e))))
    ]
  ]
]
