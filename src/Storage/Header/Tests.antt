-- ===== src/Storage/Header/Tests.antt =====
-- A new database file, and the theorem about headers at other files.
use skipper_db.Base.{◌≡◌, ◌≢◌, refl, [], ◌∷◌, ◌++◌, none, some, ◌⊎◌, ◌<◌, length, take}
use skipper_db.Base.Utf8.{Bytes, ascii, text_eq}
use skipper_db.Errors.{ok, err, ◌>>=◌, io, unexpected_eof, not_a_skipper_db, unsupported_version}
use skipper_db.Storage.Header.{magic, format_version, write_header, read_exact, read_header}
use skipper_db.Storage.Header.Reads.{version_of, page_size_of, read_header_lem}

written_read :
    (write_header none >>= λ file. read_header (ascii "skipper.dat") (some file))
    ≡ ok (record { magic = magic; version = 1; page_size = 4096 })
unfolding write_header read_header read_exact text_eq
written_read = refl

-- A file of a later version.
abbrev later : Bytes
later = magic ++ (2 ∷ 0 ∷ 0 ∷ 0 ∷ 0 ∷ 16 ∷ 0 ∷ 0 ∷ [])

read_header_lem_example :
    ((length later < 16) × (read_header (ascii "a.dat") (some later) ≡ err (io unexpected_eof)))
    ⊎ ((take 8 later ≢ magic)
        × (read_header (ascii "a.dat") (some later) ≡ err (not_a_skipper_db (ascii "a.dat"))))
    ⊎ ((version_of later ≢ format_version)
        × (read_header (ascii "a.dat") (some later) ≡ err (unsupported_version (version_of later))))
    ⊎ (read_header (ascii "a.dat") (some later)
        ≡ ok (record { magic = magic; version = format_version; page_size = page_size_of later }))
read_header_lem_example = read_header_lem (ascii "a.dat") later
