-- ===== src/Storage/Table/Head.antt =====
-- Page 0 of a heap file of src/storage/table.rs: what `create` writes to it and `open` reads from it.
use skipper_db.Base.{
  ℕ, suc, ◌+◌, ◌<◌, ◌≤◌, ◌≡◌, refl, ap, ◌∙◌, subst, inl, inr, List, [], ◌∷◌, Option, none, some,
  length, arith, le→leb, le→ltb, replicate, slice, splice, Apart, length-splice, slice-splice_self,
  slice-splice-Apart, length-replicate, All, append-nil,
}
use skipper_db.Base.Utf8.{Bytes, Text, text_eq_refl}
use skipper_db.Base.Words.{to_le, from_le, length-to_le, from_le-to_le}
use skipper_db.Errors.{ok, ◌>>=◌}
use skipper_db.Catalog.Schema.{Schema, IsColumn, serialize, deserialize}
use skipper_db.Catalog.Schema.RoundTrip.{deserialize-serialize}
use skipper_db.Storage.Header.{magic, format_version, default_page_size}
use skipper_db.Storage.Page.{page_size}
use skipper_db.Storage.BTree
use skipper_db.Storage.BTree.{Pages}
use skipper_db.Storage.BTree.Nodes.{put, text_at}
use skipper_db.Storage.Table.Indexed.{with_index}
use skipper_db.Storage.Table.{
  Table, Index, schema_len_offset, index_col_offset, schema_offset, meta_page, create_new,
  create_table, read_schema, open_index, open_file, open_table,
}

-- The number that page 0 has for the index: one more than its column, or 0.
abbrev pub marker : Option Index → ℕ
marker none = 0
marker (some index) = suc index.column

-- A page 0 with the schema and the marker.
pub record IsHead (meta : Bytes) (s : Schema) (mark : ℕ) : Type 0 where
  pub sized : length meta ≡ page_size
  pub magic_first : slice meta 0 8 ≡ magic
  pub version : from_le (slice meta 8 4) ≡ format_version
  pub schema_read : read_schema meta ≡ ok s
  pub marked : from_le (slice meta index_col_offset 4) ≡ mark

-- The file starts with the page 0 of the table's schema and index.
pub record Headed (t : Table) : Type 0 where
  pub meta : Bytes
  pub pages : List Bytes
  pub filed : t.file ≡ meta ∷ pages
  pub is_head : IsHead meta t.schema (marker t.index)

-- What `open` makes of the file of a table.
pub open_table-Headed :
    (t : Table) (index_file : Option Pages)
    → Headed t
    → open_table t.path (some t.file) index_file
      ≡ (open_index (marker t.index) t.path index_file >>= λ index. ok (with_index t index))
unfolding open_table open_file BTree.read_page text_at
open_table-Headed t index_file h =
    let m = h.is_head in
    rw (h.filed, m.magic_first, text_eq_refl magic, m.version, m.schema_read, m.marked) refl

pub put_ok :
    (buf : Bytes) (at : ℕ) (bs : Bytes)
    → at + length bs ≤ length buf
    → put buf at bs ≡ ok (splice buf at bs)
unfolding put
put_ok buf at bs h = rw (put, le→leb (at + length bs) (length buf) h) refl

abbrev zeros : Bytes
zeros = replicate page_size 0

length-zeros : length zeros ≡ page_size
length-zeros = length-replicate {A = ℕ} page_size 0

-- The bytes that `create` writes to page 0.
module _ (bs : Bytes) (fits : schema_offset + length bs ≤ page_size) where
  abbrev len_bytes : Bytes
  len_bytes = to_le 4 (length bs)

  abbrev m₁ : Bytes
  m₁ = splice zeros 0 magic

  abbrev m₂ : Bytes
  m₂ = splice m₁ 8 (to_le 4 format_version)

  abbrev m₃ : Bytes
  m₃ = splice m₂ 12 (to_le 4 default_page_size)

  abbrev m₄ : Bytes
  m₄ = splice m₃ schema_len_offset len_bytes

  abbrev m₅ : Bytes
  m₅ = splice m₄ schema_offset bs

  size₁ : length m₁ ≡ page_size
  size₁ = length-splice zeros 0 magic ∙ length-zeros

  size₂ : length m₂ ≡ page_size
  size₂ = length-splice m₁ 8 (to_le 4 format_version) ∙ size₁

  size₃ : length m₃ ≡ page_size
  size₃ = length-splice m₂ 12 (to_le 4 default_page_size) ∙ size₂

  size₄ : length m₄ ≡ page_size
  size₄ = length-splice m₃ schema_len_offset len_bytes ∙ size₃

  meta_page_lem : meta_page bs ≡ ok m₅
  unfolding meta_page
  meta_page_lem =
      rw
        (
          meta_page,
          put_ok zeros 0 magic (omega (arith, length-zeros)),
          put_ok m₁ 8 (to_le 4 format_version) (omega (arith, size₁)),
          put_ok m₂ 12 (to_le 4 default_page_size) (omega (arith, size₂)),
          put_ok m₃ schema_len_offset len_bytes (omega (arith, size₃, length-to_le 4 (length bs))),
          put_ok m₄ schema_offset bs (omega (arith, size₄)),
        )
        refl

  -- The bytes that the write of the schema leaves.
  m₅-before : (a n : ℕ) → a + n ≤ schema_offset → slice m₅ a n ≡ slice m₄ a n
  m₅-before a n h = slice-splice-Apart m₄ schema_offset bs a n (inl h)

  m₅-len : slice m₅ schema_len_offset 4 ≡ len_bytes
  m₅-len =
      m₅-before schema_len_offset 4 (omega arith)
      ∙ slice-splice_self m₃ schema_len_offset len_bytes
          (omega (arith, size₃, length-to_le 4 (length bs)))

  m₅-schema : slice m₅ schema_offset (length bs) ≡ bs
  m₅-schema = slice-splice_self m₄ schema_offset bs (omega (arith, size₄))

  m₅-mark : slice m₅ index_col_offset 4 ≡ slice zeros index_col_offset 4
  m₅-mark =
      m₅-before index_col_offset 4 (omega arith)
      ∙ slice-splice-Apart m₃ schema_len_offset len_bytes index_col_offset 4
          (inr (omega (arith, length-to_le 4 (length bs))))
      ∙ slice-splice-Apart m₂ 12 (to_le 4 default_page_size) index_col_offset 4 (inr (omega arith))
      ∙ slice-splice-Apart m₁ 8 (to_le 4 format_version) index_col_offset 4 (inr (omega arith))
      ∙ slice-splice-Apart zeros 0 magic index_col_offset 4 (inr (omega arith))

  m₅-version : slice m₅ 8 4 ≡ to_le 4 format_version
  m₅-version =
      m₅-before 8 4 (omega arith)
      ∙ slice-splice-Apart m₃ schema_len_offset len_bytes 8 4 (inl (omega arith))
      ∙ slice-splice-Apart m₂ 12 (to_le 4 default_page_size) 8 4 (inl (omega arith))
      ∙ slice-splice_self m₁ 8 (to_le 4 format_version) (omega (arith, size₁))

  m₅-magic : slice m₅ 0 8 ≡ magic
  m₅-magic =
      m₅-before 0 8 (omega arith)
      ∙ slice-splice-Apart m₃ schema_len_offset len_bytes 0 8 (inl (omega arith))
      ∙ slice-splice-Apart m₂ 12 (to_le 4 default_page_size) 0 8 (inl (omega arith))
      ∙ slice-splice-Apart m₁ 8 (to_le 4 format_version) 0 8 (inl (omega arith))
      ∙ slice-splice_self zeros 0 magic (omega (arith, length-zeros))

  m₅-len_read : from_le (slice m₅ schema_len_offset 4) ≡ length bs
  m₅-len_read = ap from_le m₅-len ∙ from_le-to_le 4 (length bs) (omega arith)

  m₅-read_schema : read_schema m₅ ≡ deserialize bs
  unfolding read_schema
  m₅-read_schema =
      rw
        (
          m₅-len_read,
          le→leb (schema_offset + length bs) (length m₅)
              (omega (arith, length-splice m₄ schema_offset bs, size₄)),
          m₅-schema,
        )
        refl

  pub m₅-IsHead : (s : Schema) → deserialize bs ≡ ok s → IsHead m₅ s 0
  m₅-IsHead s e = record {
    sized = length-splice m₄ schema_offset bs ∙ size₄;
    magic_first = m₅-magic;
    version = ap from_le m₅-version;
    schema_read = m₅-read_schema ∙ e;
    marked = ap from_le m₅-mark;
  }

-- For a schema that fits page 0, `create` at a path with no file makes a file of that one page, and
-- fails at a path with a file.
pub create_table_lem :
    (path : Text) (s : Schema)
    → All IsColumn s.columns
    → length s.columns < 65536
    → schema_offset + length (serialize s) ≤ page_size
    → (t : Table) × (create_table none path s ≡ ok t)
      × Headed t
      × (t.index ≡ none)
      × (t.path ≡ path)
      × (t.schema ≡ s)
      × ((meta : Bytes) × (t.file ≡ meta ∷ []))
unfolding create_table create_new
create_table_lem path s cs n fits =
    let bs = serialize s in
    let back : deserialize bs ≡ ok s =
      subst (λ b. deserialize b ≡ ok s) (append-nil bs) (deserialize-serialize s [] cs n) in
    (
      record { file = m₅ bs fits ∷ []; schema = s; path = path; index = none },
      rw (le→ltb page_size (schema_offset + length bs) fits, meta_page_lem bs fits) refl,
      record { meta = m₅ bs fits; pages = []; filed = refl; is_head = m₅-IsHead bs fits s back },
      refl,
      refl,
      refl,
      (m₅ bs fits, refl),
    )

-- The write of the index's marker to page 0.
module _ (meta : Bytes) (s : Schema) (old mark : ℕ) (h : IsHead meta s old)
    (small : mark < 4294967296) where
  abbrev pub marked_page : Bytes
  marked_page = splice meta index_col_offset (to_le 4 mark)

  marked-Apart : (a n : ℕ) → Apart a n index_col_offset 4 → slice marked_page a n ≡ slice meta a n
  marked-Apart a n k =
      slice-splice-Apart meta index_col_offset (to_le 4 mark) a n
        (omega (arith, length-to_le 4 mark, k))

  marked-read_schema : read_schema marked_page ≡ read_schema meta
  unfolding read_schema
  marked-read_schema =
      rw
        (
          marked-Apart schema_len_offset 4 (inl (omega arith)),
          length-splice meta index_col_offset (to_le 4 mark),
          marked-Apart schema_offset (from_le (slice meta schema_len_offset 4)) (inr (omega arith)),
        )
        refl

  pub marked_page-IsHead : IsHead marked_page s mark
  marked_page-IsHead = record {
    sized = length-splice meta index_col_offset (to_le 4 mark) ∙ h.sized;
    magic_first = marked-Apart 0 8 (inl (omega arith)) ∙ h.magic_first;
    version = ap from_le (marked-Apart 8 4 (inl (omega arith))) ∙ h.version;
    schema_read = marked-read_schema ∙ h.schema_read;
    marked =
        ap from_le (
          slice-splice_self meta index_col_offset (to_le 4 mark)
            (omega (arith, h.sized, length-to_le 4 mark)))
        ∙ from_le-to_le 4 mark (omega arith);
  }
