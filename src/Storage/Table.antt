-- ===== src/Storage/Table.antt =====
-- src/storage/table.rs: a heap file of rows, page 0 with the schema and the slotted pages behind it,
-- and the index of one column. A file is its pages, all of full length, and `none` if it is not
-- there; the caller finds the files on the disk. `panic` is also an overflow.
pub mod Stores
pub mod Keeps
pub mod Refines
pub mod Edits
pub mod Listing
pub mod Rows
pub mod Found
pub mod Head
pub mod History
pub mod Scan
pub mod Keys
pub mod Indexed
mod Tests
use skipper_db.Base.{
  ℕ, zero, suc, ◌+◌, ◌-◌, ◌%◌, Bool, true, false, ◌||◌, List, [], ◌∷◌, ◌++◌, Option, none, some,
  ltb, leb, ◌==◌, if◌then◌else◌, length, max, replicate, slice,
}
use skipper_db.Base.Int.{ℤ}
use skipper_db.Base.Utf8.{Bytes, Text, ascii, text_eq}
use skipper_db.Base.Words.{to_le, from_le}
use skipper_db.Errors.{
  Result, ok, err, panic, check, ◌>>=◌, ◌>>◌, io, not_found, already_exists, not_a_skipper_db,
  unsupported_version, malformed_schema, schema_too_large, record_too_large, unknown_column,
  unsupported_key_type, no_index,
}
use skipper_db.Types.{ColumnType, Value, column_type_eq}
use skipper_db.Catalog.Schema.{Column, Schema, column_index, serialize, deserialize}
use skipper_db.Storage.Header.{magic, format_version, default_page_size}
use skipper_db.Storage.Page
use skipper_db.Storage.Page.{SlottedPage, page_size}
use skipper_db.Storage.Record.{encode, decode}
use skipper_db.Storage.BTree
use skipper_db.Storage.BTree.{Pages, BTree}
use skipper_db.Storage.BTree.Nodes.{Rid, put, text_at}

abbrev pub schema_len_offset : ℕ
schema_len_offset = 16

abbrev pub index_col_offset : ℕ
index_col_offset = 20

abbrev pub schema_offset : ℕ
schema_offset = 24

pub record Index : Type 0 where
  pub column : ℕ
  pub tree : BTree

pub record Table : Type 0 where
  pub file : Pages
  pub schema : Schema
  pub path : Text
  pub index : Option Index

unfoldable pub index_path : Text → Text
index_path table_path = table_path ++ ascii ".idx"

-- The page 0 that `create` writes.
unfoldable pub meta_page : Bytes → Result Bytes
meta_page schema_bytes = do
  m₁ ← put (replicate page_size 0) 0 magic
  m₂ ← put m₁ 8 (to_le 4 format_version)
  m₃ ← put m₂ 12 (to_le 4 default_page_size)
  m₄ ← put m₃ schema_len_offset (to_le 4 (length schema_bytes))
  put m₄ schema_offset schema_bytes

-- `create_new`, on what is at the path.
unfoldable pub create_new : Option Pages → Pages → Result Pages
create_new none file = ok file
create_new (some old) file = err (io already_exists)

-- `Table::create` at a path.
unfoldable pub create_table : Option Pages → Text → Schema → Result Table
create_table old path s =
    let schema_bytes = serialize s in
    if ltb page_size (schema_offset + length schema_bytes) then err schema_too_large else (do
      meta ← meta_page schema_bytes
      file ← create_new old (meta ∷ [])
      ok (record { file = file; schema = s; path = path; index = none }))

-- `meta.get(SCHEMA_OFFSET..SCHEMA_OFFSET + schema_len)`, and the schema in it.
unfoldable pub read_schema : Bytes → Result Schema
read_schema meta =
    let schema_len = from_le (slice meta schema_len_offset 4) in
    if leb (schema_offset + schema_len) (length meta)
    then deserialize (slice meta schema_offset schema_len)
    else err malformed_schema

-- The index that a marker names: 0 is none, and any other number one more than the column.
unfoldable pub open_index : ℕ → Text → Option Pages → Result (Option Index)
open_index zero path index_file = ok none
open_index (suc column) path index_file = do
  tree ← BTree.open_tree (index_path path) index_file
  ok (some (record { column = column; tree = tree }))

unfoldable pub open_file : Option Pages → Result Pages
open_file none = err (io not_found)
open_file (some file) = ok file

-- `Table::open`, with the file at the path and the one at the index's path.
unfoldable pub open_table : Text → Option Pages → Option Pages → Result Table
open_table path file index_file = do
  file ← open_file file
  meta ← BTree.read_page file 0
  if text_at meta 0 magic
      then (if from_le (slice meta 8 4) == format_version
          then (do
            s ← read_schema meta
            index ← open_index (from_le (slice meta index_col_offset 4)) path index_file
            ok (record { file = file; schema = s; path = path; index = index }))
          else err (unsupported_version (from_le (slice meta 8 4))))
      else err (not_a_skipper_db path)

-- The file's length in pages, cut to a u32.
unfoldable pub page_count : Table → ℕ
page_count t = length t.file % 4294967296

unfoldable pub read_page : Table → ℕ → Result SlottedPage
read_page t page = do bs ← BTree.read_page t.file page; ok (Page.from_bytes bs)

unfoldable pub write_page : Table → ℕ → SlottedPage → Table
write_page t page slotted = record {
  file = BTree.write_page t.file page (Page.as_bytes slotted);
  schema = t.schema;
  path = t.path;
  index = t.index;
}

abbrev pub rid_of : ℕ → ℕ → Rid
rid_of page slot = record { page = page; slot = slot }

-- The record in a new page behind the last one.
unfoldable pub insert_in_new : Table → Bytes → Result (Table × Rid)
insert_in_new t rec = do
  let page_id = max (page_count t) 1
  fresh ← Page.new
  (page, slot) ← Page.insert fresh rec
  elim slot [
    | none ↦ err record_too_large
    | some i ↦ ok (write_page t page_id page, rid_of page_id i)
  ]

unfoldable pub insert_record : Table → Bytes → Result (Table × Rid)
insert_record t rec =
    if ltb 1 (page_count t)
    then (do
      let last = page_count t - 1
      p ← read_page t last
      (page, slot) ← Page.insert p rec
      elim slot [
        | none ↦ insert_in_new t rec
        | some i ↦ ok (write_page t last page, rid_of last i)
      ])
    else insert_in_new t rec

-- `rid.page == 0 || rid.page >= self.page_count()?`
unfoldable pub out_of_file : Table → Rid → Bool
out_of_file t rid = rid.page == 0 || leb (page_count t) rid.page

unfoldable pub decode_found : Schema → Option Bytes → Result (Option (List Value))
decode_found s none = ok none
decode_found s (some bytes) = do row ← decode s bytes; ok (some row)

unfoldable pub get : Table → Rid → Result (Option (List Value))
get t rid =
    if out_of_file t rid
    then ok none
    else do page ← read_page t rid.page; found ← Page.get page rid.slot; decode_found t.schema found

unfoldable pub update : Table → Rid → List Value → Result (Table × Bool)
update t rid values = do
  rec ← encode t.schema values
  if out_of_file t rid then ok (t, false) else do
    page ← read_page t rid.page
    found ← Page.get page rid.slot
    elim found [
      | none ↦ ok (t, false)
      | some old ↦ (do
        (page', fits) ← Page.update page rid.slot rec
        if fits then ok (write_page t rid.page page', true) else err record_too_large)
    ]

unfoldable pub delete : Table → Rid → Result (Table × Bool)
delete t rid = if out_of_file t rid then ok (t, false) else do
  page ← read_page t rid.page
  (page', deleted) ← Page.delete page rid.slot
  if deleted then ok (write_page t rid.page page', true) else ok (t, false)
