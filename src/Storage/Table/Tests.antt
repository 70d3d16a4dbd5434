-- ===== src/Storage/Table/Tests.antt =====
-- The heap file at small inputs.
use skipper_db.Base.{
  ℕ, ◌+◌, ◌<◌, ◌≡◌, refl, ◌⊎◌, true, false, List, [], ◌∷◌, ◌++◌, none, some, arith, All, splice,
  replicate,
}
use mathlib.Core.List.{Memᴰ}
use skipper_db.Base.Int.{pos, negsuc, i64_to_le, i64_from_le, cmp_ℤ}
use skipper_db.Base.Utf8.{Bytes, Text, ascii, is_utf8, text_eq}
use skipper_db.Types.{ColumnType, Value}
use skipper_db.Errors.{map_ok, ok, err, record_too_large}
use skipper_db.Catalog.Schema.{
  Schema, IsColumn, serialize, push_columns, column_bytes, column_index, position,
}
use skipper_db.Storage.Header.{magic}
use skipper_db.Storage.Page.{page_size, header_size, slot_size}
use skipper_db.Storage.Record.{
  IsRow, encode, encode_loop, encode_value, decode, prefix, decode_loop, decode_value, decode_int,
  decode_text, utf8_text,
}
use skipper_db.Base.Bits.{set_bit, test_bit, has_bit}
use skipper_db.Fuel.{Run, done, ◌>>=◌}
use skipper_db.Storage.Page
use skipper_db.Storage.BTree
use skipper_db.Storage.BTree.Insert
use skipper_db.Storage.BTree.Insert.{at_index}
use skipper_db.Storage.Table.Indexed.{
  insert, index_row, create_index, find_by_key, find_in, find_row, insert_entries, with_index,
}
use skipper_db.Storage.Table.Keys.{
  row_with_key, key_match, key_column, int_column, key_entries, write_index_marker,
}
use skipper_db.Storage.Table.Edits.{Measures, HasRoom}
use skipper_db.Storage.Table.Scan.{Item, scan, round, visit, total_pages}
use skipper_db.Storage.Table.Scan.Loop.{next, collect}
use skipper_db.Storage.BTree.Nodes.{
  Rid, put, to_page, put_entries, put_keys, put_children, from_page, read_leaf, read_internal,
  read_entries, read_keys, read_children,
}
use skipper_db.Storage.Table.{
  Table, Index, decode_found, index_path, open_table, create_table, create_new, meta_page,
  page_count, get, update, delete, insert_record, insert_in_new, write_page, read_page, out_of_file,
}
use skipper_db.Storage.Table.Rows.{IsSound, IsStorable, FitsPage}
use skipper_db.Storage.Table.Rows.Edited.{Shows, insert-get, delete-get, update-get}
use skipper_db.Storage.Table.Rows.Listed.{Lists, Lists-all_rows, scan-get, scan-insert}
use skipper_db.Storage.Table.Listing.{all_rows, page_rows}
use skipper_db.Storage.Table.Keeps.{fresh-Keeps}
use skipper_db.Storage.Table.Found.{find_by_key-get}
use skipper_db.Storage.Table.History.{Reached, created, after, inserts}
use skipper_db.Storage.Table.History.Reaches.{Reached-IsIntact, Reached-get, Reached-open_table}

abbrev users : Schema
users = record {
  columns =
      record { name = ascii "id"; ty = ColumnType.int; nullable = false }
      ∷ record { name = ascii "name"; ty = ColumnType.text; nullable = true }
      ∷ [];
}

abbrev path : Text
path = ascii "db/users.tbl"

users-IsColumn : All IsColumn users.columns
unfolding is_utf8
users-IsColumn =
    (record { text = refl; short = omega arith }, (record { text = refl; short = omega arith }, tt))

abbrev ann : List Value
ann = Value.int (pos 1) ∷ Value.text (ascii "ann") ∷ []

ann-IsRow : IsRow users.columns ann
unfolding is_utf8
ann-IsRow = (refl, omega arith, (refl, (refl, omega arith), tt))

-- Page 0 of the table.
abbrev meta : Bytes
meta =
    magic
    ++ (1 ∷ 0 ∷ 0 ∷ 0 ∷ 0 ∷ 16 ∷ 0 ∷ 0 ∷ 16 ∷ 0 ∷ 0 ∷ 0 ∷ 0 ∷ 0 ∷ 0 ∷ 0 ∷ [])
    ++ (serialize users ++ replicate 4056 0)

abbrev table : Table
table = record { file = meta ∷ []; schema = users; path = path; index = none }

creates : create_table none path users ≡ ok table
unfolding create_table meta_page put create_new serialize push_columns column_bytes splice
creates = refl

table-Reached : Reached table
table-Reached = created path users users-IsColumn (omega arith) (omega arith) creates

table-IsSound : IsSound table
table-IsSound = (Reached-IsIntact table table-Reached).sound

abbrev ann_bytes : Bytes
ann_bytes = 0 ∷ 1 ∷ 0 ∷ 0 ∷ 0 ∷ 0 ∷ 0 ∷ 0 ∷ 0 ∷ 3 ∷ 0 ∷ 0 ∷ 0 ∷ (ascii "ann")

ann_coded : encode users ann ≡ ok ann_bytes
unfolding encode encode_loop encode_value i64_to_le
ann_coded = refl

ann-IsStorable : IsStorable users ann
ann-IsStorable = record {
  typed = ann-IsRow;
  bytes = ann_bytes;
  coded = ann_coded;
  live_bytes = omega arith;
}

ann-FitsPage : FitsPage ann-IsStorable.bytes
unfolding ann-IsStorable
ann-FitsPage = omega arith

one_page : page_count table + 1 < 4294967296
unfolding page_count
one_page = omega arith

abbrev rid : Rid
rid = record { page = 1; slot = 0 }

-- Two rows, of which the first is deleted and the second updated.
abbrev edited : Run (List Item)
edited = do
  (t₁, r₁) ← insert 0 table ann
  (t₂, r₂) ← insert 0 t₁ (Value.int (negsuc 1) ∷ Value.null ∷ [])
  (t₃, b₃) ← done (delete t₂ r₁)
  (t₄, b₄) ← done (update t₃ r₂ ann)
  collect 9 t₄ scan

edited_lem : edited ≡ done (ok ((record { page = 1; slot = 1 }, ann) ∷ []))
unfolding insert encode encode_loop encode_value i64_to_le insert_record insert_in_new page_count
    splice Page.new Page.set_slot_count Page.set_free_ptr Page.write_u16 Page.copy_into Page.zeroed
    Page.insert Page.free_space Page.free_ptr Page.read_u16 Page.u16_at Page.slot_dir_end
    Page.slot_count Page.set_slot write_page BTree.write_page Page.as_bytes read_page
    BTree.read_page Page.from_bytes index_row delete out_of_file Page.delete Page.slot update
    Page.get Page.update collect next round total_pages scan visit decode prefix decode_loop
    decode_value decode_int decode_text utf8_text is_utf8 i64_from_le set_bit test_bit has_bit
edited_lem = refl

insert-get_example :
    (t' : Table) × (rid : Rid) × (insert 0 table ann ≡ done (ok (t', rid)))
    × (get table rid ≡ ok none)
    × Shows table rid (some ann) t'
insert-get_example = insert-get table table-IsSound 0 ann ann-IsStorable ann-FitsPage refl one_page

-- The table with one row.
stored :
    (t' : Table) × (rid : Rid) × (insert 0 table ann ≡ done (ok (t', rid)))
    × (get table rid ≡ ok none)
    × Shows table rid (some ann) t'
stored = insert-get table table-IsSound 0 ann ann-IsStorable ann-FitsPage refl one_page

abbrev one_row : Table
one_row = stored.0

one_row-Reached : Reached one_row
one_row-Reached = after table-Reached (inserts 0 ann stored.1 ann-IsRow one_page stored.2)

one_row-IsSound : IsSound one_row
one_row-IsSound = (Reached-IsIntact one_row one_row-Reached).sound

Reached-get_example :
    (get one_row stored.1 ≡ ok none)
    ⊎ ((row : List Value) × (get one_row stored.1 ≡ ok (some row))
        × IsRow one_row.schema.columns row)
Reached-get_example = Reached-get one_row stored.1 one_row-Reached

Reached-open_table_example :
    ((one_row.index ≡ none) × (open_table one_row.path (some one_row.file) none ≡ ok one_row))
    ⊎ ((ix : Index) × (one_row.index ≡ some ix)
        × (open_table one_row.path (some one_row.file) none
            ≡ map_ok
                (λ tree. with_index one_row (some (record { column = ix.column; tree = tree })))
                (BTree.open_tree (index_path one_row.path) none)))
Reached-open_table_example = Reached-open_table one_row none one_row-Reached

delete-get_example :
    ((get one_row stored.1 ≡ ok none) × (delete one_row stored.1 ≡ ok (one_row, false)))
    ⊎ ((row : List Value) × (get one_row stored.1 ≡ ok (some row))
        × ((t' : Table) × (delete one_row stored.1 ≡ ok (t', true))
            × Shows one_row stored.1 none t'))
delete-get_example = delete-get one_row one_row-IsSound stored.1

one_row-IsStorable : IsStorable one_row.schema ann
one_row-IsStorable = rw stored.4.same_schema ann-IsStorable

update-get_example :
    ((get one_row stored.1 ≡ ok none) × (update one_row stored.1 ann ≡ ok (one_row, false)))
    ⊎ ((old : List Value) × (get one_row stored.1 ≡ ok (some old))
        × ((bytes : Bytes) × (free : ℕ) × Measures one_row stored.1 bytes free
            × ((HasRoom one_row-IsStorable.bytes bytes free
                  × ((t' : Table) × (update one_row stored.1 ann ≡ ok (t', true))
                      × Shows one_row stored.1 (some ann) t'))
                ⊎ ((¬ HasRoom one_row-IsStorable.bytes bytes free)
                    × (update one_row stored.1 ann ≡ err record_too_large)))))
update-get_example = update-get one_row one_row-IsSound stored.1 ann one_row-IsStorable

scan-get_example :
    (rows : List Item) × Lists one_row rows
    × ((rid : Rid) (row : List Value) → Memᴰ (rid, row) rows → get one_row rid ≡ ok (some row))
    × ((rid : Rid) (row : List Value) → get one_row rid ≡ ok (some row) → Memᴰ (rid, row) rows)
scan-get_example = scan-get one_row one_row-IsSound

no_rows : Lists table []
unfolding all_rows page_rows
no_rows = Lists-all_rows table [] [] (fresh-Keeps table meta refl) refl

scan-insert_example :
    (t' : Table) × (rid : Rid) × (insert 0 table ann ≡ done (ok (t', rid)))
    × Lists t' ([] ++ ((rid, ann) ∷ []))
scan-insert_example =
    scan-insert table table-IsSound 0 ann [] ann-IsStorable ann-FitsPage refl one_page no_rows

-- The table with one row and an index on its INT column.
abbrev built : Run Table
built = do (t, r) ← insert 0 table ann; create_index 9 t (ascii "id") none

abbrev table_of : Run Table → Table
table_of (done (ok t)) = t
table_of _ = table

finds : find_by_key 9 (table_of built) (pos 1) ≡ done (ok (some (rid, ann)))
unfolding find_by_key find_in find_row row_with_key key_match create_index key_column int_column
    key_entries insert_entries write_index_marker column_index position text_eq at_index
    BTree.create BTree.write_meta BTree.write_node BTree.read_node BTree.alloc_node BTree.set_root
    put to_page put_entries put_keys put_children from_page read_leaf read_internal read_entries
    read_keys read_children Insert.insert Insert.insert_into Insert.find Insert.find_from
    Insert.store_leaf Insert.store_internal Insert.partition_point Insert.binary_search
    Insert.child_index Insert.insert_at Insert.split_off cmp_ℤ insert encode encode_loop
    encode_value i64_to_le insert_record insert_in_new page_count splice Page.new
    Page.set_slot_count Page.set_free_ptr Page.write_u16 Page.copy_into Page.zeroed Page.insert
    Page.free_space Page.free_ptr Page.read_u16 Page.u16_at Page.slot_dir_end Page.slot_count
    Page.set_slot write_page BTree.write_page Page.as_bytes read_page BTree.read_page
    Page.from_bytes index_row out_of_file Page.slot Page.get get decode_found collect next round
    total_pages scan visit decode prefix decode_loop decode_value decode_int decode_text utf8_text
    is_utf8 i64_from_le set_bit test_bit has_bit serialize push_columns column_bytes
finds = refl

find_by_key-get_example :
    (ix : Index) × ((table_of built).index ≡ some ix)
    × (get (table_of built) rid ≡ ok (some ann))
    × (at_index ann ix.column ≡ ok (Value.int (pos 1)))
find_by_key-get_example = find_by_key-get 9 (table_of built) (pos 1) rid ann finds
