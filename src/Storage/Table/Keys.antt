-- ===== src/Storage/Table/Keys.antt =====
-- src/storage/table.rs: the parts of the index methods that run no loop of the tree.
use skipper_db.Base.{ℕ, ◌+◌, ◌%◌, List, [], ◌∷◌, Option, none, some, ltb, if◌then◌else◌}
use skipper_db.Base.Int.{ℤ}
use skipper_db.Base.Utf8.{Text}
use skipper_db.Base.Words.{to_le}
use skipper_db.Errors.{Result, ok, err, check, ◌>>=◌, ◌>>◌, unknown_column, unsupported_key_type}
use skipper_db.Types.{Value, ColumnType, column_type_eq}
use skipper_db.Catalog.Schema.{Schema, column_index}
use skipper_db.Storage.BTree
use skipper_db.Storage.BTree.Nodes.{Rid, put}
use skipper_db.Storage.BTree.Insert.{at_index, key_eq}
use skipper_db.Storage.Table.{Table, index_col_offset}
use skipper_db.Storage.Table.Scan.{Item}

-- The keys of the rows with an INT in the column.
unfoldable pub key_entries : ℕ → List Item → Result (List (ℤ × Rid))
key_entries col [] = ok []
key_entries col ((rid, row) ∷ is) = do
  v ← at_index row col
  rest ← key_entries col is
  elim v [ Value.int key ↦ ok ((key, rid) ∷ rest) | Value.text s ↦ ok rest | Value.null ↦ ok rest ]

-- `column as u32 + 1`, at its place in page 0.
unfoldable pub write_index_marker : Table → ℕ → Result Table
write_index_marker t column = do
  meta ← BTree.read_page t.file 0
  check (ltb (column % 4294967296 + 1) 4294967296)
  meta' ← put meta index_col_offset (to_le 4 (column % 4294967296 + 1))
  ok (record {
    file = BTree.write_page t.file 0 meta';
    schema = t.schema;
    path = t.path;
    index = t.index;
  })

-- A column that is there may have an index if its values are INT.
unfoldable pub int_column : Schema → ℕ → Result ℕ
int_column s col = do
  c ← at_index s.columns col
  if column_type_eq c.ty ColumnType.int then ok col else err unsupported_key_type

unfoldable pub key_column : Schema → Text → Result ℕ
key_column s column = elim (column_index s column) [
  | none ↦ err (unknown_column column)
  | some col ↦ int_column s col
]

-- The row, if the value in the index's column is the key.
unfoldable pub key_match : ℤ → Rid → List Value → Value → Option Item
key_match key rid row (Value.int k) = if key_eq k key then some (rid, row) else none
key_match key rid row (Value.text s) = none
key_match key rid row Value.null = none

-- The row that `get` found, if it has the key in the column.
unfoldable pub row_with_key : ℕ → ℤ → Rid → Option (List Value) → Result (Option Item)
row_with_key column key rid none = ok none
row_with_key column key rid (some row) = do v ← at_index row column; ok (key_match key rid row v)
