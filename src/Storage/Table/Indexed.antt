-- ===== src/Storage/Table/Indexed.antt =====
-- src/storage/table.rs: the methods that use the index. Fuel is spent by the levels of the tree and by
-- the rounds of a scan.
use skipper_db.Base.{ℕ, List, [], ◌∷◌, Option, none, some}
use skipper_db.Base.Int.{ℤ}
use skipper_db.Base.Utf8.{Text}
use skipper_db.Errors.{ok, err, no_index}
use skipper_db.Fuel.{Run, done, ◌>>=◌}
use skipper_db.Types.{Value}
use skipper_db.Storage.Record.{encode}
use skipper_db.Storage.BTree
use skipper_db.Storage.BTree.{BTree, Pages}
use skipper_db.Storage.BTree.Nodes.{Rid}
use skipper_db.Storage.BTree.Insert
use skipper_db.Storage.BTree.Insert.{at_index, key_eq}
use skipper_db.Storage.Table.{Table, Index, insert_record, get}
use skipper_db.Storage.Table.Scan.{Item, scan}
use skipper_db.Storage.Table.Scan.Loop.{collect}
use skipper_db.Storage.Table.Keys.{key_entries, write_index_marker, key_column, row_with_key}

abbrev pub with_index : Table → Option Index → Table
with_index t index = record { file = t.file; schema = t.schema; path = t.path; index = index }

-- The entry for a row with this value in the index's column, if it is an INT.
unfoldable pub index_value : ℕ → Table → Rid → Index → Value → Run Table
index_value fuel t rid index (Value.int key) = do
  tree ← Insert.insert fuel index.tree key rid
  done (ok (with_index t (some (record { column = index.column; tree = tree }))))
index_value fuel t rid index (Value.text s) = done (ok t)
index_value fuel t rid index Value.null = done (ok t)

-- The entry for a new row, if there is an index.
unfoldable pub index_row : ℕ → Table → List Value → Rid → Option Index → Run Table
index_row fuel t values rid none = done (ok t)
index_row fuel t values rid (some index) = do
  v ← done (at_index values index.column)
  index_value fuel t rid index v

-- `Table::insert`
unfoldable pub insert : ℕ → Table → List Value → Run (Table × Rid)
insert fuel t values = do
  rec ← done (encode t.schema values)
  (t₁, rid) ← done (insert_record t rec)
  t₂ ← index_row fuel t₁ values rid t₁.index
  done (ok (t₂, rid))

unfoldable pub insert_entries : ℕ → BTree → List (ℤ × Rid) → Run BTree
insert_entries fuel tree [] = done (ok tree)
insert_entries fuel tree ((key, rid) ∷ es) = do
  tree' ← Insert.insert fuel tree key rid
  insert_entries fuel tree' es

-- `create_index`, with what is at the index's path.
unfoldable pub create_index : ℕ → Table → Text → Option Pages → Run Table
create_index fuel t column index_file = do
  col ← done (key_column t.schema column)
  rows ← collect fuel t scan
  entries ← done (key_entries col rows)
  tree ← done (BTree.create index_file)
  tree' ← insert_entries fuel tree entries
  t' ← done (write_index_marker t col)
  done (ok (with_index t' (some (record { column = col; tree = tree' }))))

-- The row behind an entry of the index. A stale entry shows no row.
unfoldable pub find_row : Table → ℕ → ℤ → Option Rid → Run (Option Item)
find_row t column key none = done (ok none)
find_row t column key (some rid) = do row ← done (get t rid); done (row_with_key column key rid row)

unfoldable pub find_in : ℕ → Table → ℤ → Option Index → Run (Option Item)
find_in fuel t key none = done (err no_index)
find_in fuel t key (some index) = do
  found ← Insert.find fuel index.tree key
  find_row t index.column key found

unfoldable pub find_by_key : ℕ → Table → ℤ → Run (Option Item)
find_by_key fuel t key = find_in fuel t key t.index
