-- ===== src/Storage/Table/History.antt =====
-- The tables that `create` and the methods of src/storage/table.rs reach.
pub mod Steps
pub mod Reaches
use skipper_db.Base.{
  ℕ, zero, suc, ◌+◌, ◌-◌, ◌<◌, ◌≤◌, ◌≡◌, refl, ap, sym, ◌∙◌, subst, ◌⊎◌, inl, inr, Bool, List, [],
  ◌∷◌, ◌++◌, Option, none, some, length, arith, le_or_lt, All,
}
use skipper_db.Base.Int.{ℤ}
use skipper_db.Base.Utf8.{Bytes, Text}
use skipper_db.Types.{Value}
use skipper_db.Errors.{Result, ok, err, ok_inj}
use skipper_db.Fuel.{Run, done}
use skipper_db.Catalog.Schema.{Schema, IsColumn}
use skipper_db.Storage.BTree.{Pages}
use skipper_db.Storage.BTree.Nodes.{Rid}
use skipper_db.Storage.Record.{IsRow}
use skipper_db.Storage.Table.{Table, create_table, page_count, get, delete, update}
use skipper_db.Storage.Table.Indexed.{insert, create_index}
use skipper_db.Storage.Table.Rows.{IsSound}
use skipper_db.Storage.Table.Head.{Headed}

-- One call that returned. The rows fit the schema, and the file has room for one more page.
pub data Step : Table → Table → Type 0 where
  inserts :
      {t t' : Table} (fuel : ℕ) (row : List Value) (rid : Rid)
      → IsRow t.schema.columns row
      → page_count t + 1 < 4294967296
      → insert fuel t row ≡ done (ok (t', rid))
      → Step t t'
  deletes : {t t' : Table} (rid : Rid) (b : Bool) → delete t rid ≡ ok (t', b) → Step t t'
  updates :
      {t t' : Table} (rid : Rid) (row : List Value) (b : Bool)
      → IsRow t.schema.columns row
      → update t rid row ≡ ok (t', b)
      → Step t t'
  indexes :
      {t t' : Table} (fuel : ℕ) (column : Text) (index_file : Option Pages)
      → create_index fuel t column index_file ≡ done (ok t')
      → Step t t'

-- A table that was created and then changed by calls that returned.
pub data Reached : Table → Type 0 where
  created :
      {t : Table} (path : Text) (s : Schema)
      → All IsColumn s.columns
      → 0 < length s.columns
      → length s.columns < 65536
      → create_table none path s ≡ ok t
      → Reached t
  after : {t t' : Table} → Reached t → Step t t' → Reached t'

-- The table's rows are sound, and page 0 has its schema and its index's column.
pub record IsIntact (t : Table) : Type 0 where
  pub sound : IsSound t
  pub headed : Headed t
  pub some_columns : 0 < length t.schema.columns
  pub few_columns : length t.schema.columns < 65536
