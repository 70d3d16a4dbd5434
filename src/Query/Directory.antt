-- ===== src/Query/Directory.antt =====
-- src/query/exec.rs and src/query/mod.rs: the files of a database directory, and the statements that
-- change them. A directory is what is at each path; that it exists itself is not modelled. A failing
-- statement returns no directory.
pub mod Tables
pub mod Statements
pub mod Journey
mod Tests
use skipper_db.Base.{ℕ, suc, ◌+◌, ◌*◌, List, map, Option, none, some, ◌++◌, if◌then◌else◌, length}
use skipper_db.Base.Utf8.{Text, ascii, text_eq}
use skipper_db.Errors.{Result, ok, err, panic}
use skipper_db.Fuel.{Run, done, out_of_fuel, ◌>>=◌}
use skipper_db.Types.{ColumnType}
use skipper_db.Catalog.Schema.{Column, Schema}
use skipper_db.Parser.Ast.{ColumnDef, DataType}
use skipper_db.Storage.BTree.{Pages}
use skipper_db.Storage.Table.{Table, Index, index_path, create_table, open_table}
use skipper_db.Storage.Table.Scan.{scan}
use skipper_db.Storage.Table.Scan.Loop.{collect}
use skipper_db.Storage.Table.Indexed.{insert}
use skipper_db.Query.Planner.{Catalog}
use skipper_db.Query.Physical.{
  PhysicalPlan, create_table_exec, insert_exec, table_scan_exec, filter_exec, projection_exec,
  sort_exec, limit_exec,
}
use skipper_db.Query.Eval.{Row, to_value}
use skipper_db.Query.Exec.{ResultSet, run_query}
use skipper_db.Query.Build.{build}

abbrev pub Files : Type 0
Files = Text → Option Pages

unfoldable pub put_file : Files → Text → Pages → Files
put_file files path file p = if text_eq p path then some file else files p

-- `dir.join(format!("{table}.tbl"))`, for a table's name that is not a path of its own.
unfoldable pub table_path : Text → Text → Text
table_path dir table = dir ++ (ascii "/" ++ (table ++ ascii ".tbl"))

-- `Table::open` of a table's file, and of its index's file if it has one.
unfoldable pub open_at : Files → Text → Result Table
open_at files path = open_table path (files path) (files (index_path path))

-- What `DirCatalog` finds of a table that is opened. `panic` is not reached.
unfoldable pub opened_schema : Result Table → Option Schema
opened_schema (ok t) = some t.schema
opened_schema (err e) = none
opened_schema panic = none

-- `DirCatalog::schema`
unfoldable pub dir_catalog : Files → Text → Catalog
dir_catalog files dir table = opened_schema (open_at files (table_path dir table))

-- A run that has fuel enough, as a result.
unfoldable pub settled {ℓ} : {A : Type ℓ} → Run A → Result A
settled (done r) = r
settled out_of_fuel = panic

-- More rounds than a scan takes: a page has less than 65536 slots.
unfoldable pub scan_fuel : Table → ℕ
scan_fuel t = suc (65537 * length t.file)

unfoldable pub scanned_rows : Table → Result (List Row)
scanned_rows t = settled (do items ← collect (scan_fuel t) t scan; done (ok (map (λ i. i.1) items)))

unfoldable pub rows_of_opened : Result Table → Result (List Row)
rows_of_opened (ok t) = scanned_rows t
rows_of_opened (err e) = err e
rows_of_opened panic = panic

unfoldable pub read_table : Files → Text → Text → Result (List Row)
read_table files dir table = rows_of_opened (open_at files (table_path dir table))

abbrev pub column_type : DataType → ColumnType
column_type DataType.int = ColumnType.int
column_type DataType.text = ColumnType.text

unfoldable pub to_column : ColumnDef → Column
to_column c = record { name = c.name; ty = column_type c.ty; nullable = c.nullable }

pub data QueryResult : Type 0 where
  select : ResultSet → QueryResult
  inserted : QueryResult
  created : Text → QueryResult

-- The files after a table and the tree of its index were written.
unfoldable pub save_index : Files → Text → Option Index → Files
save_index files path none = files
save_index files path (some index) = put_file files (index_path path) index.tree.file

unfoldable pub save : Files → Table → Files
save files t = save_index (put_file files t.path t.file) t.path t.index

unfoldable pub execute_create : Files → Text → Text → List ColumnDef → Run (Files × QueryResult)
execute_create files dir table columns = do
  let path = table_path dir table
  t ← done (create_table (files path) path (record { columns = map to_column columns }))
  done (ok (save files t, created table))

unfoldable pub execute_insert : ℕ → Files → Text → Text → Row → Run (Files × QueryResult)
execute_insert fuel files dir table row = do
  t ← done (open_at files (table_path dir table))
  (t', rid) ← insert fuel t row
  done (ok (save files t', inserted))

unfoldable pub execute_query : ℕ → Files → Text → PhysicalPlan → Run (Files × QueryResult)
execute_query fuel files dir query = do
  rs ← run_query fuel (build (read_table files dir) query)
  done (ok (files, select rs))

unfoldable pub execute : ℕ → Files → Text → PhysicalPlan → Run (Files × QueryResult)
execute fuel files dir (create_table_exec table columns) = execute_create files dir table columns
execute fuel files dir (insert_exec table values) =
    execute_insert fuel files dir table (map to_value values)
execute fuel files dir (table_scan_exec t cs) = execute_query fuel files dir (table_scan_exec t cs)
execute fuel files dir (filter_exec p input) = execute_query fuel files dir (filter_exec p input)
execute fuel files dir (projection_exec items input) =
    execute_query fuel files dir (projection_exec items input)
execute fuel files dir (sort_exec c desc input) =
    execute_query fuel files dir (sort_exec c desc input)
execute fuel files dir (limit_exec n input) = execute_query fuel files dir (limit_exec n input)
