-- ===== src/Query/Directory/Tests.antt =====
-- A directory that is empty at first, and the statements at it.
use skipper_db.Base.{
  ◌+◌, ◌<◌, ◌≤◌, ◌≡◌, ◌≢◌, refl, true, false, List, [], ◌∷◌, ◌++◌, map, none, some, length, arith,
  All,
}
use skipper_db.Base.Int.{pos, i64_to_le}
use skipper_db.Base.Utf8.{Text, Bytes, ascii, is_utf8}
use skipper_db.Errors.{ok}
use skipper_db.Fuel.{done}
use skipper_db.Catalog.Schema.{IsColumn, serialize, push_columns, column_bytes}
use skipper_db.Parser.Ast.{ColumnDef, DataType, Literal}
use skipper_db.Storage.Page.{page_size}
use skipper_db.Storage.Record.{IsRow, encode, encode_loop, encode_value}
use skipper_db.Storage.Table.{page_count, schema_offset}
use skipper_db.Query.Plan.{LogicalPlan}
use skipper_db.Query.Planner.{plan_select, planned}
use skipper_db.Query.Planner.Create.{Distinct, column_names}
use skipper_db.Query.Physical.{insert_exec, create_table_exec}
use skipper_db.Query.Eval.{to_value}
use skipper_db.Query.Select.Runs.{RunsTo}
use skipper_db.Query.Select.Star.{star}
use skipper_db.Query.Directory.{
  Files, table_path, dir_catalog, read_table, QueryResult, execute, to_column,
}
use skipper_db.Query.Directory.Statements.{
  IsInsertable, insert_all, rows_of_values, schema_of, created_lem, Holds, Holds-read_table,
  execute-insert,
}
use skipper_db.Query.Directory.Journey.{create_insert_select}

abbrev empty : Files
empty p = none

abbrev columns : List ColumnDef
columns =
    record { name = ascii "id"; ty = DataType.int; nullable = false }
    ∷ record { name = ascii "name"; ty = DataType.text; nullable = true }
    ∷ []

abbrev values : List Literal
values = Literal.int (pos 1) ∷ Literal.str (ascii "ann") ∷ []

columns-IsColumn : All IsColumn (map to_column columns)
unfolding to_column is_utf8
columns-IsColumn =
    (record { text = refl; short = omega arith }, (record { text = refl; short = omega arith }, tt))

columns_fit : schema_offset + length (serialize (schema_of columns)) ≤ page_size
unfolding to_column serialize push_columns column_bytes
columns_fit = omega arith

columns-Distinct : Distinct (column_names columns)
columns-Distinct = (((λ e. cc e), tt), (tt, tt))

abbrev value_bytes : Bytes
value_bytes = 0 ∷ 1 ∷ 0 ∷ 0 ∷ 0 ∷ 0 ∷ 0 ∷ 0 ∷ 0 ∷ 3 ∷ 0 ∷ 0 ∷ 0 ∷ (ascii "ann")

values-IsRow : IsRow (schema_of columns).columns (map to_value values)
unfolding to_column to_value is_utf8
values-IsRow = (refl, omega arith, (refl, (refl, omega arith), tt))

values_coded : encode (schema_of columns) (map to_value values) ≡ ok value_bytes
unfolding to_column to_value encode encode_loop encode_value i64_to_le
values_coded = refl

values-IsInsertable : IsInsertable (schema_of columns) (map to_value values)
values-IsInsertable = record {
  storable = record {
    typed = values-IsRow;
    bytes = value_bytes;
    coded = values_coded;
    live_bytes = omega arith;
  };
  fits = omega arith;
}

create_insert_select_example :
    (files₁ files₂ : Files) × (execute 0 empty (ascii "db") (create_table_exec (ascii "u") columns)
      ≡ done (ok (files₁, QueryResult.created (ascii "u"))))
    × (insert_all 0 files₁ (ascii "db") (ascii "u") (values ∷ values ∷ []) ≡ done (ok files₂))
    × ((node : LogicalPlan) × (plan_select (star (ascii "u")) (dir_catalog files₂ (ascii "db"))
          ≡ planned node)
        × RunsTo (read_table files₂ (ascii "db")) node (record {
          columns = column_names columns;
          rows = rows_of_values (values ∷ values ∷ []);
        }))
create_insert_select_example =
    create_insert_select 0 empty (ascii "db") (ascii "u") columns (values ∷ values ∷ []) refl
      columns-IsColumn (omega arith) (omega arith) columns_fit columns-Distinct
      (values-IsInsertable, (values-IsInsertable, tt)) (omega arith)

-- The directory after CREATE TABLE.
made :
    (files' : Files) × (execute 0 empty (ascii "db") (create_table_exec (ascii "u") columns)
      ≡ done (ok (files', QueryResult.created (ascii "u"))))
    × Holds empty files' (ascii "db") (ascii "u") (schema_of columns) [] 1
made =
    created_lem empty (ascii "db") (ascii "u") columns 0 refl columns-IsColumn (omega arith)
      (omega arith) columns_fit

made_room : page_count made.2.table + 1 < 4294967296
made_room = omega (arith, made.2.pages)

made_values : IsInsertable made.2.table.schema (map to_value values)
made_values = rw made.2.schema values-IsInsertable

execute-insert_example :
    (files' : Files) × (execute 0 made.0 (ascii "db") (insert_exec (ascii "u") values)
      ≡ done (ok (files', QueryResult.inserted)))
    × (read_table files' (ascii "db") (ascii "u") ≡ ok ([] ++ (map to_value values ∷ [])))
    × (dir_catalog files' (ascii "db") (ascii "u") ≡ some made.2.table.schema)
    × ((p : Text) → p ≢ table_path (ascii "db") (ascii "u") → files' p ≡ made.0 p)
execute-insert_example =
    execute-insert 0 made.0 (ascii "db") (ascii "u") made.2.table values [] made.2.stored
      made_values made_room
      (Holds-read_table empty made.0 (ascii "db") (ascii "u") (schema_of columns) [] 1 made.2).0
