-- ===== src/Query/Directory/Journey.antt =====
-- CREATE TABLE, then INSERTs, then SELECT *: src/query/mod.rs, src/query/physical.rs and
-- src/query/exec.rs over the files of src/storage/table.rs.
use skipper_db.Base.{
  ℕ, ◌+◌, ◌<◌, ◌≤◌, ◌≡◌, refl, ap, sym, ◌∙◌, subst, List, [], ◌∷◌, map, none, length, length-map,
  arith, All,
}
use skipper_db.Base.Utf8.{Text}
use skipper_db.Errors.{ok}
use skipper_db.Fuel.{done}
use skipper_db.Catalog.Schema.{Schema, IsColumn, serialize}
use skipper_db.Parser.Ast.{ColumnDef, Literal}
use skipper_db.Storage.Page.{page_size}
use skipper_db.Storage.Table.{schema_offset}
use skipper_db.Storage.Record.RoundTrip.{IsRow-length}
use skipper_db.Query.Plan.{LogicalPlan}
use skipper_db.Query.Planner.{plan_select, planned}
use skipper_db.Query.Planner.Create.{Distinct, column_names}
use skipper_db.Query.Physical.{create_table_exec}
use skipper_db.Query.Eval.{to_value}
use skipper_db.Query.Select.{names}
use skipper_db.Query.Select.Runs.{RunsTo}
use skipper_db.Query.Select.Star.{star, select_star, IsFull}
use skipper_db.Query.Directory.{
  Files, table_path, dir_catalog, read_table, QueryResult, execute, to_column,
}
use skipper_db.Query.Directory.Statements.{
  IsInsertable, insert_all, rows_of_values, schema_of, created_lem, insert_all_lem,
  Holds-read_table,
}

names-schema_of : (cs : List ColumnDef) → map (λ c. c.name) (map to_column cs) ≡ column_names cs
unfolding to_column
names-schema_of [] = refl
names-schema_of (c ∷ cs) = ap (λ ns. c.name ∷ ns) (names-schema_of cs)

insertable-IsFull :
    (s : Schema) (rows : List (List Literal))
    → All (λ vs. IsInsertable s (map to_value vs)) rows
    → All (IsFull (names s)) (rows_of_values rows)
insertable-IsFull s [] h = tt
insertable-IsFull s (vs ∷ rows) h = (
  IsRow-length s.columns (map to_value vs) h.0.storable.typed
      ∙ sym (length-map s.columns (λ c. c.name)),
  insertable-IsFull s rows h.1,
)

-- In a directory with no file for a table, CREATE TABLE of columns with different names, which fit
-- page 0, and any INSERTs of rows that fit the schema and a page, fewer than 2 ^ 32 - 1 of them, return
-- without a panic; then SELECT * is planned and runs, without a panic and for all fuel from some number
-- on, to exactly the rows that were inserted, in their order, under the names of the columns. (There
-- is at least one column, and fewer than 65536.)
pub create_insert_select :
    (fuel : ℕ) (files : Files) (dir name : Text) (columns : List ColumnDef)
    (rows : List (List Literal))
    → files (table_path dir name) ≡ none
    → All IsColumn (map to_column columns)
    → 0 < length columns
    → length columns < 65536
    → schema_offset + length (serialize (schema_of columns)) ≤ page_size
    → Distinct (column_names columns)
    → All (λ vs. IsInsertable (schema_of columns) (map to_value vs)) rows
    → 1 + length rows < 4294967296
    → (files₁ files₂ : Files) × (execute fuel files dir (create_table_exec name columns)
        ≡ done (ok (files₁, QueryResult.created name)))
      × (insert_all fuel files₁ dir name rows ≡ done (ok files₂))
      × ((node : LogicalPlan) × (plan_select (star name) (dir_catalog files₂ dir) ≡ planned node)
          × RunsTo
              (read_table files₂ dir)
              node
              (record { columns = column_names columns; rows = rows_of_values rows }))
create_insert_select fuel files dir name columns rows absent cs some_columns few fits distinct can
      room =
    let s = schema_of columns in
    let count = length-map columns to_column in
    let (files₁, made, fresh) =
      created_lem files dir name columns fuel absent cs (omega (arith, count))
        (omega (arith, count)) fits in
    let (files₂, items, m, runs, shown, holds) =
      insert_all_lem fuel files dir name s rows files₁ [] 1 fresh room can in
    let (read, schema) = Holds-read_table files files₂ dir name s items m holds in
    let different : Distinct (names s) = rw (names-schema_of columns) distinct in
    let (node, is_planned, selected) =
      select_star name (dir_catalog files₂ dir) (read_table files₂ dir) s (rows_of_values rows)
        schema (read ∙ ap ok shown) different (insertable-IsFull s rows can) in
    (
      files₁,
      files₂,
      made,
      runs,
      (
        node,
        is_planned,
        subst
            (λ ns.
              RunsTo (read_table files₂ dir) node
                (record { columns = ns; rows = rows_of_values rows }))
            (names-schema_of columns) selected,
      ),
    )
