-- ===== src/Query/Directory/Statements.antt =====
-- INSERT and CREATE TABLE of src/query/exec.rs on the files of a directory, and what is read afterwards.
use skipper_db.Base.{
  ℕ, ◌+◌, ◌<◌, ◌≤◌, ◌≡◌, ◌≢◌, refl, ap, sym, ◌∙◌, List, [], ◌∷◌, ◌++◌, map, append-nil, none, some,
  length, arith, All,
}
use skipper_db.Base.Utf8.{Text}
use skipper_db.Errors.{ok, ok_inj}
use skipper_db.Fuel.{Run, done, ◌>>=◌}
use skipper_db.Catalog.Schema.{Schema, IsColumn, serialize}
use skipper_db.Parser.Ast.{ColumnDef, Literal}
use skipper_db.Storage.Page.{page_size}
use skipper_db.Storage.Table.{Table, page_count, schema_offset}
use skipper_db.Storage.Table.Scan.{Item}
use skipper_db.Storage.Table.Stores.{IsPlaced-length}
use skipper_db.Storage.Table.Keeps.{Keeps-page_count, fresh-Keeps}
use skipper_db.Storage.Table.Listing.{all_rows, page_rows}
use skipper_db.Storage.Table.Rows.{IsStorable, FitsPage}
use skipper_db.Storage.Table.Rows.Edited.{storing, insert_runs}
use skipper_db.Storage.Table.Rows.Listed.{Lists, Lists-all_rows, listed, inserted-Lists}
use skipper_db.Storage.Table.Head.{create_table_lem}
use skipper_db.Storage.Table.History.{created, after, inserts}
use skipper_db.Storage.Table.History.Reaches.{Reached-IsIntact}
use skipper_db.Query.Physical.{insert_exec, create_table_exec}
use skipper_db.Query.Eval.{Row, to_value}
use skipper_db.Query.Directory.{
  Files, put_file, table_path, dir_catalog, read_table, save, save_index, QueryResult, execute,
  execute_insert, execute_create, to_column,
}
use skipper_db.Query.Directory.Tables.{
  IsStored, put_file_same, put_file_other, open_at_lem, dir_catalog_lem, read_table_lem,
}

-- A stored table with the rows that are read of it. Every other file is as in `files`.
pub record Holds (files files' : Files) (dir name : Text) (s : Schema) (items : List Item) (n : ℕ)
    : Type 0 where
  pub table : Table
  pub stored : IsStored files' dir name table
  pub lists : Lists table items
  pub schema : table.schema ≡ s
  pub pages : page_count table ≤ n
  pub others : (p : Text) → p ≢ table_path dir name → files' p ≡ files p

module _ (files : Files) (dir name : Text) (t : Table) (h : IsStored files dir name t) where
  inserted_lem :
      (fuel : ℕ) (row : Row) (items : List Item) (s : IsStorable t.schema row)
      → FitsPage s.bytes
      → page_count t + 1 < 4294967296
      → Lists t items
      → (files' : Files) × (new : Item) × (new.1 ≡ row)
        × (execute_insert fuel files dir name row ≡ done (ok (files', QueryResult.inserted)))
        × Holds files files' dir name t.schema (items ++ (new ∷ [])) (page_count t + 1)
  unfolding execute_insert save save_index
  inserted_lem fuel row items s fits room l =
      let sound = (Reached-IsIntact t h.reached).sound in
      let i = storing t sound row s fits room in
      let runs = insert_runs t sound fuel row s i h.plain in
      let at : i.table.path ≡ table_path dir name = i.same_path ∙ h.at in
      let plain : i.table.index ≡ none = i.same_index ∙ h.plain in
      let files' : Files = put_file files (table_path dir name) i.table.file in
      (
        files',
        (i.rid, row),
        refl,
        rw (open_at_lem files dir name t h, runs, plain, at) refl,
        record {
          table = i.table;
          stored = record {
            there = put_file_same files (table_path dir name) i.table.file;
            at = at;
            reached = after h.reached (inserts fuel row i.rid s.typed room runs);
            plain = plain;
          };
          lists = inserted-Lists t sound row items s fits room l;
          schema = i.same_schema;
          pages = omega (
            arith,
            Keeps-page_count t sound.stores sound.keeps,
            Keeps-page_count i.table i.stores i.keeps,
            IsPlaced-length s.bytes sound.stores i.stores i.rid i.placed,
          );
          others = λ p d. put_file_other files (table_path dir name) i.table.file p d;
        },
      )

-- A row that can be inserted into a table of the schema.
pub record IsInsertable (s : Schema) (row : Row) : Type 0 where
  pub storable : IsStorable s row
  pub fits : FitsPage storable.bytes

Holds-trans :
    (a b c : Files) (dir name : Text) (s s' : Schema) (xs ys : List Item) (n m : ℕ)
    → Holds a b dir name s xs n
    → s' ≡ s
    → Holds b c dir name s' ys m
    → Holds a c dir name s ys m
Holds-trans a b c dir name s s' xs ys n m h e k = record {
  table = k.table;
  stored = k.stored;
  lists = k.lists;
  schema = k.schema ∙ e;
  pages = k.pages;
  others = λ p d. k.others p d ∙ h.others p d;
}

items_row :
    (items : List Item) (new : Item) (row : Row) (rows : List Row)
    → new.1 ≡ row
    → map (λ i. i.1) (items ++ (new ∷ [])) ++ rows ≡ map (λ i. i.1) items ++ (row ∷ rows)
items_row [] new row rows e = ap (λ r. r ∷ rows) e
items_row (x ∷ items) new row rows e = ap (λ rs. x.1 ∷ rs) (items_row items new row rows e)

-- One INSERT after another.
unfoldable pub insert_all : ℕ → Files → Text → Text → List (List Literal) → Run Files
insert_all fuel files dir name [] = done (ok files)
insert_all fuel files dir name (values ∷ rows) = do
  (files', result) ← execute fuel files dir (insert_exec name values)
  insert_all fuel files' dir name rows

abbrev pub rows_of_values : List (List Literal) → List Row
rows_of_values rows = map (λ vs. map to_value vs) rows

module _ (fuel : ℕ) (files : Files) (dir name : Text) (s : Schema) where
  -- The rows, inserted one after another behind those that are there.
  pub insert_all_lem :
      (rows : List (List Literal)) (now : Files) (items : List Item) (n : ℕ)
      → Holds files now dir name s items n
      → n + length rows < 4294967296
      → All (λ vs. IsInsertable s (map to_value vs)) rows
      → (files' : Files) × (items' : List Item) × (m : ℕ) × (insert_all fuel now dir name rows
          ≡ done (ok files'))
        × (map (λ i. i.1) items' ≡ map (λ i. i.1) items ++ rows_of_values rows)
        × Holds files files' dir name s items' m
  unfolding insert_all execute
  insert_all_lem [] now items n h room can =
      (now, items, n, refl, sym (append-nil (map (λ i. i.1) items)), h)
  insert_all_lem (values ∷ rows) now items n h room can =
      let k : IsInsertable h.table.schema (map to_value values) = rw h.schema can.0 in
      let (next, new, same, runs, holds) =
        inserted_lem now dir name h.table h.stored fuel (map to_value values) items k.storable
          k.fits (omega (arith, h.pages)) h.lists in
      let holds' =
        Holds-trans files now next dir name s h.table.schema items (items ++ (new ∷ [])) n
          (page_count h.table + 1) h h.schema holds in
      let (files', items', m, runs', listed', last) =
        insert_all_lem rows next (items ++ (new ∷ [])) (page_count h.table + 1) holds'
          (omega (arith, h.pages)) can.1 in
      (
        files',
        items',
        m,
        rw (runs, runs') refl,
        listed' ∙ items_row items new (map to_value values) (rows_of_values rows) same,
        last,
      )

-- The schema that CREATE TABLE makes.
abbrev pub schema_of : List ColumnDef → Schema
schema_of columns = record { columns = map to_column columns }

-- CREATE TABLE at a path with no file.
module _ (files : Files) (dir name : Text) (columns : List ColumnDef) where
  pub created_lem :
      (fuel : ℕ)
      → files (table_path dir name) ≡ none
      → All IsColumn (schema_of columns).columns
      → 0 < length (schema_of columns).columns
      → length (schema_of columns).columns < 65536
      → schema_offset + length (serialize (schema_of columns)) ≤ page_size
      → (files' : Files) × (execute fuel files dir (create_table_exec name columns)
          ≡ done (ok (files', QueryResult.created name)))
        × Holds files files' dir name (schema_of columns) [] 1
  unfolding execute execute_create save save_index all_rows page_rows
  created_lem fuel absent cs some_columns few fits =
      let path = table_path dir name in
      let (t, runs, headed, plain, at, schema, (meta, filed)) =
        create_table_lem path (schema_of columns) cs few fits in
      let reached = created path (schema_of columns) cs some_columns few runs in
      let k = fresh-Keeps t meta filed in
      let files' : Files = put_file files path t.file in
      (
        files',
        rw (absent, runs, plain, at) refl,
        record {
          table = t;
          stored = record {
            there = put_file_same files path t.file;
            at = at;
            reached = reached;
            plain = plain;
          };
          lists = Lists-all_rows t [] [] k refl;
          schema = schema;
          pages = omega (arith, Keeps-page_count t [] k);
          others = λ p d. put_file_other files path t.file p d;
        },
      )

-- The rows of a list of literals for each row, read of the table.
pub Holds-read_table :
    (files files' : Files) (dir name : Text) (s : Schema) (items : List Item) (n : ℕ)
    → Holds files files' dir name s items n
    → (read_table files' dir name ≡ ok (map (λ i. i.1) items))
      × (dir_catalog files' dir name ≡ some s)
Holds-read_table files files' dir name s items n h = (
  read_table_lem files' dir name h.table h.stored items h.lists,
  dir_catalog_lem files' dir name h.table h.stored ∙ ap some h.schema,
)

-- INSERT of a row that fits the schema and a page, into a stored table with room for one more page,
-- returns, with any fuel and without a panic. What is read of the table afterwards is what was read
-- before and then the row, the table has its schema, and every other file is as it was.
pub execute-insert :
    (fuel : ℕ) (files : Files) (dir name : Text) (t : Table) (values : List Literal)
    (rows : List Row)
    → IsStored files dir name t
    → IsInsertable t.schema (map to_value values)
    → page_count t + 1 < 4294967296
    → read_table files dir name ≡ ok rows
    → (files' : Files) × (execute fuel files dir (insert_exec name values)
        ≡ done (ok (files', QueryResult.inserted)))
      × (read_table files' dir name ≡ ok (rows ++ (map to_value values ∷ [])))
      × (dir_catalog files' dir name ≡ some t.schema)
      × ((p : Text) → p ≢ table_path dir name → files' p ≡ files p)
unfolding execute
execute-insert fuel files dir name t values rows h can room before =
    let sound = (Reached-IsIntact t h.reached).sound in
    let (items, e) = listed t sound in
    let l = Lists-all_rows t sound.stores items sound.keeps e in
    let shown : map (λ i. i.1) items ≡ rows =
      ok_inj (sym (read_table_lem files dir name t h items l) ∙ before) in
    let (files', new, same, runs, holds) =
      inserted_lem files dir name t h fuel (map to_value values) items can.storable can.fits room
        l in
    let (read, schema) = Holds-read_table files files' dir name t.schema _ _ holds in
    (
      files',
      runs,
      read
          ∙ ap ok (
              sym (append-nil (map (λ i. i.1) (items ++ (new ∷ []))))
              ∙ items_row items new (map to_value values) [] same
              ∙ ap (λ rs. rs ++ (map to_value values ∷ [])) shown),
      schema,
      holds.others,
    )
