-- ===== src/Cli/Creates.antt =====
-- src/cli/mod.rs: the command `query` with a CREATE TABLE.
use skipper_db.Base.{
  ℕ, ◌+◌, ◌<◌, ◌≤◌, ◌≡◌, ◌⊎◌, refl, Bool, List, [], ◌∷◌, ◌++◌, none, some, inl, inr, map, length,
  length-map, arith, All,
}
use skipper_db.Base.Utf8.{Text, ascii}
use skipper_db.Errors.{ok}
use skipper_db.Catalog.Schema.{IsColumn, serialize}
use skipper_db.Storage.Page.{page_size}
use skipper_db.Storage.Table.{schema_offset}
use skipper_db.Parser.Lexer.{lexed, tokenize}
use skipper_db.Parser.Ast.{ColumnDef}
use skipper_db.Parser.State.{Parser}
use skipper_db.Parser.Descent.Spelled.{Spelled, create_kinds, parse-create_kinds}
use skipper_db.Query.Planner.{quoted, plan, refuse}
use skipper_db.Query.Planner.Create.{Distinct, column_names, plan_create_table_lem}
use skipper_db.Query.Physical.{from_logical}
use skipper_db.Query.Directory.{Files, table_path, dir_catalog, read_table, to_column, QueryResult}
use skipper_db.Query.Directory.Statements.{schema_of, created_lem, Holds-read_table}
use skipper_db.Cli.{answered, not_planned, logical, query_command}

-- The command query, at a text whose tokens write a CREATE TABLE whose columns fit page 0, in a
-- directory with no file for the table, with any fuel: if the columns have different names the table is
-- created, with these columns and no row; if not, the text is refused as having a duplicate column.
-- (There are fewer than 65536 columns.)
pub query_command-create_kinds :
    (fuel : ℕ) (sql : Text) (p : Parser) (files : Files) (dir table : Text) (c : ColumnDef)
    (cs : List ColumnDef) (semicolon : Bool)
    → tokenize sql ≡ lexed p
    → Spelled (create_kinds table c cs semicolon) p
    → files (table_path dir table) ≡ none
    → All IsColumn (map to_column (c ∷ cs))
    → length (c ∷ cs) < 65536
    → schema_offset + length (serialize (schema_of (c ∷ cs))) ≤ page_size
    → (Distinct (column_names (c ∷ cs))
        × ((files' : Files) × (query_command fuel sql files dir
              ≡ answered (files', QueryResult.created table))
            × (read_table files' dir table ≡ ok [])
            × (dir_catalog files' dir table ≡ some (schema_of (c ∷ cs)))))
      ⊎ ((¬ Distinct (column_names (c ∷ cs)))
          × ((name : Text) × (query_command fuel sql files dir
                ≡ not_planned (record { message = ascii "duplicate column " ++ quoted name }))))
unfolding query_command logical plan from_logical refuse
query_command-create_kinds fuel sql p files dir table c cs semicolon lexes spelled absent typed few
      fits =
    let (q, parses) = parse-create_kinds sql p table c cs semicolon lexes spelled in
    let count = length-map (c ∷ cs) to_column in
    elim (plan_create_table_lem (record { table = table; columns = c ∷ cs })) [
      | inl (plans, distinct) ↦
          (let (files', runs, holds) =
              created_lem files dir table (c ∷ cs) fuel absent typed (omega (arith, count))
                (omega (arith, count)) fits in
            let (reads, schema) =
              Holds-read_table files files' dir table (schema_of (c ∷ cs)) [] 1 holds in
            inl (distinct, (files', rw (parses, plans, runs) refl, reads, schema)))
      | inr (name, plans, same) ↦ inr (same, (name, rw (parses, plans) refl))
    ]
