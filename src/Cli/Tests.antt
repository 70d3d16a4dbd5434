-- ===== src/Cli/Tests.antt =====
-- The command query at a small text.
use skipper_db.Base.{
  ◌+◌, ◌≤◌, ◌≡◌, ◌⊎◌, refl, true, false, List, [], ◌∷◌, ◌++◌, none, some, map, length, arith, All,
}
use skipper_db.Base.Utf8.{Text, ascii, is_utf8}
use skipper_db.Errors.{ok}
use skipper_db.Catalog.Schema.{IsColumn, serialize, push_columns, column_bytes}
use skipper_db.Storage.Page.{page_size}
use skipper_db.Storage.Table.{schema_offset}
use skipper_db.Parser.Lexer.{
  lexed, tokenize, tokens, step, count_while, next_is, next_is_digit, two_or_one, word_step,
}
use skipper_db.Parser.Ast.{ColumnDef, DataType}
use skipper_db.Parser.State.{Parser}
use skipper_db.Parser.Descent.Spelled.{Spelled, done, next, create_kinds}
use skipper_db.Query.Planner.{quoted}
use skipper_db.Query.Planner.Create.{Distinct, column_names}
use skipper_db.Query.Directory.{Files, dir_catalog, read_table, to_column, QueryResult}
use skipper_db.Query.Directory.Statements.{schema_of}
use skipper_db.Cli.{answered, not_planned, query_command}
use skipper_db.Cli.Creates.{query_command-create_kinds}

abbrev empty : Files
empty p = none

abbrev sql : Text
sql = ascii "CREATE TABLE u (id INT NOT NULL, name TEXT)"

abbrev id_column : ColumnDef
id_column = record { name = ascii "id"; ty = DataType.int; nullable = false }

abbrev name_column : ColumnDef
name_column = record { name = ascii "name"; ty = DataType.text; nullable = true }

abbrev columns : List ColumnDef
columns = id_column ∷ name_column ∷ []

sql_tokens :
    (p : Parser) × (tokenize sql ≡ lexed p)
    × Spelled (create_kinds (ascii "u") id_column (name_column ∷ []) false) p
unfolding tokenize tokens step count_while next_is next_is_digit two_or_one word_step
sql_tokens = (
  _,
  refl,
  next _ (
      next _ (
        next _ (
          next _ (
            next _
              (next _ (next _ (next _ (next _ (next _ (next _ (next _ (next _ (done))))))))))))),
)

columns-IsColumn : All IsColumn (map to_column columns)
unfolding to_column is_utf8
columns-IsColumn =
    (record { text = refl; short = omega arith }, (record { text = refl; short = omega arith }, tt))

columns_fit : schema_offset + length (serialize (schema_of columns)) ≤ page_size
unfolding to_column serialize push_columns column_bytes
columns_fit = omega arith

query_command-create_kinds_example :
    (Distinct (column_names columns)
      × ((files' : Files) × (query_command 0 sql empty (ascii "db")
            ≡ answered (files', QueryResult.created (ascii "u")))
          × (read_table files' (ascii "db") (ascii "u") ≡ ok [])
          × (dir_catalog files' (ascii "db") (ascii "u") ≡ some (schema_of columns))))
    ⊎ ((¬ Distinct (column_names columns))
        × ((name : Text) × (query_command 0 sql empty (ascii "db")
              ≡ not_planned (record { message = ascii "duplicate column " ++ quoted name }))))
query_command-create_kinds_example =
    query_command-create_kinds 0 sql sql_tokens.0 empty (ascii "db") (ascii "u") id_column
      (name_column ∷ []) false sql_tokens.1 sql_tokens.2 refl columns-IsColumn (omega arith)
      columns_fit
