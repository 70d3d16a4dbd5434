-- ===== src/Parser/Descent/Statements.antt =====
-- src/parser/mod.rs: the statements, and `parse`.
use skipper_db.Base.{ℕ, suc, Bool, true, false, List, Option, some, none, if◌then◌else◌, length}
use skipper_db.Base.Int.{ℤ}
use skipper_db.Base.Utf8.{Text, ascii, eq_ignore_ascii_case}
use skipper_db.Parser.Lexer.{TokenKind, Token, Lexed, lexed, failed, tokenize}
use skipper_db.Parser.Lexer
use skipper_db.Parser.Ast.{
  DataType, ColumnDef, Literal, CreateTable, Insert, SelectItem, Projection, OrderBy, Select,
  Statement,
}
use skipper_db.Parser.State.{
  Parsed, parsed, refused, out_of_fuel, ◌>>=◌, error, current, advance, peek_keyword, eat_keyword,
  expect_keyword, eat, expect, expect_ident, parse_name,
}
use skipper_db.Parser.Descent.{Method, comma_list, parse_expr}

-- A part that a keyword or a token announced, or none.
unfoldable pub optional : {A : Type 0} → Bool → Method A → Method (Option A)
optional true part p = do (x, p₁) ← part p; parsed (some x) p₁
optional false part p = parsed none p

unfoldable pub parse_select_item : ℕ → Method SelectItem
parse_select_item n p = do
  (expr, p₁) ← parse_expr n p
  (found, p₂) ← eat_keyword (ascii "AS") p₁
  (alias, p₃) ← optional found (expect_ident (ascii "alias")) p₂
  parsed (record { expr = expr; alias = alias }) p₃

unfoldable pub projection_of : ℕ → Bool → Method Projection
projection_of n true p = parsed Projection.all p
projection_of n false p = do
  (items, p₁) ← comma_list n (parse_select_item n) p
  parsed (Projection.items items) p₁

unfoldable pub parse_projection : ℕ → Method Projection
parse_projection n p = do (all, p₁) ← eat TokenKind.star p; projection_of n all p₁

-- `ASC` is taken and changes nothing.
unfoldable pub order_direction : Bool → Method Bool
order_direction true p = parsed true p
order_direction false p = do (_, p₁) ← eat_keyword (ascii "ASC") p; parsed false p₁

unfoldable pub parse_order_by : Method OrderBy
parse_order_by p = do
  (_, p₁) ← expect_keyword (ascii "BY") p
  (column, p₂) ← parse_name (ascii "column name") p₁
  (desc, p₃) ← eat_keyword (ascii "DESC") p₂
  (descending, p₄) ← order_direction desc p₃
  parsed (record { column = column; descending = descending }) p₄

-- `TokenKind::Int(n)`
unfoldable pub int_value : TokenKind → Option ℤ
int_value (TokenKind.int n) = some n
int_value _ = none

unfoldable pub limit_of : Option ℤ → Method ℤ
limit_of (some n) p = parsed n (advance p)
limit_of none p = error (ascii "expected a number after LIMIT") p

unfoldable pub parse_limit : Method ℤ
parse_limit p = do (kind, _) ← current p; limit_of (int_value kind) p

unfoldable pub parse_select : ℕ → Method Select
parse_select n p = do
  (_, p₁) ← expect_keyword (ascii "SELECT") p
  (projection, p₂) ← parse_projection n p₁
  (_, p₃) ← expect_keyword (ascii "FROM") p₂
  (from, p₄) ← parse_name (ascii "table name") p₃
  (filtered, p₅) ← eat_keyword (ascii "WHERE") p₄
  (filter, p₆) ← optional filtered (parse_expr n) p₅
  (ordered, p₇) ← eat_keyword (ascii "ORDER") p₆
  (order_by, p₈) ← optional ordered parse_order_by p₇
  (limited, p₉) ← eat_keyword (ascii "LIMIT") p₈
  (limit, q) ← optional limited parse_limit p₉
  parsed
      (record {
        projection = projection;
        from = from;
        filter = filter;
        order_by = order_by;
        limit = limit;
      })
      q

-- The type's name: `INT`, else `TEXT`.
unfoldable pub text_type : Bool → Method DataType
text_type true p = parsed DataType.text p
text_type false p = error (ascii "expected a column type (INT or TEXT)") p

unfoldable pub int_type : Bool → Method DataType
int_type true p = parsed DataType.int p
int_type false p = do (found, p₁) ← eat_keyword (ascii "TEXT") p; text_type found p₁

unfoldable pub parse_data_type : Method DataType
parse_data_type p = do (found, p₁) ← eat_keyword (ascii "INT") p; int_type found p₁

-- `NOT NULL`, or `NULL`, which changes nothing.
unfoldable pub nullable_of : Bool → Method Bool
nullable_of true p = do (_, p₁) ← expect_keyword (ascii "NULL") p; parsed false p₁
nullable_of false p = do (_, p₁) ← eat_keyword (ascii "NULL") p; parsed true p₁

unfoldable pub parse_column_def : Method ColumnDef
parse_column_def p = do
  (name, p₁) ← expect_ident (ascii "column name") p
  (ty, p₂) ← parse_data_type p₁
  (found, p₃) ← eat_keyword (ascii "NOT") p₂
  (nullable, p₄) ← nullable_of found p₃
  parsed (record { name = name; ty = ty; nullable = nullable }) p₄

unfoldable pub parse_create_table : ℕ → Method CreateTable
parse_create_table n p = do
  (_, p₁) ← expect_keyword (ascii "CREATE") p
  (_, p₂) ← expect_keyword (ascii "TABLE") p₁
  (table, p₃) ← expect_ident (ascii "table name") p₂
  (_, p₄) ← expect TokenKind.l_paren (ascii "'(' after table name") p₃
  (columns, p₅) ← comma_list n parse_column_def p₄
  (_, p₆) ← expect TokenKind.r_paren (ascii "',' or ')' in column list") p₅
  parsed (record { table = table; columns = columns }) p₆

unfoldable pub no_value : Method Literal
no_value p = error (ascii "expected a value (number, string, or NULL)") p

unfoldable pub literal_of : TokenKind → Method Literal
literal_of (TokenKind.int n) p = parsed (Literal.int n) (advance p)
literal_of (TokenKind.str s) p = parsed (Literal.str s) (advance p)
literal_of (TokenKind.ident s) p =
    if eq_ignore_ascii_case s (ascii "NULL") then parsed Literal.null (advance p) else no_value p
literal_of _ p = no_value p

unfoldable pub parse_literal : Method Literal
parse_literal p = do (kind, _) ← current p; literal_of kind p

-- The names of the columns, behind the parenthesis.
unfoldable pub parse_names : ℕ → Method (List Text)
parse_names n p = do
  (names, p₁) ← comma_list n (expect_ident (ascii "column name")) p
  (_, p₂) ← expect TokenKind.r_paren (ascii "')' after column list") p₁
  parsed names p₂

unfoldable pub parse_insert : ℕ → Method Insert
parse_insert n p = do
  (_, p₁) ← expect_keyword (ascii "INSERT") p
  (_, p₂) ← expect_keyword (ascii "INTO") p₁
  (table, p₃) ← expect_ident (ascii "table name") p₂
  (listed, p₄) ← eat TokenKind.l_paren p₃
  (columns, p₅) ← optional listed (parse_names n) p₄
  (_, p₆) ← expect_keyword (ascii "VALUES") p₅
  (_, p₇) ← expect TokenKind.l_paren (ascii "'(' before value list") p₆
  (values, p₈) ← comma_list n parse_literal p₇
  (_, p₉) ← expect TokenKind.r_paren (ascii "')' after value list") p₈
  parsed (record { table = table; columns = columns; values = values }) p₉

-- The statement that the first keyword announces.
unfoldable pub select_statement : ℕ → Bool → Method Statement
select_statement n true p = do (s, p₁) ← parse_select n p; parsed (Statement.select s) p₁
select_statement n false p = error (ascii "expected CREATE, INSERT, or SELECT") p

unfoldable pub insert_statement : ℕ → Bool → Method Statement
insert_statement n true p = do (s, p₁) ← parse_insert n p; parsed (Statement.insert s) p₁
insert_statement n false p = do
  (found, _) ← peek_keyword (ascii "SELECT") p
  select_statement n found p

unfoldable pub create_statement : ℕ → Bool → Method Statement
create_statement n true p = do
  (s, p₁) ← parse_create_table n p
  parsed (Statement.create_table s) p₁
create_statement n false p = do
  (found, _) ← peek_keyword (ascii "INSERT") p
  insert_statement n found p

unfoldable pub parse_statement : ℕ → Method Statement
parse_statement n p = do (found, _) ← peek_keyword (ascii "CREATE") p; create_statement n found p

unfoldable pub end_of : TokenKind → Method (Unit {0})
end_of TokenKind.eof p = parsed tt p
end_of _ p = error (ascii "expected end of statement") p

unfoldable pub expect_end : Method (Unit {0})
expect_end p = do (_, p₁) ← eat TokenKind.semicolon p; (kind, _) ← current p₁; end_of kind p₁

unfoldable pub parse_tokens : ℕ → Method Statement
parse_tokens n p = do
  (statement, p₁) ← parse_statement n p
  (_, p₂) ← expect_end p₁
  parsed statement p₂

-- What the parser makes of the lexer's result. Each loop takes a token in every round, and so does
-- each level of nesting.
unfoldable pub parse_lexed : Lexed (List Token) → Parsed Statement
parse_lexed (lexed ts) = parse_tokens (suc (length ts)) ts
parse_lexed (failed e) = refused e
parse_lexed Lexer.out_of_fuel = out_of_fuel

unfoldable pub parse : Text → Parsed Statement
parse input = parse_lexed (tokenize input)
