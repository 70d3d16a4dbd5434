-- ===== src/Parser/Descent/Tests.antt =====
-- The parser at small inputs.
use skipper_db.Base.{false, ◌≡◌, ◌⊎◌, ◌≤◌, refl, [], ◌∷◌, some, true, length}
use skipper_db.Base.Int.{pos, negsuc}
use skipper_db.Base.Utf8.{Text, ascii, eq_ignore_ascii_case}
use skipper_db.Parser.Lexer.{
  lexed, ParseError, TokenKind, tokenize, tokens, step, count_while, next_is, next_is_digit,
  two_or_one, parse_i64, digits_value, string_step, number_step, word_step,
}
use skipper_db.Parser.Ast.{
  ColumnDef, DataType, CompareOp, Literal, Statement, Projection, column, literal, function,
  compare, and, or, no_exprs, exprs,
}
use skipper_db.Parser.State.{
  Parser, parsed, refused, describe, error, expected, current, advance, ident_text, is_word,
  peek_keyword, eat_keyword, demand, expect_keyword, kind_eq, eat, expect, ident_of, expect_ident,
  any_keyword, is_reserved, name_of, parse_name,
}
use skipper_db.Parser.Descent.{
  more_items, comma_list, is_r_paren, args_of, name_or_call, no_expression, named, primary_word,
  primary_of, parse_primary, compare_op, take_op, eat_compare_op, compare_with, parse_compare,
  chain, parse_and, parse_or, parse_expr,
}
use skipper_db.Parser.Descent.Statements.{
  optional, parse_select_item, projection_of, parse_projection, order_direction, parse_order_by,
  int_value, limit_of, parse_limit, parse_select, select_statement, insert_statement,
  create_statement, parse_statement, end_of, expect_end, parse_tokens, parse_lexed, parse,
  text_type, int_type, parse_data_type, nullable_of, parse_column_def, parse_create_table,
}
use skipper_db.Parser.Descent.Ends.{parse_total}
use skipper_db.Parser.Descent.Spelled.{Spelled, done, next, create_kinds, parse-create_kinds}
use skipper_db.Parser.Descent.Inserts.{insert_kinds, parse-insert_kinds}

-- AND binds more than OR, and a name that is followed by a parenthesis is a function's.
parses_select :
    parse (
      ascii
        "select count(a) as n from t where a = 1 or b < 2 and c > NULL order by a desc limit 3;")
    ≡ parsed
        (Statement.select (record {
          projection = Projection.items (
              record {
                expr = function (ascii "count") (exprs (column (ascii "a")) no_exprs);
                alias = some (ascii "n");
              }
              ∷ []);
          from = ascii "t";
          filter = some (
              or (compare (column (ascii "a")) CompareOp.eq (literal (Literal.int (pos 1)))) (
                and
                  (compare (column (ascii "b")) CompareOp.lt (literal (Literal.int (pos 2))))
                  (compare (column (ascii "c")) CompareOp.gt (literal Literal.null))));
          order_by = some (record { column = ascii "a"; descending = true });
          limit = some (pos 3);
        }))
        (record { kind = TokenKind.eof; at = 86 } ∷ [])
unfolding eq_ignore_ascii_case tokenize tokens step count_while next_is next_is_digit two_or_one
    parse_i64 digits_value string_step number_step word_step error expected current advance
    ident_text is_word peek_keyword eat_keyword demand expect_keyword kind_eq eat expect ident_of
    expect_ident any_keyword is_reserved name_of parse_name more_items comma_list is_r_paren args_of
    name_or_call no_expression named primary_word primary_of parse_primary compare_op take_op
    eat_compare_op compare_with parse_compare chain parse_and parse_or parse_expr optional
    parse_select_item projection_of parse_projection order_direction parse_order_by int_value
    limit_of parse_limit parse_select select_statement insert_statement create_statement
    parse_statement end_of expect_end parse_tokens parse_lexed parse
parses_select = refl

-- A list of columns must close.
refuses_open_list :
    parse (ascii "create table t (a int, b text")
    ≡ refused (record {
      message = ascii "expected ',' or ')' in column list, found end of input";
      at = 29;
    })
unfolding eq_ignore_ascii_case tokenize tokens step count_while next_is next_is_digit two_or_one
    parse_i64 digits_value string_step number_step word_step error expected describe current advance
    ident_text is_word peek_keyword eat_keyword demand expect_keyword kind_eq eat expect ident_of
    expect_ident more_items comma_list create_statement parse_statement parse_tokens parse_lexed
    parse text_type int_type parse_data_type nullable_of parse_column_def parse_create_table
refuses_open_list = refl

parse_total_example :
    ((s : Statement) × (q : Parser) × (parse (ascii "SELECT (a FROM t") ≡ parsed s q))
    ⊎ ((e : ParseError) × (parse (ascii "SELECT (a FROM t") ≡ refused e)
        × (e.at ≤ length (ascii "SELECT (a FROM t")))
parse_total_example = parse_total (ascii "SELECT (a FROM t")

abbrev create_text : Text
create_text = ascii "CREATE TABLE t (a INT NOT NULL, b TEXT);"

abbrev column_a : ColumnDef
column_a = record { name = ascii "a"; ty = DataType.int; nullable = false }

abbrev column_b : ColumnDef
column_b = record { name = ascii "b"; ty = DataType.text; nullable = true }

create_tokens :
    (p : Parser) × (tokenize create_text ≡ lexed p)
    × Spelled (create_kinds (ascii "t") column_a (column_b ∷ []) true) p
unfolding tokenize tokens step count_while next_is next_is_digit two_or_one word_step
create_tokens = (
  _,
  refl,
  next _ (
      next _ (
        next _ (
          next _ (
            next _ (
              next _
                (next _ (next _ (next _ (next _ (next _ (next _ (next _ (next _ (done)))))))))))))),
)

parse-create_kinds_example :
    (q : Parser) × (parse create_text
      ≡ parsed
          (Statement.create_table
            (record { table = ascii "t"; columns = column_a ∷ column_b ∷ [] }))
          q)
parse-create_kinds_example =
    parse-create_kinds create_text create_tokens.0 (ascii "t") column_a (column_b ∷ []) true
      create_tokens.1 create_tokens.2

abbrev insert_text : Text
insert_text = ascii "INSERT INTO t (a, b) VALUES (-7, NULL)"

insert_tokens :
    (p : Parser) × (tokenize insert_text ≡ lexed p)
    × Spelled
        (insert_kinds
          (ascii "t")
          (some (ascii "a", ascii "b" ∷ []))
          (Literal.int (negsuc 6))
          (Literal.null ∷ [])
          false)
        p
unfolding tokenize tokens step count_while next_is next_is_digit two_or_one word_step parse_i64
    digits_value number_step
insert_tokens = (
  _,
  refl,
  next _ (
      next _ (
        next _ (
          next _ (
            next _ (
              next _ (
                next _ (
                  next _
                    (next _ (next _ (next _ (next _ (next _ (next _ (next _ (done))))))))))))))),
)

parse-insert_kinds_example :
    (q : Parser) × (parse insert_text
      ≡ parsed
          (Statement.insert (record {
            table = ascii "t";
            columns = some (ascii "a" ∷ ascii "b" ∷ []);
            values = Literal.int (negsuc 6) ∷ Literal.null ∷ [];
          }))
          q)
parse-insert_kinds_example =
    parse-insert_kinds insert_text insert_tokens.0 (ascii "t") (some (ascii "a", ascii "b" ∷ []))
      (Literal.int (negsuc 6)) (Literal.null ∷ []) false insert_tokens.1 insert_tokens.2
