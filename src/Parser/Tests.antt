-- ===== src/Parser/Tests.antt =====
-- The lexer at small inputs.
use skipper_db.Base.{◌≡◌, refl, [], ◌∷◌, ◌⊎◌, List, length, ◌<◌}
use skipper_db.Base.Int.{negsuc}
use skipper_db.Base.Utf8.{ascii}
use skipper_db.Parser.Lexer.{
  Token, ParseError, lexed, failed, TokenKind, tokenize, tokens, step, count_while, next_is,
  next_is_digit, two_or_one, parse_i64, digits_value, string_step, number_step, word_step, error_at,
}
use skipper_db.Parser.Lexer.Total.{Placed, tokenize_total}

lexes_condition :
    tokenize (ascii "a>=-12 'x y'")
    ≡ lexed (
        record { kind = TokenKind.ident (ascii "a"); at = 0 }
        ∷ record { kind = TokenKind.gt_eq; at = 1 }
        ∷ record { kind = TokenKind.int (negsuc 11); at = 3 }
        ∷ record { kind = TokenKind.str (ascii "x y"); at = 7 }
        ∷ record { kind = TokenKind.eof; at = 12 }
        ∷ [])
unfolding tokenize tokens step count_while next_is next_is_digit two_or_one parse_i64 digits_value
    string_step number_step word_step
lexes_condition = refl

refuses_bang :
    tokenize (ascii "a ! b") ≡ failed (record { message = ascii "expected '=' after '!'"; at = 2 })
unfolding tokenize tokens step count_while next_is word_step error_at
refuses_bang = refl

tokenize_total_example :
    ((ts : List Token) × (tokenize (ascii "LIMIT 'x") ≡ lexed ts)
      × Placed (length (ascii "LIMIT 'x")) 0 ts)
    ⊎ ((e : ParseError) × (tokenize (ascii "LIMIT 'x") ≡ failed e)
        × (e.at < length (ascii "LIMIT 'x")))
tokenize_total_example = tokenize_total (ascii "LIMIT 'x")
