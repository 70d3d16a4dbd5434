-- ===== src/Parser/State.antt =====
-- src/parser/mod.rs: the parser's state and its methods that take single tokens. The state is the
-- tokens from the current one on, `tokens[pos..]`; `panic` is an index out of them.
pub mod Streams
pub mod Taken
use skipper_db.Base.{
  Ordering, ℕ, Bool, true, false, not, ◌&&◌, ◌||◌, List, [], ◌∷◌, ◌++◌, Option, some, none, ◌==◌,
  if◌then◌else◌, map,
}
use skipper_db.Base.Int.{ℤ, cmp_ℤ}
use skipper_db.Base.Utf8.{Text, ascii, text_eq, eq_ignore_ascii_case}
use skipper_db.Base.Decimal.{decimal_ℤ}
use skipper_db.Parser.Lexer.{TokenKind, Token, ParseError}

abbrev pub Parser : Type 0
Parser = List Token

-- What a parser method returns, with the state that it leaves.
pub data Parsed {ℓ} (A : Type ℓ) : Type ℓ where
  parsed : A → Parser → Parsed A
  refused : ParseError → Parsed A
  panic out_of_fuel : Parsed A

infixl 5 ◌>>=◌ ◌>>◌
abbrev pub ◌>>=◌ {ℓ κ} : {A : Type ℓ} {B : Type κ} → Parsed A → (A × Parser → Parsed B) → Parsed B
parsed a p >>= f = f (a, p)
refused e >>= f = refused e
panic >>= f = panic
out_of_fuel >>= f = out_of_fuel

abbrev pub ◌>>◌ {ℓ κ} : {A : Type ℓ} {B : Type κ} → Parsed A → Parsed B → Parsed B
m >> k = m >>= λ _. k

unfoldable pub describe : TokenKind → Text
describe (TokenKind.ident s) = ascii "\"" ++ (s ++ ascii "\"")
describe (TokenKind.int n) = decimal_ℤ n
describe (TokenKind.str s) = ascii "'" ++ (s ++ ascii "'")
describe TokenKind.star = ascii "'*'"
describe TokenKind.comma = ascii "','"
describe TokenKind.semicolon = ascii "';'"
describe TokenKind.l_paren = ascii "'('"
describe TokenKind.r_paren = ascii "')'"
describe TokenKind.eq = ascii "'='"
describe TokenKind.not_eq = ascii "'!='"
describe TokenKind.lt = ascii "'<'"
describe TokenKind.lt_eq = ascii "'<='"
describe TokenKind.gt = ascii "'>'"
describe TokenKind.gt_eq = ascii "'>='"
describe TokenKind.eof = ascii "end of input"

-- `Err(self.error(message))`
unfoldable pub error {ℓ} : {A : Type ℓ} → Text → Parser → Parsed A
error message [] = panic
error message (t ∷ ts) =
    refused (record { message = message ++ (ascii ", found " ++ describe t.kind); at = t.at })

unfoldable pub expected {ℓ} : {A : Type ℓ} → Text → Parser → Parsed A
expected what p = error (ascii "expected " ++ what) p

unfoldable pub current : Parser → Parsed TokenKind
current [] = panic
current (t ∷ ts) = parsed t.kind (t ∷ ts)

-- The last token is not left.
unfoldable pub advance : Parser → Parser
advance [] = []
advance (t ∷ []) = t ∷ []
advance (t ∷ u ∷ ts) = u ∷ ts

-- `TokenKind::Ident(s)`
unfoldable pub ident_text : TokenKind → Option Text
ident_text (TokenKind.ident s) = some s
ident_text _ = none

unfoldable pub is_word : Text → Option Text → Bool
is_word keyword none = false
is_word keyword (some s) = eq_ignore_ascii_case s keyword

unfoldable pub peek_keyword : Text → Parser → Parsed Bool
peek_keyword keyword p = do (kind, _) ← current p; parsed (is_word keyword (ident_text kind)) p

-- The state behind the current token, if that was taken.
abbrev pub after : Bool → Parser → Parser
after true p = advance p
after false p = p

unfoldable pub eat_keyword : Text → Parser → Parsed Bool
eat_keyword keyword p = do (found, _) ← peek_keyword keyword p; parsed found (after found p)

-- What an `expect` method makes of the test before it.
unfoldable pub demand : Text → Bool → Parser → Parsed (Unit {0})
demand what true p = parsed tt p
demand what false p = expected what p

unfoldable pub expect_keyword : Text → Parser → Parsed (Unit {0})
expect_keyword keyword p = do (found, p₁) ← eat_keyword keyword p; demand keyword found p₁

-- The kinds of punctuation, numbered, for the derived `==`.
abbrev pub kind_number : TokenKind → ℕ
kind_number (TokenKind.ident s) = 0
kind_number (TokenKind.int n) = 1
kind_number (TokenKind.str s) = 2
kind_number TokenKind.star = 3
kind_number TokenKind.comma = 4
kind_number TokenKind.semicolon = 5
kind_number TokenKind.l_paren = 6
kind_number TokenKind.r_paren = 7
kind_number TokenKind.eq = 8
kind_number TokenKind.not_eq = 9
kind_number TokenKind.lt = 10
kind_number TokenKind.lt_eq = 11
kind_number TokenKind.gt = 12
kind_number TokenKind.gt_eq = 13
kind_number TokenKind.eof = 14

unfoldable pub kind_eq : TokenKind → TokenKind → Bool
kind_eq (TokenKind.ident s) (TokenKind.ident t) = text_eq s t
kind_eq (TokenKind.int m) (TokenKind.int n) = elim (cmp_ℤ m n) [ Ordering.eq ↦ true | _ ↦ false ]
kind_eq (TokenKind.str s) (TokenKind.str t) = text_eq s t
kind_eq a b = kind_number a == kind_number b

unfoldable pub eat : TokenKind → Parser → Parsed Bool
eat kind p = do (k, _) ← current p; parsed (kind_eq k kind) (after (kind_eq k kind) p)

unfoldable pub expect : TokenKind → Text → Parser → Parsed (Unit {0})
expect kind what p = do (found, p₁) ← eat kind p; demand what found p₁

unfoldable pub ident_of : Text → Option Text → Parser → Parsed Text
ident_of what none p = expected what p
ident_of what (some s) p = parsed s (advance p)

unfoldable pub expect_ident : Text → Parser → Parsed Text
expect_ident what p = do (kind, _) ← current p; ident_of what (ident_text kind) p

abbrev pub keywords : List Text
keywords =
    ascii "SELECT"
    ∷ ascii "FROM"
    ∷ ascii "WHERE"
    ∷ ascii "ORDER"
    ∷ ascii "BY"
    ∷ ascii "LIMIT"
    ∷ ascii "AND"
    ∷ ascii "OR"
    ∷ ascii "NOT"
    ∷ ascii "NULL"
    ∷ ascii "ASC"
    ∷ ascii "DESC"
    ∷ ascii "INSERT"
    ∷ ascii "INTO"
    ∷ ascii "VALUES"
    ∷ ascii "CREATE"
    ∷ ascii "TABLE"
    ∷ ascii "INT"
    ∷ ascii "TEXT"
    ∷ ascii "AS"
    ∷ []

unfoldable pub any_keyword : Text → List Text → Bool
any_keyword word [] = false
any_keyword word (k ∷ ks) = eq_ignore_ascii_case word k || any_keyword word ks

unfoldable pub is_reserved : Text → Bool
is_reserved word = any_keyword word keywords

-- A name that is no keyword.
unfoldable pub name_of : Text → Option Text → Parser → Parsed Text
name_of what none p = expected what p
name_of what (some s) p = if is_reserved s then expected what p else parsed s (advance p)

unfoldable pub parse_name : Text → Parser → Parsed Text
parse_name what p = do (kind, _) ← current p; name_of what (ident_text kind) p
