-- ===== src/Parser/Lexer.antt =====
-- src/parser/lexer.rs: the tokens of a statement, with their positions.
-- The input is the list of its bytes; the loop has the position and the bytes from there on.
pub mod Total
use skipper_db.Base.{
  ℕ, zero, suc, ◌+◌, ◌-◌, ◌*◌, ◌/◌, ◌%◌, Bool, true, false, not, ◌&&◌, ◌||◌, List, [], ◌∷◌, ◌++◌,
  Option, some, none, ltb, leb, ◌==◌, if◌then◌else◌, length, take, drop,
}
use skipper_db.Base.Int.{ℤ, pos, negsuc, i64_half}
use skipper_db.Base.Utf8.{Bytes, Text, ascii}

pub data TokenKind : Type 0 where
  ident : Text → TokenKind
  int : ℤ → TokenKind
  str : Text → TokenKind
  star comma semicolon l_paren r_paren eq not_eq lt lt_eq gt gt_eq eof : TokenKind

pub record Token : Type 0 where
  pub kind : TokenKind
  pub at : ℕ

pub record ParseError : Type 0 where
  pub message : Text
  pub at : ℕ

-- A result of the lexer, or no fuel left.
pub data Lexed {ℓ} (A : Type ℓ) : Type ℓ where
  lexed : A → Lexed A
  failed : ParseError → Lexed A
  out_of_fuel : Lexed A

abbrev pub is_space : ℕ → Bool
is_space c = c == b' ' || (c == 9 || (c == 10 || (c == 12 || c == 13)))

abbrev pub is_digit : ℕ → Bool
is_digit c = leb b'0' c && leb c b'9'

abbrev pub is_alphabetic : ℕ → Bool
is_alphabetic c = (leb b'a' c && leb c b'z') || (leb b'A' c && leb c b'Z')

abbrev pub is_word : ℕ → Bool
is_word c = is_alphabetic c || (is_digit c || c == b'_')

-- `while j < bytes.len() && p(bytes[j])`: how many bytes it passes.
unfoldable pub count_while : (ℕ → Bool) → Bytes → ℕ
count_while p [] = 0
count_while p (b ∷ bs) = let more = count_while p bs in if p b then suc more else 0

unfoldable pub next_is_digit : Bytes → Bool
next_is_digit [] = false
next_is_digit (b ∷ bs) = is_digit b

unfoldable pub next_is : ℕ → Bytes → Bool
next_is c [] = false
next_is c (b ∷ bs) = b == c

-- The number that decimal digits stand for, from `acc` on.
unfoldable pub digits_value : ℕ → Bytes → ℕ
digits_value acc [] = acc
digits_value acc (b ∷ bs) = digits_value (10 * acc + (b - b'0')) bs

abbrev pub negated : ℕ → ℤ
negated zero = pos zero
negated (suc n) = negsuc n

-- `parse::<i64>` on the bytes of a number: `none` is out of range.
unfoldable pub parse_i64 : ℕ → Bytes → Option ℤ
parse_i64 c rest =
    if c == b'-'
    then (if leb (digits_value 0 rest) i64_half then some (negated (digits_value 0 rest)) else none)
    else (if ltb (digits_value 0 (c ∷ rest)) i64_half
        then some (pos (digits_value 0 (c ∷ rest)))
        else none)

-- What one round of the loop does: it skips a byte, or takes a token of some bytes, or fails.
pub data Step : Type 0 where
  skip : Step
  token : TokenKind → ℕ → Step
  fail : ParseError → Step

unfoldable pub error_at : ℕ → Text → Step
error_at start message = fail (record { message = message; at = start })

unfoldable pub two_or_one : Bytes → ℕ → TokenKind → TokenKind → Step
two_or_one rest second two one = if next_is second rest then token two 2 else token one 1

-- `c as char`, in UTF-8.
unfoldable pub char_text : ℕ → Text
char_text c = if ltb c 128 then c ∷ [] else (192 + c / 64) ∷ (128 + c % 64) ∷ []

unfoldable pub string_step : ℕ → Bytes → Step
string_step start rest =
    let n = count_while (λ b. not (b == b'\'')) rest in
    if leb (length rest) n
    then error_at start (ascii "unterminated string literal")
    else token (str (take n rest)) (n + 2)

unfoldable pub number_step : ℕ → ℕ → Bytes → Step
number_step start c rest =
    let n = count_while is_digit rest in
    elim (parse_i64 c (take n rest)) [
      | none ↦ error_at start (ascii "integer literal out of range")
      | some v ↦ token (int v) (n + 1)
    ]

unfoldable pub word_step : ℕ → Bytes → Step
word_step c rest = let n = count_while is_word rest in token (ident (c ∷ take n rest)) (n + 1)

-- The `match` on the byte `c`, which `rest` follows.
unfoldable pub step : ℕ → ℕ → Bytes → Step
step start c rest =
    if is_space c
    then skip
    else if c == b'*'
    then token star 1
    else if c == b','
    then token comma 1
    else if c == b';'
    then token semicolon 1
    else if c == b'('
    then token l_paren 1
    else if c == b')'
    then token r_paren 1
    else if c == b'='
    then token eq 1
    else if c == b'!'
    then (if next_is b'=' rest
        then token not_eq 2
        else error_at start (ascii "expected '=' after '!'"))
    else if c == b'<'
    then two_or_one rest b'=' lt_eq lt
    else if c == b'>'
    then two_or_one rest b'=' gt_eq gt
    else if c == b'\''
    then string_step start rest
    else if is_digit c || (c == b'-' && next_is_digit rest)
    then number_step start c rest
    else if is_alphabetic c || c == b'_'
    then word_step c rest
    else error_at start (ascii "unexpected character '" ++ (char_text c ++ ascii "'"))

abbrev pub push : Token → Lexed (List Token) → Lexed (List Token)
push t (lexed ts) = lexed (t ∷ ts)
push t (failed e) = failed e
push t out_of_fuel = out_of_fuel

-- The loop, from a position on.
unfoldable pub tokens : ℕ → ℕ → Bytes → Lexed (List Token)
tokens zero start bs = out_of_fuel
tokens (suc n) start [] = lexed (record { kind = eof; at = start } ∷ [])
tokens (suc n) start (c ∷ rest) = elim (step start c rest) [
  | skip ↦ tokens n (start + 1) rest
  | token kind used ↦
      push (record { kind = kind; at = start }) (tokens n (start + used) (drop used (c ∷ rest)))
  | fail e ↦ failed e
]

-- Every round takes a byte at least.
unfoldable pub tokenize : Text → Lexed (List Token)
tokenize input = tokens (suc (length input)) 0 input
