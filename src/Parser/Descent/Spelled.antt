-- ===== src/Parser/Descent/Spelled.antt =====
-- How the tokens of a CREATE TABLE and of an INSERT are written, and what src/parser/mod.rs makes of them.
use skipper_db.Base.{
  ℕ, zero, suc, ◌<◌, ◌≤◌, ◌≡◌, refl, Bool, true, false, List, [], ◌∷◌, length, arith,
}
use skipper_db.Base.Utf8.{Text, ascii, eq_ignore_ascii_case}
use skipper_db.Parser.Lexer.{TokenKind, lexed, tokenize}
use skipper_db.Parser.Ast.{ColumnDef, DataType, Statement}
use skipper_db.Parser.State.{
  Parser, parsed, current, advance, ident_text, is_word, peek_keyword, eat_keyword, demand,
  expect_keyword, kind_eq, eat, expect, ident_of, expect_ident,
}
use skipper_db.Parser.Descent.{Method, more_items, comma_list}
use skipper_db.Parser.Descent.Statements.{
  int_type, text_type, parse_data_type, nullable_of, parse_column_def, parse_create_table,
  create_statement, parse_statement, end_of, expect_end, parse_tokens, parse_lexed, parse,
}

-- Tokens of these kinds, at any positions.
pub data Spelled : List TokenKind → Parser → Type 0 where
  done : Spelled [] []
  next :
      {kind : TokenKind} {kinds : List TokenKind} {p : Parser} (at : ℕ)
      → Spelled kinds p
      → Spelled (kind ∷ kinds) (record { kind = kind; at = at } ∷ p)

abbrev pub word : Text → TokenKind
word = TokenKind.ident

-- Items behind commas, and the parenthesis that closes. An item has a first token and others behind it.
module _ {A : Type 0} (first : A → TokenKind) (behind : A → List TokenKind → List TokenKind) where
  abbrev pub listed : List A → List TokenKind → List TokenKind
  listed [] ks = TokenKind.r_paren ∷ ks
  listed (x ∷ xs) ks = TokenKind.comma ∷ first x ∷ behind x (listed xs ks)

  -- The method reads an item and leaves what follows it.
  abbrev pub Reads : Method A → Type 0
  Reads item =
      (x : A) (xs : List A) (ks : List TokenKind) (p : Parser)
      → Spelled (first x ∷ behind x (listed xs ks)) p
      → (q : Parser) × Spelled (listed xs ks) q × (item p ≡ parsed x q) × (length q < length p)

module _ {A : Type 0} (first : A → TokenKind) (behind : A → List TokenKind → List TokenKind)
    (item : Method A) (reads : Reads first behind item) where
  more_items-listed :
      (n : ℕ) (xs : List A) (ks : List TokenKind) (p : Parser)
      → length p < n
      → Spelled (listed first behind xs ks) p
      → (q : Parser) × Spelled (TokenKind.r_paren ∷ ks) q
        × (more_items n item p ≡ parsed xs q)
        × (length q ≤ length p)
  unfolding more_items eat kind_eq current advance
  more_items-listed zero xs ks p l s = absurd (omega arith)
  more_items-listed (suc n) [] ks _ l (next a s) = (_, next a s, refl, omega arith)
  more_items-listed (suc n) (x ∷ xs) ks _ l (next a (next b s)) =
      let (q, s₁, e, d) = reads x xs ks _ (next b s) in
      let (r, s₂, e₁, d₁) = more_items-listed n xs ks q (omega arith) s₁ in
      (r, s₂, rw (e, e₁) refl, omega arith)

  pub comma_list-listed :
      (n : ℕ) (x : A) (xs : List A) (ks : List TokenKind) (p : Parser)
      → length p < n
      → Spelled (first x ∷ behind x (listed first behind xs ks)) p
      → (q : Parser) × Spelled (TokenKind.r_paren ∷ ks) q
        × (comma_list n item p ≡ parsed (x ∷ xs) q)
        × (length q ≤ length p)
  unfolding comma_list
  comma_list-listed n x xs ks p l s =
      let (q, s₁, e, d) = reads x xs ks p s in
      let (r, s₂, e₁, d₁) = more_items-listed n xs ks q (omega arith) s₁ in
      (r, s₂, rw (comma_list, e, e₁) refl, omega arith)

-- A column: its name, its type, and NOT NULL if it is not nullable.
abbrev pub column_name : ColumnDef → TokenKind
column_name c = word c.name

abbrev pub type_word : DataType → TokenKind
type_word DataType.int = word (ascii "INT")
type_word DataType.text = word (ascii "TEXT")

abbrev pub not_null : Bool → List TokenKind → List TokenKind
not_null true ks = ks
not_null false ks = word (ascii "NOT") ∷ word (ascii "NULL") ∷ ks

abbrev pub column_type : ColumnDef → List TokenKind → List TokenKind
column_type c ks = type_word c.ty ∷ not_null c.nullable ks

column_lem :
    (name : Text) (ty : DataType) (nullable : Bool) (xs : List ColumnDef) (ks : List TokenKind)
    (p : Parser)
    → Spelled
        (word name ∷ type_word ty ∷ not_null nullable (listed column_name column_type xs ks))
        p
    → (q : Parser) × Spelled (listed column_name column_type xs ks) q
      × (parse_column_def p ≡ parsed (record { name = name; ty = ty; nullable = nullable }) q)
      × (length q < length p)
unfolding parse_column_def expect_ident ident_of current ident_text advance parse_data_type int_type
    text_type eat_keyword peek_keyword is_word eq_ignore_ascii_case nullable_of expect_keyword
    demand
column_lem name DataType.int true [] ks _ (next a (next b (next c s))) =
    (_, next c s, refl, omega arith)
column_lem name DataType.int true (x ∷ xs) ks _ (next a (next b (next c s))) =
    (_, next c s, refl, omega arith)
column_lem name DataType.text true [] ks _ (next a (next b (next c s))) =
    (_, next c s, refl, omega arith)
column_lem name DataType.text true (x ∷ xs) ks _ (next a (next b (next c s))) =
    (_, next c s, refl, omega arith)
column_lem name DataType.int false [] ks _ (next a (next b (next c (next d (next e s))))) =
    (_, next e s, refl, omega arith)
column_lem name DataType.int false (x ∷ xs) ks _ (next a (next b (next c (next d (next e s))))) =
    (_, next e s, refl, omega arith)
column_lem name DataType.text false [] ks _ (next a (next b (next c (next d (next e s))))) =
    (_, next e s, refl, omega arith)
column_lem name DataType.text false (x ∷ xs) ks _ (next a (next b (next c (next d (next e s))))) =
    (_, next e s, refl, omega arith)

parse_column_def-Reads : Reads column_name column_type parse_column_def
parse_column_def-Reads c xs ks p s = column_lem c.name c.ty c.nullable xs ks p s

-- The end of the tokens, with a semicolon or without.
abbrev pub closing : Bool → List TokenKind
closing true = TokenKind.semicolon ∷ TokenKind.eof ∷ []
closing false = TokenKind.eof ∷ []

abbrev pub create_kinds : Text → ColumnDef → List ColumnDef → Bool → List TokenKind
create_kinds table c cs semicolon =
    word (ascii "CREATE")
    ∷ word (ascii "TABLE")
    ∷ word table
    ∷ TokenKind.l_paren
    ∷ column_name c
    ∷ column_type c (listed column_name column_type cs (closing semicolon))

pub closing_lem :
    (semicolon : Bool) (what : Text) (q : Parser)
    → Spelled (TokenKind.r_paren ∷ closing semicolon) q
    → (r : Parser) × (expect TokenKind.r_paren what q ≡ parsed tt r)
      × (t : Parser) × (expect_end r ≡ parsed tt t)
unfolding expect eat current kind_eq advance demand expect_end end_of
closing_lem true what _ (next b (next c (next d done))) = (_, refl, _, refl)
closing_lem false what _ (next b (next c done)) = (_, refl, _, refl)

-- A text whose tokens write a CREATE TABLE of any columns, and one at least, is parsed as that
-- statement. NOT NULL stands behind the columns that are not nullable, and a semicolon may end it.
pub parse-create_kinds :
    (input : Text) (p : Parser) (table : Text) (c : ColumnDef) (cs : List ColumnDef)
    (semicolon : Bool)
    → tokenize input ≡ lexed p
    → Spelled (create_kinds table c cs semicolon) p
    → (q : Parser) × (parse input
        ≡ parsed (Statement.create_table (record { table = table; columns = c ∷ cs })) q)
unfolding parse parse_lexed parse_tokens parse_statement create_statement peek_keyword current
    ident_text is_word eq_ignore_ascii_case parse_create_table expect_keyword eat_keyword advance
    demand expect_ident ident_of expect eat kind_eq
parse-create_kinds input p table c cs semicolon lexes
      (next a (next b (next d (next e (next f s))))) =
    let (q, s₁, h, d₀) =
      comma_list-listed column_name column_type parse_column_def parse_column_def-Reads
        (suc (length p)) c cs (closing semicolon) _ (omega arith) (next f s) in
    let (r, h₁, t, h₂) = closing_lem semicolon (ascii "',' or ')' in column list") q s₁ in
    (t, rw (lexes, h, h₁, h₂) refl)
