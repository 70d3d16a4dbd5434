-- ===== src/Parser/Descent/Inserts.antt =====
-- How the tokens of an INSERT are written, and what src/parser/mod.rs makes of them.
use skipper_db.Base.{
  ℕ, suc, ◌<◌, ◌≤◌, ◌≡◌, refl, Bool, true, false, List, [], ◌∷◌, Option, some, none, length, arith,
}
use skipper_db.Base.Utf8.{Text, ascii, eq_ignore_ascii_case}
use skipper_db.Parser.Lexer.{TokenKind, lexed, tokenize}
use skipper_db.Parser.Ast.{Literal, Statement}
use skipper_db.Parser.State.{
  Parser, parsed, current, advance, ident_text, is_word, peek_keyword, eat_keyword, demand,
  expect_keyword, kind_eq, eat, expect, ident_of, expect_ident,
}
use skipper_db.Parser.Descent.{comma_list}
use skipper_db.Parser.Descent.Statements.{
  optional, literal_of, parse_literal, parse_names, parse_insert, insert_statement,
  create_statement, parse_statement, expect_end, parse_tokens, parse_lexed, parse,
}
use skipper_db.Parser.Descent.Spelled.{
  Spelled, next, word, listed, Reads, comma_list-listed, closing, closing_lem,
}

abbrev pub nothing : {A : Type 0} → A → List TokenKind → List TokenKind
nothing x ks = ks

abbrev pub literal_kind : Literal → TokenKind
literal_kind (Literal.int n) = TokenKind.int n
literal_kind (Literal.str s) = TokenKind.str s
literal_kind Literal.null = word (ascii "NULL")

parse_literal-Reads : Reads literal_kind nothing parse_literal
unfolding parse_literal literal_of current advance eq_ignore_ascii_case
parse_literal-Reads (Literal.int n) [] ks _ (next a (next b s)) = (_, next b s, refl, omega arith)
parse_literal-Reads (Literal.int n) (x ∷ xs) ks _ (next a (next b s)) =
    (_, next b s, refl, omega arith)
parse_literal-Reads (Literal.str t) [] ks _ (next a (next b s)) = (_, next b s, refl, omega arith)
parse_literal-Reads (Literal.str t) (x ∷ xs) ks _ (next a (next b s)) =
    (_, next b s, refl, omega arith)
parse_literal-Reads Literal.null [] ks _ (next a (next b s)) = (_, next b s, refl, omega arith)
parse_literal-Reads Literal.null (x ∷ xs) ks _ (next a (next b s)) =
    (_, next b s, refl, omega arith)

expect_ident-Reads : (what : Text) → Reads word nothing (expect_ident what)
unfolding expect_ident ident_of current ident_text advance
expect_ident-Reads what name [] ks _ (next a (next b s)) = (_, next b s, refl, omega arith)
expect_ident-Reads what name (x ∷ xs) ks _ (next a (next b s)) = (_, next b s, refl, omega arith)

-- The list of columns, one at least, if there is one.
abbrev pub columns_kinds : Option (Text × List Text) → List TokenKind → List TokenKind
columns_kinds none ks = ks
columns_kinds (some (c, cs)) ks = TokenKind.l_paren ∷ word c ∷ listed word nothing cs ks

abbrev pub to_columns : Option (Text × List Text) → Option (List Text)
to_columns none = none
to_columns (some (c, cs)) = some (c ∷ cs)

abbrev pub values_kinds : List TokenKind → List TokenKind
values_kinds ks = word (ascii "VALUES") ∷ TokenKind.l_paren ∷ ks

closed_lem :
    (what : Text) (ks : List TokenKind) (q : Parser)
    → Spelled (TokenKind.r_paren ∷ values_kinds ks) q
    → (r : Parser) × (expect TokenKind.r_paren what q ≡ parsed tt r)
      × Spelled (values_kinds ks) r
      × (length r ≤ length q)
unfolding expect eat current kind_eq advance demand
closed_lem what ks _ (next b (next c s)) = (_, refl, next c s, omega arith)

columns_lem :
    (columns : Option (Text × List Text)) (n : ℕ) (ks : List TokenKind) (p : Parser)
    → length p < n
    → Spelled (columns_kinds columns (values_kinds ks)) p
    → (found : Bool) × (p₁ : Parser) × (eat TokenKind.l_paren p ≡ parsed found p₁)
      × (q : Parser) × (optional found (parse_names n) p₁ ≡ parsed (to_columns columns) q)
      × Spelled (values_kinds ks) q
      × (length q ≤ length p)
unfolding eat current kind_eq advance optional parse_names expect demand
columns_lem none n ks _ l (next a (next b s)) =
    (false, _, refl, _, refl, next a (next b s), omega arith)
columns_lem (some (c, cs)) n ks _ l (next a (next b s)) =
    let (q, s₁, h, d) =
      comma_list-listed word nothing (expect_ident (ascii "column name"))
        (expect_ident-Reads (ascii "column name")) n c cs (values_kinds ks) _ (omega arith)
        (next b s) in
    let (r, h₁, s₂, d₁) = closed_lem (ascii "')' after column list") ks q s₁ in
    (true, _, refl, r, rw (h, h₁) refl, s₂, omega arith)

-- An INSERT of values, one at least, with a list of columns or without.
abbrev pub insert_kinds :
    Text → Option (Text × List Text) → Literal → List Literal → Bool → List TokenKind
insert_kinds table columns v vs semicolon =
    word (ascii "INSERT")
    ∷ word (ascii "INTO")
    ∷ word table
    ∷ columns_kinds columns
        (values_kinds (literal_kind v ∷ listed literal_kind nothing vs (closing semicolon)))

values_lem :
    (n : ℕ) (v : Literal) (vs : List Literal) (semicolon : Bool) (p : Parser)
    → length p < n
    → Spelled (values_kinds (literal_kind v ∷ listed literal_kind nothing vs (closing semicolon))) p
    → (p₁ p₂ q r t : Parser) × (expect_keyword (ascii "VALUES") p ≡ parsed tt p₁)
      × (expect TokenKind.l_paren (ascii "'(' before value list") p₁ ≡ parsed tt p₂)
      × (comma_list n parse_literal p₂ ≡ parsed (v ∷ vs) q)
      × (expect TokenKind.r_paren (ascii "')' after value list") q ≡ parsed tt r)
      × (expect_end r ≡ parsed tt t)
unfolding expect_keyword eat_keyword peek_keyword is_word ident_text eq_ignore_ascii_case eat
    current kind_eq advance expect demand
values_lem n v vs semicolon _ l (next a (next b (next c s))) =
    let (q, s₁, h, d) =
      comma_list-listed literal_kind nothing parse_literal parse_literal-Reads n v vs
        (closing semicolon) _ (omega arith) (next c s) in
    let (r, h₁, t, h₂) = closing_lem semicolon (ascii "')' after value list") q s₁ in
    (_, _, q, r, t, refl, refl, h, h₁, h₂)

-- `INSERT INTO` and the table's name.
module _ (table : Text) (a b at : ℕ) (p : Parser) where
  abbrev into : Parser
  into = record { kind = word (ascii "INTO"); at = b } ∷ record { kind = word table; at = at } ∷ p

  abbrev inserted : Parser
  inserted = record { kind = word (ascii "INSERT"); at = a } ∷ into

  into_lem :
      advance (record { kind = word table; at = at } ∷ p) ≡ p
      → (peek_keyword (ascii "CREATE") inserted ≡ parsed false inserted)
        × (peek_keyword (ascii "INSERT") inserted ≡ parsed true inserted)
        × (expect_keyword (ascii "INSERT") inserted ≡ parsed tt into)
        × (expect_keyword (ascii "INTO") into
            ≡ parsed tt (record { kind = word table; at = at } ∷ p))
        × (expect_ident (ascii "table name") (record { kind = word table; at = at } ∷ p)
            ≡ parsed table p)
  unfolding expect_keyword eat_keyword peek_keyword is_word ident_text eq_ignore_ascii_case current
      demand expect_ident ident_of advance
  into_lem step = (refl, refl, refl, refl, rw step refl)

  parse_insert_lem :
      (columns : Option (Text × List Text)) (v : Literal) (vs : List Literal) (semicolon : Bool)
      (n : ℕ)
      → length p < n
      → advance (record { kind = word table; at = at } ∷ p) ≡ p
      → Spelled
          (columns_kinds columns
            (values_kinds (literal_kind v ∷ listed literal_kind nothing vs (closing semicolon))))
          p
      → (q : Parser) × (parse_tokens n inserted
          ≡ parsed
              (Statement.insert
                (record { table = table; columns = to_columns columns; values = v ∷ vs }))
              q)
  unfolding parse_tokens parse_statement create_statement insert_statement parse_insert
  parse_insert_lem columns v vs semicolon n l step s =
      let (h₁, h₂, h₃, h₄, h₅) = into_lem step in
      let (found, p₁, e₁, p₂, e₂, s₁, d) = columns_lem columns n _ p l s in
      let (p₃, p₄, q, r, t, k₁, k₂, k₃, k₄, k₅) = values_lem n v vs semicolon p₂ (omega arith) s₁ in
      (t, rw (h₁, h₂, h₃, h₄, h₅, e₁, e₂, k₁, k₂, k₃, k₄, k₅) refl)

-- A text whose tokens write an INSERT of any values, and one at least, with a list of columns or
-- without, is parsed as that statement. A semicolon may end it.
pub parse-insert_kinds :
    (input : Text) (p : Parser) (table : Text) (columns : Option (Text × List Text)) (v : Literal)
    (vs : List Literal) (semicolon : Bool)
    → tokenize input ≡ lexed p
    → Spelled (insert_kinds table columns v vs semicolon) p
    → (q : Parser) × (parse input
        ≡ parsed
            (Statement.insert
              (record { table = table; columns = to_columns columns; values = v ∷ vs }))
            q)
unfolding parse parse_lexed advance
parse-insert_kinds input p table none v vs semicolon lexes (next a (next b (next d (next e s)))) =
    let (q, h) =
      parse_insert_lem table a b d _ none v vs semicolon (suc (length p)) (omega arith) refl
        (next e s) in
    (q, rw (lexes, h) refl)
parse-insert_kinds input p table (some c) v vs semicolon lexes
      (next a (next b (next d (next e s)))) =
    let (q, h) =
      parse_insert_lem table a b d _ (some c) v vs semicolon (suc (length p)) (omega arith) refl
        (next e s) in
    (q, rw (lexes, h) refl)
