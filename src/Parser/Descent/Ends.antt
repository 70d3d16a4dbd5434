-- ===== src/Parser/Descent/Ends.antt =====
-- `parse` of src/parser/mod.rs comes to an end at every input, with a statement or an error.
use skipper_db.Base.{
  ℕ, suc, ◌<◌, ◌≤◌, ◌≡◌, ◌⊎◌, refl, Bool, true, false, length, arith, Bool-cases, inl, inr,
}
use skipper_db.Base.Utf8.{Text, ascii, eq_ignore_ascii_case}
use skipper_db.Parser.Lexer.{TokenKind, ParseError}
use skipper_db.Parser.Lexer.Total.{tokenize_total}
use skipper_db.Parser.Ast.{Literal, Statement}
use skipper_db.Parser.State.{Parser, Parsed, parsed, refused}
use skipper_db.Parser.State.Streams.{
  Stream, Good, good, bad, Eats, Passes, Heads, Good-bind, Good-le, error-Good, current-Good,
  taken-Good, eat_keyword-Good, peek_keyword-Good,
}
use skipper_db.Parser.State.Taken.{
  eat_keyword-Passes, eat-Passes, expect_keyword-Eats, expect-Eats, current-Eats, expect_ident-Eats,
}
use skipper_db.Parser.Descent.Loops.{comma_list-Eats}
use skipper_db.Parser.Descent.Selects.{optional-Passes, parse_select-Eats}
use skipper_db.Parser.Descent.Statements.{
  text_type, int_type, parse_data_type, nullable_of, parse_column_def, parse_create_table, no_value,
  literal_of, parse_literal, parse_names, parse_insert, select_statement, insert_statement,
  create_statement, parse_statement, end_of, expect_end, parse_tokens, parse_lexed, parse,
}

module _ (end n : ℕ) where
  parse_data_type-Eats : Eats end n parse_data_type
  unfolding parse_data_type int_type text_type
  parse_data_type-Eats p s l =
      eat_keyword-Good end (length p) p _ s (ascii "INT") (λ q s₁ l₁. good s₁ (omega arith))
        (eat_keyword-Good end (length p) p _ s (ascii "TEXT") (λ q s₁ l₁. good s₁ (omega arith))
          (error-Good end (length p) _ p s))

  nullable_of-Passes : (found : Bool) → Passes end n (nullable_of found)
  unfolding nullable_of
  nullable_of-Passes true p s l =
      Good-bind end _ _ _ _ (expect_keyword-Eats end n (ascii "NULL") p s l)
        (λ u q s₁ l₁. good s₁ (omega arith))
  nullable_of-Passes false p s l =
      Good-bind end _ _ _ _ (eat_keyword-Passes end n (ascii "NULL") p s l)
        (λ u q s₁ l₁. good s₁ (omega arith))

  parse_column_def-Eats : Eats end n parse_column_def
  unfolding parse_column_def
  parse_column_def-Eats p s l =
      Good-bind end _ _ _ _ (expect_ident-Eats end n (ascii "column name") p s l) (λ name q s₁ l₁.
        Good-bind end _ _ _ _ (parse_data_type-Eats q s₁ (omega arith)) (λ ty r s₂ l₂.
          Good-bind end _ _ _ _ (eat_keyword-Passes end n (ascii "NOT") r s₂ (omega arith))
            (λ found t s₃ l₃.
              Good-bind end _ _ _ _ (nullable_of-Passes found t s₃ (omega arith))
                (λ nullable v s₄ l₄. good s₄ (omega arith)))))

  parse_create_table-Eats : Eats end n (parse_create_table n)
  unfolding parse_create_table
  parse_create_table-Eats p s l =
      Good-bind end _ _ _ _ (expect_keyword-Eats end n (ascii "CREATE") p s l) (λ u q s₁ l₁.
        Good-bind end _ _ _ _ (expect_keyword-Eats end n (ascii "TABLE") q s₁ (omega arith))
          (λ v r s₂ l₂.
            Good-bind end _ _ _ _ (expect_ident-Eats end n (ascii "table name") r s₂ (omega arith))
              (λ table t s₃ l₃.
                Good-bind end _ _ _ _
                  (expect-Eats end n TokenKind.l_paren _ (omega arith) t s₃ (omega arith))
                  (λ w q₁ s₄ l₄.
                    Good-bind end _ _ _ _
                      (comma_list-Eats end n _ parse_column_def-Eats q₁ s₄ (omega arith))
                      (λ columns q₂ s₅ l₅.
                        Good-bind end _ _ _ _
                          (expect-Eats end n TokenKind.r_paren _ (omega arith) q₂ s₅ (omega arith))
                          (λ x q₃ s₆ l₆. good s₆ (omega arith)))))))

  no_value-Good : (p : Parser) → Stream end p → Good end (length p) (no_value p)
  unfolding no_value
  no_value-Good p s = error-Good end (length p) _ p s

  literal_of-Good :
      (kind : TokenKind) (p : Parser)
      → Stream end p
      → length p < n
      → Heads kind p
      → Good end (length p) (literal_of kind p)
  unfolding literal_of
  literal_of-Good (TokenKind.int k) p s l h = taken-Good end p s _ (TokenKind.int k) h (omega arith)
  literal_of-Good (TokenKind.str k) p s l h = taken-Good end p s _ (TokenKind.str k) h (omega arith)
  literal_of-Good (TokenKind.ident k) p s l h =
      elim (Bool-cases (eq_ignore_ascii_case k (ascii "NULL"))) [
        | inl e ↦ rw e (taken-Good end p s Literal.null (TokenKind.ident k) h (omega arith))
        | inr e ↦ rw e (no_value-Good p s)
      ]
  literal_of-Good TokenKind.star p s l h = no_value-Good p s
  literal_of-Good TokenKind.comma p s l h = no_value-Good p s
  literal_of-Good TokenKind.semicolon p s l h = no_value-Good p s
  literal_of-Good TokenKind.l_paren p s l h = no_value-Good p s
  literal_of-Good TokenKind.r_paren p s l h = no_value-Good p s
  literal_of-Good TokenKind.eq p s l h = no_value-Good p s
  literal_of-Good TokenKind.not_eq p s l h = no_value-Good p s
  literal_of-Good TokenKind.lt p s l h = no_value-Good p s
  literal_of-Good TokenKind.lt_eq p s l h = no_value-Good p s
  literal_of-Good TokenKind.gt p s l h = no_value-Good p s
  literal_of-Good TokenKind.gt_eq p s l h = no_value-Good p s
  literal_of-Good TokenKind.eof p s l h = no_value-Good p s

  parse_literal-Eats : Eats end n parse_literal
  unfolding parse_literal
  parse_literal-Eats = current-Eats end n literal_of literal_of-Good

  parse_names-Eats : Eats end n (parse_names n)
  unfolding parse_names
  parse_names-Eats p s l =
      Good-bind end _ _ _ _ (comma_list-Eats end n _ (expect_ident-Eats end n _) p s l)
        (λ names q s₁ l₁.
          Good-bind end _ _ _ _
            (expect-Eats end n TokenKind.r_paren _ (omega arith) q s₁ (omega arith))
            (λ u r s₂ l₂. good s₂ (omega arith)))

  -- The list behind VALUES.
  parse_insert-Eats : Eats end n (parse_insert n)
  unfolding parse_insert
  parse_insert-Eats p s l =
      Good-bind end _ _ _ _ (expect_keyword-Eats end n (ascii "INSERT") p s l) (λ u q s₁ l₁.
        Good-bind end _ _ _ _ (expect_keyword-Eats end n (ascii "INTO") q s₁ (omega arith))
          (λ v r s₂ l₂.
            Good-bind end _ _ _ _ (expect_ident-Eats end n (ascii "table name") r s₂ (omega arith))
              (λ table t s₃ l₃.
                Good-bind end _ _ _ _
                  (eat-Passes end n TokenKind.l_paren (omega arith) t s₃ (omega arith))
                  (λ listed q₁ s₄ l₄.
                    Good-bind end _ _ _ _
                      (optional-Passes end n _ parse_names-Eats listed q₁ s₄ (omega arith))
                      (λ columns q₂ s₅ l₅.
                        Good-bind end _ _ _ _
                          (expect_keyword-Eats end n (ascii "VALUES") q₂ s₅ (omega arith))
                          (λ w q₃ s₆ l₆.
                            Good-bind end _ _ _ _
                              (expect-Eats end n TokenKind.l_paren _ (omega arith) q₃ s₆
                                (omega arith))
                              (λ x q₄ s₇ l₇.
                                Good-bind end _ _ _ _
                                  (comma_list-Eats end n _ parse_literal-Eats q₄ s₇ (omega arith))
                                  (λ values q₅ s₈ l₈.
                                    Good-bind end _ _ _ _
                                      (expect-Eats end n TokenKind.r_paren _ (omega arith) q₅ s₈
                                        (omega arith))
                                      (λ y q₆ s₉ l₉. good s₉ (omega arith))))))))))

  select_statement-Eats : (found : Bool) → Eats end n (select_statement n found)
  unfolding select_statement
  select_statement-Eats true p s l =
      Good-bind end _ _ _ _ (parse_select-Eats end n p s l) (λ x q s₁ l₁. good s₁ (omega arith))
  select_statement-Eats false p s l = error-Good end (length p) _ p s

  insert_statement-Eats : (found : Bool) → Eats end n (insert_statement n found)
  unfolding insert_statement
  insert_statement-Eats true p s l =
      Good-bind end _ _ _ _ (parse_insert-Eats p s l) (λ x q s₁ l₁. good s₁ (omega arith))
  insert_statement-Eats false p s l =
      peek_keyword-Good end (length p) p _ s (ascii "SELECT")
        (λ found. select_statement-Eats found p s l)

  create_statement-Eats : (found : Bool) → Eats end n (create_statement n found)
  unfolding create_statement
  create_statement-Eats true p s l =
      Good-bind end _ _ _ _ (parse_create_table-Eats p s l) (λ x q s₁ l₁. good s₁ (omega arith))
  create_statement-Eats false p s l =
      peek_keyword-Good end (length p) p _ s (ascii "INSERT")
        (λ found. insert_statement-Eats found p s l)

  parse_statement-Eats : Eats end n (parse_statement n)
  unfolding parse_statement
  parse_statement-Eats p s l =
      peek_keyword-Good end (length p) p _ s (ascii "CREATE")
        (λ found. create_statement-Eats found p s l)

  end_of-Passes : (kind : TokenKind) → Passes end n (end_of kind)
  unfolding end_of
  end_of-Passes (TokenKind.ident k) p s l = error-Good end _ _ p s
  end_of-Passes (TokenKind.int k) p s l = error-Good end _ _ p s
  end_of-Passes (TokenKind.str k) p s l = error-Good end _ _ p s
  end_of-Passes TokenKind.star p s l = error-Good end _ _ p s
  end_of-Passes TokenKind.comma p s l = error-Good end _ _ p s
  end_of-Passes TokenKind.semicolon p s l = error-Good end _ _ p s
  end_of-Passes TokenKind.l_paren p s l = error-Good end _ _ p s
  end_of-Passes TokenKind.r_paren p s l = error-Good end _ _ p s
  end_of-Passes TokenKind.eq p s l = error-Good end _ _ p s
  end_of-Passes TokenKind.not_eq p s l = error-Good end _ _ p s
  end_of-Passes TokenKind.lt p s l = error-Good end _ _ p s
  end_of-Passes TokenKind.lt_eq p s l = error-Good end _ _ p s
  end_of-Passes TokenKind.gt p s l = error-Good end _ _ p s
  end_of-Passes TokenKind.gt_eq p s l = error-Good end _ _ p s
  end_of-Passes TokenKind.eof p s l = good s (omega arith)

  expect_end-Passes : Passes end n expect_end
  unfolding expect_end
  expect_end-Passes p s l =
      Good-bind end _ _ _ _ (eat-Passes end n TokenKind.semicolon (omega arith) p s l)
        (λ found q s₁ l₁. current-Good end _ q _ s₁ (λ kind h.
          Good-le end (suc (length q)) _ _ (omega arith) (end_of-Passes kind q s₁ (omega arith))))

  parse_tokens-Eats : Eats end n (parse_tokens n)
  unfolding parse_tokens
  parse_tokens-Eats p s l = Good-bind end _ _ _ _ (parse_statement-Eats p s l) (λ statement q s₁ l₁.
      Good-bind end _ _ _ _ (expect_end-Passes q s₁ (omega arith))
        (λ u r s₂ l₂. good s₂ (omega arith)))

Good-cases :
    {A : Type 0} (end b : ℕ) (m : Parsed A)
    → Good end b m
    → ((a : A) × (q : Parser) × (m ≡ parsed a q))
      ⊎ ((e : ParseError) × (m ≡ refused e) × (e.at ≤ end))
Good-cases end b _ (good s l) = inl (_, _, refl)
Good-cases end b _ (bad h) = inr (_, refl, h)

-- Parsing comes to an end at every input, and the parser never reads past its tokens: `parse`
-- returns a statement, or an error at a position in the input or at its end.
pub parse_total :
    (input : Text)
    → ((s : Statement) × (q : Parser) × (parse input ≡ parsed s q))
      ⊎ ((e : ParseError) × (parse input ≡ refused e) × (e.at ≤ length input))
unfolding parse parse_lexed
parse_total input = elim (tokenize_total input) [
  | inl (ts, e, placed) ↦ rw e (
      Good-cases (length input) (length ts) (parse_tokens (suc (length ts)) ts)
        (parse_tokens-Eats (length input) (suc (length ts)) ts (0, placed) (omega arith)))
  | inr (e, h, l) ↦ rw h (inr (e, refl, omega arith))
]
