-- ===== src/Parser/Descent/Selects.antt =====
-- The methods of src/parser/mod.rs for SELECT come to an end on tokens that end with `eof`.
use skipper_db.Base.{ℕ, suc, ◌<◌, Bool, true, false, Option, length, arith}
use skipper_db.Base.Utf8.{Text, ascii}
use skipper_db.Parser.Lexer.{TokenKind}
use skipper_db.Parser.State.{Parser, Parsed, ◌>>=◌, eat_keyword}
use skipper_db.Parser.State.Streams.{
  Stream, Good, good, Eats, Passes, Heads, Good-bind, Good-le, error-Good, taken-Good,
}
use skipper_db.Parser.State.Taken.{
  eat_keyword-Passes, eat-Passes, expect_keyword-Eats, current-Eats, expect_ident-Eats,
  parse_name-Eats,
}
use skipper_db.Parser.Descent.{Method}
use skipper_db.Parser.Descent.Loops.{comma_list-Eats}
use skipper_db.Parser.Descent.Total.{parse_expr-Eats}
use skipper_db.Parser.Descent.Statements.{
  optional, parse_select_item, projection_of, parse_projection, order_direction, parse_order_by,
  int_value, limit_of, parse_limit, parse_select,
}

module _ {A : Type 0} (end n : ℕ) (part : Method A) (eats : Eats end n part) where
  pub optional-Passes : (found : Bool) → Passes end n (optional found part)
  unfolding optional
  optional-Passes true p s l =
      Good-bind end _ _ _ _ (eats p s l) (λ x q s₁ l₁. good s₁ (omega arith))
  optional-Passes false p s l = good s (omega arith)

module _ {A B : Type 0} (end n : ℕ) where
  -- A keyword and the part behind it, or neither.
  option-Good :
      (word : Text) (part : Method A) (p : Parser) (f : Option A × Parser → Parsed B) (c : ℕ)
      → Eats end n part
      → Stream end p
      → length p < n
      → ((x : Option A) (q : Parser)
          → Stream end q
          → length q < suc (length p)
          → Good end c (f (x, q)))
      → Good end c (eat_keyword word p >>= λ y. optional y.0 part y.1 >>= f)
  option-Good word part p f c eats s l k =
      Good-bind end _ _ _ _ (eat_keyword-Passes end n word p s l) (λ found q s₁ l₁.
        Good-bind end _ _ _ _ (optional-Passes end n part eats found q s₁ (omega arith))
          (λ x r s₂ l₂. k x r s₂ (omega arith)))

module _ (end n : ℕ) where
  parse_select_item-Eats : Eats end n (parse_select_item n)
  unfolding parse_select_item
  parse_select_item-Eats p s l = Good-bind end _ _ _ _ (parse_expr-Eats end n p s l) (λ e q s₁ l₁.
      option-Good end n (ascii "AS") _ q _ (length p) (expect_ident-Eats end n _) s₁ (omega arith)
        (λ alias r s₂ l₂. good s₂ (omega arith)))

  projection_of-Passes : (all : Bool) → Passes end n (projection_of n all)
  unfolding projection_of
  projection_of-Passes true p s l = good s (omega arith)
  projection_of-Passes false p s l =
      Good-bind end _ _ _ _ (comma_list-Eats end n _ parse_select_item-Eats p s l)
        (λ items q s₁ l₁. good s₁ (omega arith))

  parse_projection-Passes : Passes end n (parse_projection n)
  unfolding parse_projection
  parse_projection-Passes p s l =
      Good-bind end _ _ _ _ (eat-Passes end n TokenKind.star (omega arith) p s l) (λ all q s₁ l₁.
        Good-le end (suc (length q)) _ _ (omega arith)
          (projection_of-Passes all q s₁ (omega arith)))

  order_direction-Passes : (desc : Bool) → Passes end n (order_direction desc)
  unfolding order_direction
  order_direction-Passes true p s l = good s (omega arith)
  order_direction-Passes false p s l =
      Good-bind end _ _ _ _ (eat_keyword-Passes end n (ascii "ASC") p s l)
        (λ found q s₁ l₁. good s₁ (omega arith))

  parse_order_by-Eats : Eats end n parse_order_by
  unfolding parse_order_by
  parse_order_by-Eats p s l =
      Good-bind end _ _ _ _ (expect_keyword-Eats end n (ascii "BY") p s l) (λ u q s₁ l₁.
        Good-bind end _ _ _ _ (parse_name-Eats end n (ascii "column name") q s₁ (omega arith))
          (λ column r s₂ l₂.
            Good-bind end _ _ _ _ (eat_keyword-Passes end n (ascii "DESC") r s₂ (omega arith))
              (λ desc t s₃ l₃.
                Good-bind end _ _ _ _ (order_direction-Passes desc t s₃ (omega arith))
                  (λ d v s₄ l₄. good s₄ (omega arith)))))

  limit_of-Good :
      (kind : TokenKind) (p : Parser)
      → Stream end p
      → length p < n
      → Heads kind p
      → Good end (length p) (limit_of (int_value kind) p)
  unfolding limit_of int_value
  limit_of-Good (TokenKind.int k) p s l h = taken-Good end p s k (TokenKind.int k) h (omega arith)
  limit_of-Good (TokenKind.ident k) p s l h = error-Good end (length p) _ p s
  limit_of-Good (TokenKind.str k) p s l h = error-Good end (length p) _ p s
  limit_of-Good TokenKind.star p s l h = error-Good end (length p) _ p s
  limit_of-Good TokenKind.comma p s l h = error-Good end (length p) _ p s
  limit_of-Good TokenKind.semicolon p s l h = error-Good end (length p) _ p s
  limit_of-Good TokenKind.l_paren p s l h = error-Good end (length p) _ p s
  limit_of-Good TokenKind.r_paren p s l h = error-Good end (length p) _ p s
  limit_of-Good TokenKind.eq p s l h = error-Good end (length p) _ p s
  limit_of-Good TokenKind.not_eq p s l h = error-Good end (length p) _ p s
  limit_of-Good TokenKind.lt p s l h = error-Good end (length p) _ p s
  limit_of-Good TokenKind.lt_eq p s l h = error-Good end (length p) _ p s
  limit_of-Good TokenKind.gt p s l h = error-Good end (length p) _ p s
  limit_of-Good TokenKind.gt_eq p s l h = error-Good end (length p) _ p s
  limit_of-Good TokenKind.eof p s l h = error-Good end (length p) _ p s

  parse_limit-Eats : Eats end n parse_limit
  unfolding parse_limit
  parse_limit-Eats = current-Eats end n (λ kind. limit_of (int_value kind)) limit_of-Good

  pub parse_select-Eats : Eats end n (parse_select n)
  unfolding parse_select
  parse_select-Eats p s l =
      Good-bind end _ _ _ _ (expect_keyword-Eats end n (ascii "SELECT") p s l) (λ u q s₁ l₁.
        Good-bind end _ _ _ _ (parse_projection-Passes q s₁ (omega arith)) (λ projection r s₂ l₂.
          Good-bind end _ _ _ _ (expect_keyword-Eats end n (ascii "FROM") r s₂ (omega arith))
            (λ v t s₃ l₃.
              Good-bind end _ _ _ _ (parse_name-Eats end n (ascii "table name") t s₃ (omega arith))
                (λ from q₁ s₄ l₄.
                  option-Good end n (ascii "WHERE") _ q₁ _ _ (parse_expr-Eats end n) s₄
                    (omega arith)
                    (λ filter q₂ s₅ l₅.
                      option-Good end n (ascii "ORDER") _ q₂ _ _ parse_order_by-Eats s₅
                        (omega arith)
                        (λ order_by q₃ s₆ l₆.
                          option-Good end n (ascii "LIMIT") _ q₃ _ _ parse_limit-Eats s₆
                            (omega arith) (λ limit q₄ s₇ l₇. good s₇ (omega arith))))))))
