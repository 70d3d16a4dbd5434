-- ===== src/Parser/Descent/Total.antt =====
-- The methods of src/parser/mod.rs for expressions come to an end on tokens that end with `eof`.
use skipper_db.Base.{
  ℕ, zero, suc, ◌<◌, ◌≡◌, refl, Bool, true, false, Option, some, none, length, arith, Bool-cases,
  inl, inr,
}
use skipper_db.Base.Utf8.{Text, ascii, eq_ignore_ascii_case}
use skipper_db.Parser.Lexer.{TokenKind}
use skipper_db.Parser.Ast.{Literal, CompareOp, Expr, literal, and, or}
use skipper_db.Parser.State.{Parser, ◌>>=◌, advance, is_reserved, kind_number}
use skipper_db.Parser.State.Streams.{
  Stream, Good, good, Eats, Passes, Heads, Good-bind, Good-le, error-Good, current-Good,
  advance_lem, taken-Good, eat-Good,
}
use skipper_db.Parser.State.Taken.{expect-Eats, current-Eats}
use skipper_db.Parser.Descent.Loops.{comma_list-Eats, chain-Passes}
use skipper_db.Parser.Descent.{
  Method, is_r_paren, args_of, name_or_call, no_expression, named, primary_word, primary_of,
  parse_primary, compare_op, take_op, eat_compare_op, compare_with, parse_compare, chain, parse_and,
  parse_or, parse_expr,
}

compare_op-some :
    (kind : TokenKind) (op : CompareOp) → compare_op kind ≡ some op → kind_number kind < 14
unfolding compare_op
compare_op-some (TokenKind.ident t) op h = omega arith
compare_op-some (TokenKind.int k) op h = omega arith
compare_op-some (TokenKind.str k) op h = omega arith
compare_op-some TokenKind.star op h = omega arith
compare_op-some TokenKind.comma op h = omega arith
compare_op-some TokenKind.semicolon op h = omega arith
compare_op-some TokenKind.l_paren op h = omega arith
compare_op-some TokenKind.r_paren op h = omega arith
compare_op-some TokenKind.eq op h = omega arith
compare_op-some TokenKind.not_eq op h = omega arith
compare_op-some TokenKind.lt op h = omega arith
compare_op-some TokenKind.lt_eq op h = omega arith
compare_op-some TokenKind.gt op h = omega arith
compare_op-some TokenKind.gt_eq op h = omega arith
compare_op-some TokenKind.eof op h = cc

-- The levels, from the parser of the expressions inside.
module _ (end n : ℕ) (expr : Method Expr) (eats : Eats end n expr) where
  no_expression-Good : (b : ℕ) (p : Parser) → Stream end p → Good end b (no_expression p)
  unfolding no_expression
  no_expression-Good b p s = error-Good end b (ascii "expected an expression") p s

  args_of-Passes : (close : Bool) → Passes end n (args_of n expr close)
  unfolding args_of
  args_of-Passes true p s l = good s (omega arith)
  args_of-Passes false p s l =
      Good-le end (length p) (suc (length p)) _ (omega arith)
        (comma_list-Eats end n expr eats p s l)

  name_or_call-Passes : (name : Text) (call : Bool) → Passes end n (name_or_call n expr name call)
  unfolding name_or_call
  name_or_call-Passes name false p s l = good s (omega arith)
  name_or_call-Passes name true p s l = current-Good end (suc (length p)) p _ s (λ kind h.
      Good-bind end (suc (length p)) (suc (length p)) (args_of n expr (is_r_paren kind) p) _
        (args_of-Passes (is_r_paren kind) p s l)
        (λ args q s₁ l₁.
          Good-bind end (length q) (suc (length p)) _ _
            (expect-Eats end (suc (length q)) TokenKind.r_paren _ (omega arith) q s₁ (omega arith))
            (λ u r s₂ l₂. good s₂ (omega arith))))

  named-Good :
      (s : Text) (kind : TokenKind) (p : Parser)
      → Stream end p
      → length p < suc n
      → Heads kind p
      → kind_number kind < 14
      → Good end (length p) (named n expr s p)
  unfolding named
  named-Good s kind p st l h d =
      let (s₁, l₁) = advance_lem end p kind st h d in
      eat-Good end (length p) (advance p) _ s₁ TokenKind.l_paren (omega arith)
        (λ q s₂ l₂.
          Good-le end (suc (length q)) (length p) _ (omega arith)
            (name_or_call-Passes s true q s₂ (omega arith)))
        (Good-le end (suc (length (advance p))) (length p) _ (omega arith)
          (name_or_call-Passes s false (advance p) s₁ (omega arith)))

  primary_word-Good :
      (s : Text) (kind : TokenKind) (p : Parser)
      → Stream end p
      → length p < suc n
      → Heads kind p
      → kind_number kind < 14
      → Good end (length p) (primary_word n expr s p)
  unfolding primary_word
  primary_word-Good s kind p st l h d = elim (Bool-cases (eq_ignore_ascii_case s (ascii "NULL"))) [
    | inl null ↦ rw null (taken-Good end p st (literal Literal.null) kind h d)
    | inr word ↦ elim (Bool-cases (is_reserved s)) [
      | inl r ↦ rw (word, r) (no_expression-Good (length p) p st)
      | inr r ↦ rw (word, r) (named-Good s kind p st l h d)
    ]
  ]

  paren-Good :
      (p : Parser)
      → Stream end p
      → length p < suc n
      → Heads TokenKind.l_paren p
      → Good end (length p) (primary_of n expr TokenKind.l_paren p)
  unfolding primary_of
  paren-Good p st l h =
      let (s₁, l₁) = advance_lem end p TokenKind.l_paren st h (omega arith) in
      Good-bind end (length (advance p)) (length p) (expr (advance p)) _
        (eats (advance p) s₁ (omega arith))
        (λ e q s₂ l₂.
          Good-bind end (length q) (length p) _ _
            (expect-Eats end (suc (length q)) TokenKind.r_paren _ (omega arith) q s₂ (omega arith))
            (λ u r s₃ l₃. good s₃ (omega arith)))

  primary_of-Good :
      (kind : TokenKind) (p : Parser)
      → Stream end p
      → length p < suc n
      → Heads kind p
      → Good end (length p) (primary_of n expr kind p)
  unfolding primary_of
  primary_of-Good TokenKind.l_paren p s l h = paren-Good p s l h
  primary_of-Good (TokenKind.int k) p s l h = taken-Good end p s _ (TokenKind.int k) h (omega arith)
  primary_of-Good (TokenKind.str k) p s l h = taken-Good end p s _ (TokenKind.str k) h (omega arith)
  primary_of-Good (TokenKind.ident k) p s l h =
      primary_word-Good k (TokenKind.ident k) p s l h (omega arith)
  primary_of-Good TokenKind.star p s l h = no_expression-Good (length p) p s
  primary_of-Good TokenKind.comma p s l h = no_expression-Good (length p) p s
  primary_of-Good TokenKind.semicolon p s l h = no_expression-Good (length p) p s
  primary_of-Good TokenKind.r_paren p s l h = no_expression-Good (length p) p s
  primary_of-Good TokenKind.eq p s l h = no_expression-Good (length p) p s
  primary_of-Good TokenKind.not_eq p s l h = no_expression-Good (length p) p s
  primary_of-Good TokenKind.lt p s l h = no_expression-Good (length p) p s
  primary_of-Good TokenKind.lt_eq p s l h = no_expression-Good (length p) p s
  primary_of-Good TokenKind.gt p s l h = no_expression-Good (length p) p s
  primary_of-Good TokenKind.gt_eq p s l h = no_expression-Good (length p) p s
  primary_of-Good TokenKind.eof p s l h = no_expression-Good (length p) p s

  parse_primary-Eats : Eats end (suc n) (parse_primary n expr)
  unfolding parse_primary
  parse_primary-Eats = current-Eats end (suc n) (primary_of n expr) primary_of-Good

  take_op-Good :
      (kind : TokenKind) (o : Option CompareOp) (p : Parser)
      → compare_op kind ≡ o
      → Stream end p
      → Heads kind p
      → Good end (suc (length p)) (take_op o p)
  unfolding take_op
  take_op-Good kind none p e s h = good s (omega arith)
  take_op-Good kind (some op) p e s h =
      Good-le end (length p) (suc (length p)) _ (omega arith)
        (taken-Good end p s (some op) kind h (compare_op-some kind op e))

  eat_compare_op-Passes : Passes end (suc n) eat_compare_op
  unfolding eat_compare_op
  eat_compare_op-Passes p s l =
      current-Good end (suc (length p)) p _ s
        (λ kind h. take_op-Good kind (compare_op kind) p refl s h)

  compare_with-Passes :
      (left : Expr) (op : Option CompareOp) → Passes end (suc n) (compare_with n expr left op)
  unfolding compare_with
  compare_with-Passes left none p s l = good s (omega arith)
  compare_with-Passes left (some op) p s l =
      Good-bind end (length p) (suc (length p)) (parse_primary n expr p) _
        (parse_primary-Eats p s l) (λ right q s₁ l₁. good s₁ (omega arith))

  parse_compare-Eats : Eats end (suc n) (parse_compare n expr)
  unfolding parse_compare
  parse_compare-Eats p s l =
      Good-bind end (length p) (length p) (parse_primary n expr p) _ (parse_primary-Eats p s l)
        (λ left q s₁ l₁.
          Good-bind end (suc (length q)) (length p) (eat_compare_op q) _
            (eat_compare_op-Passes q s₁ (omega arith))
            (λ op r s₂ l₂.
              Good-le end (suc (length r)) (length p) _ (omega arith)
                (compare_with-Passes left op r s₂ (omega arith))))

  -- A level and the loop behind it.
  level-Eats :
      (word : Text) (join : Expr → Expr → Expr) (operand : Method Expr)
      → Eats end (suc n) operand
      → Eats end (suc n) (λ p. operand p >>= λ x. chain n word join operand x.0 x.1)
  level-Eats word join operand op p s l =
      Good-bind end (length p) (length p) (operand p) _ (op p s l) (λ left q s₁ l₁.
        Good-le end (suc (length q)) (length p) _ (omega arith) (
          chain-Passes end n word join operand (λ r s₂ l₂. op r s₂ (omega arith)) n left
            (omega arith) q s₁ (omega arith)))

  parse_or-Eats : Eats end (suc n) (parse_or n expr)
  unfolding parse_or parse_and
  parse_or-Eats =
      level-Eats (ascii "OR") or (parse_and n expr)
        (level-Eats (ascii "AND") and (parse_compare n expr) parse_compare-Eats)

pub parse_expr-Eats : (end n : ℕ) → Eats end n (parse_expr n)
unfolding parse_expr
parse_expr-Eats end zero p s l = absurd (omega arith)
parse_expr-Eats end (suc n) p s l = parse_or-Eats end n (parse_expr n) (parse_expr-Eats end n) p s l
