-- ===== src/Parser/Descent.antt =====
-- src/parser/mod.rs: the recursive descent. The methods for expressions take the parser of the
-- expressions inside as an argument; fuel is spent by the nesting and by the rounds of each loop.
pub mod Statements
pub mod Loops
pub mod Total
pub mod Selects
pub mod Ends
pub mod Spelled
pub mod Inserts
mod Tests
use skipper_db.Base.{
  ℕ, zero, suc, Bool, true, false, List, [], ◌∷◌, Option, some, none, if◌then◌else◌,
}
use skipper_db.Base.Int.{ℤ}
use skipper_db.Base.Utf8.{Text, ascii, eq_ignore_ascii_case}
use skipper_db.Parser.Lexer.{TokenKind}
use skipper_db.Parser.Ast.{
  Literal, CompareOp, Expr, Exprs, column, literal, function, compare, and, or, no_exprs, exprs,
}
use skipper_db.Parser.State.{
  Parser, Parsed, parsed, out_of_fuel, ◌>>=◌, ◌>>◌, error, current, advance, eat_keyword, eat,
  expect, is_reserved,
}

abbrev pub Method : Type 0 → Type 0
Method A = Parser → Parsed A

-- `while self.eat(&Comma) { items.push(item?) }`
unfoldable pub more_items : {A : Type 0} → ℕ → Method A → Method (List A)
more_items zero item p = out_of_fuel
more_items (suc n) item p = do
  (more, p₁) ← eat TokenKind.comma p
  elim more [
    | false ↦ parsed [] p₁
    | true ↦ (do (x, p₂) ← item p₁; (xs, p₃) ← more_items n item p₂; parsed (x ∷ xs) p₃)
  ]

-- One item, and others behind commas.
unfoldable pub comma_list : {A : Type 0} → ℕ → Method A → Method (List A)
comma_list n item p = do (x, p₁) ← item p; (xs, p₂) ← more_items n item p₁; parsed (x ∷ xs) p₂

abbrev pub to_exprs : List Expr → Exprs
to_exprs [] = no_exprs
to_exprs (e ∷ es) = exprs e (to_exprs es)

unfoldable pub is_r_paren : TokenKind → Bool
is_r_paren TokenKind.r_paren = true
is_r_paren _ = false

-- The arguments of a function: none, if the parenthesis closes.
unfoldable pub args_of : ℕ → Method Expr → Bool → Method (List Expr)
args_of n expr true p = parsed [] p
args_of n expr false p = comma_list n expr p

-- Behind a name: a function's arguments, or nothing.
unfoldable pub name_or_call : ℕ → Method Expr → Text → Bool → Method Expr
name_or_call n expr name false p = parsed (column name) p
name_or_call n expr name true p = do
  (kind, _) ← current p
  (args, p₁) ← args_of n expr (is_r_paren kind) p
  (_, p₂) ← expect TokenKind.r_paren (ascii "')' after function arguments") p₁
  parsed (function name (to_exprs args)) p₂

unfoldable pub no_expression : Method Expr
no_expression p = error (ascii "expected an expression") p

unfoldable pub named : ℕ → Method Expr → Text → Method Expr
named n expr s p = do (call, p₁) ← eat TokenKind.l_paren (advance p); name_or_call n expr s call p₁

unfoldable pub primary_word : ℕ → Method Expr → Text → Method Expr
primary_word n expr s p =
    if eq_ignore_ascii_case s (ascii "NULL")
    then parsed (literal Literal.null) (advance p)
    else if is_reserved s
    then no_expression p
    else named n expr s p

unfoldable pub primary_of : ℕ → Method Expr → TokenKind → Method Expr
primary_of n expr TokenKind.l_paren p = do
  (e, p₁) ← expr (advance p)
  (_, p₂) ← expect TokenKind.r_paren (ascii "')' after expression") p₁
  parsed e p₂
primary_of n expr (TokenKind.int k) p = parsed (literal (Literal.int k)) (advance p)
primary_of n expr (TokenKind.str s) p = parsed (literal (Literal.str s)) (advance p)
primary_of n expr (TokenKind.ident s) p = primary_word n expr s p
primary_of n expr _ p = no_expression p

unfoldable pub parse_primary : ℕ → Method Expr → Method Expr
parse_primary n expr p = do (kind, _) ← current p; primary_of n expr kind p

unfoldable pub compare_op : TokenKind → Option CompareOp
compare_op TokenKind.eq = some CompareOp.eq
compare_op TokenKind.not_eq = some CompareOp.not_eq
compare_op TokenKind.lt = some CompareOp.lt
compare_op TokenKind.lt_eq = some CompareOp.lt_eq
compare_op TokenKind.gt = some CompareOp.gt
compare_op TokenKind.gt_eq = some CompareOp.gt_eq
compare_op _ = none

unfoldable pub take_op : Option CompareOp → Method (Option CompareOp)
take_op none p = parsed none p
take_op (some op) p = parsed (some op) (advance p)

unfoldable pub eat_compare_op : Method (Option CompareOp)
eat_compare_op p = do (kind, _) ← current p; take_op (compare_op kind) p

unfoldable pub compare_with : ℕ → Method Expr → Expr → Option CompareOp → Method Expr
compare_with n expr left none p = parsed left p
compare_with n expr left (some op) p = do
  (right, p₁) ← parse_primary n expr p
  parsed (compare left op right) p₁

unfoldable pub parse_compare : ℕ → Method Expr → Method Expr
parse_compare n expr p = do
  (left, p₁) ← parse_primary n expr p
  (op, p₂) ← eat_compare_op p₁
  compare_with n expr left op p₂

-- `while self.eat_keyword(word) { left = join(left, operand?) }`
unfoldable pub chain : ℕ → Text → (Expr → Expr → Expr) → Method Expr → Expr → Method Expr
chain zero word join operand left p = out_of_fuel
chain (suc n) word join operand left p = do
  (more, p₁) ← eat_keyword word p
  elim more [
    | false ↦ parsed left p₁
    | true ↦ (do (right, p₂) ← operand p₁; chain n word join operand (join left right) p₂)
  ]

unfoldable pub parse_and : ℕ → Method Expr → Method Expr
parse_and n expr p = do
  (left, p₁) ← parse_compare n expr p
  chain n (ascii "AND") and (parse_compare n expr) left p₁

unfoldable pub parse_or : ℕ → Method Expr → Method Expr
parse_or n expr p = do
  (left, p₁) ← parse_and n expr p
  chain n (ascii "OR") or (parse_and n expr) left p₁

-- `Parser::parse_expr`
unfoldable pub parse_expr : ℕ → Method Expr
parse_expr zero p = out_of_fuel
parse_expr (suc n) p = parse_or n (parse_expr n) p
