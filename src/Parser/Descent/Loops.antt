-- ===== src/Parser/Descent/Loops.antt =====
-- The loops of src/parser/mod.rs come to an end: every round takes a token.
use skipper_db.Base.{ℕ, zero, suc, ◌≤◌, length, arith}
use skipper_db.Base.Utf8.{Text}
use skipper_db.Parser.Lexer.{TokenKind}
use skipper_db.Parser.Ast.{Expr}
use skipper_db.Parser.State.Streams.{
  good, Eats, Passes, Good-bind, Good-le, eat_keyword-Good, eat-Good,
}
use skipper_db.Parser.Descent.{Method, more_items, comma_list, chain}

module _ {A : Type 0} (end n : ℕ) (item : Method A) (eats : Eats end n item) where
  more_items-Passes : (m : ℕ) → m ≤ n → Passes end m (more_items m item)
  unfolding more_items
  more_items-Passes zero le p s l = absurd (omega arith)
  more_items-Passes (suc m) le p s l =
      eat-Good end (suc (length p)) p _ s TokenKind.comma (omega arith)
        (λ q s₁ l₁.
          Good-bind end (length q) (suc (length p)) (item q) _ (eats q s₁ (omega arith))
            (λ x r s₂ l₂.
              Good-bind end (suc (length r)) (suc (length p)) (more_items m item r) _
                (more_items-Passes m (omega arith) r s₂ (omega arith))
                (λ xs t s₃ l₃. good s₃ (omega arith))))
        (good s (omega arith))

  pub comma_list-Eats : Eats end n (comma_list n item)
  unfolding comma_list
  comma_list-Eats p s l = Good-bind end (length p) (length p) (item p) _ (eats p s l) (λ x q s₁ l₁.
      Good-bind end (suc (length q)) (length p) (more_items n item q) _
        (more_items-Passes n (omega arith) q s₁ (omega arith))
        (λ xs r s₂ l₂. good s₂ (omega arith)))

module _ (end n : ℕ) (word : Text) (join : Expr → Expr → Expr) (operand : Method Expr)
    (eats : Eats end n operand) where
  pub chain-Passes : (m : ℕ) (left : Expr) → m ≤ n → Passes end m (chain m word join operand left)
  unfolding chain
  chain-Passes zero left le p s l = absurd (omega arith)
  chain-Passes (suc m) left le p s l =
      eat_keyword-Good end (suc (length p)) p _ s word
        (λ q s₁ l₁.
          Good-bind end (length q) (suc (length p)) (operand q) _ (eats q s₁ (omega arith))
            (λ right r s₂ l₂.
              Good-le end (suc (length r)) (suc (length p)) _ (omega arith)
                (chain-Passes m (join left right) (omega arith) r s₂ (omega arith))))
        (good s (omega arith))
