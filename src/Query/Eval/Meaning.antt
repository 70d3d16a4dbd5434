-- ===== src/Query/Eval/Meaning.antt =====
-- What an expression of src/parser/ast.rs means on a row.
use skipper_db.Base.{◌≡◌, ◌≢◌, sym, ◌∙◌, subst, ◌⊎◌, inl, inr, List}
use skipper_db.Base.Int.{pos}
use skipper_db.Base.Utf8.{Text}
use skipper_db.Types.{Value}
use skipper_db.Parser.Ast.{
  CompareOp, Expr, Exprs, column, literal, function, compare, and, or, no_exprs, exprs,
}
use skipper_db.Query.Eval.{Row, to_value}
use skipper_db.Query.Eval.Leaves.{IsUnder, IsCall, IsUnder-unique, IsCall-unique}
use skipper_db.Query.Eval.Related.{Related}

abbrev pub IsNonzero : Value → Type 0
IsNonzero (Value.int n) = n ≢ pos 0
IsNonzero (Value.text s) = ⊥
IsNonzero Value.null = ⊥

-- 1 if `P` holds, and 0 if it does not.
abbrev pub IsBit : Type 0 → Value → Type 0
IsBit P v = (P × (v ≡ Value.int (pos 1))) ⊎ ((¬ P) × (v ≡ Value.int (pos 0)))

-- Some values of the two sides are in the operator's relation.
abbrev pub AreRelated : CompareOp → (Value → Type 0) → (Value → Type 0) → Type 0
AreRelated op L R = (x : Value) × (y : Value) × L x × R y × Related op x y

-- The value of an expression on a row, and whether it holds there: a column and a call as in
-- Eval/Leaves, a comparison by the values of its
-- sides, AND and OR as in logic with two truth values, and another expression if it is not 0.
unfoldable mutual
  pub HasValue : Row → List Text → Expr → Value → Type 0
  HasValue row columns (column name) v = IsUnder name columns row v
  HasValue row columns (literal l) v = to_value l ≡ v
  HasValue row columns (function name args) v =
      (x : Value) × HasFirst row columns args x × IsCall name x v
  HasValue row columns (compare l op r) v =
      IsBit (AreRelated op (HasValue row columns l) (HasValue row columns r)) v
  HasValue row columns (and l r) v = IsBit (Holds row columns l × Holds row columns r) v
  HasValue row columns (or l r) v = IsBit (Holds row columns l ⊎ Holds row columns r) v

  pub HasFirst : Row → List Text → Exprs → Value → Type 0
  HasFirst row columns no_exprs v = ⊥
  HasFirst row columns (exprs e es) v = HasValue row columns e v

  pub Holds : Row → List Text → Expr → Type 0
  Holds row columns (column name) = (v : Value) × IsUnder name columns row v × IsNonzero v
  Holds row columns (literal l) = IsNonzero (to_value l)
  Holds row columns (function name args) =
      (v : Value) × ((x : Value) × HasFirst row columns args x × IsCall name x v) × IsNonzero v
  Holds row columns (compare l op r) =
      AreRelated op (HasValue row columns l) (HasValue row columns r)
  Holds row columns (and l r) = Holds row columns l × Holds row columns r
  Holds row columns (or l r) = Holds row columns l ⊎ Holds row columns r

IsBit-unique : (P : Type 0) (v w : Value) → IsBit P v → IsBit P w → v ≡ w
IsBit-unique P v w (inl h) (inl k) = h.1 ∙ sym k.1
IsBit-unique P v w (inl h) (inr k) = absurd (k.0 h.0)
IsBit-unique P v w (inr h) (inl k) = absurd (h.0 k.0)
IsBit-unique P v w (inr h) (inr k) = h.1 ∙ sym k.1

mutual
  unfolding HasValue HasFirst Holds

  pub HasValue-unique :
      (row : Row) (columns : List Text) (e : Expr) (v w : Value)
      → HasValue row columns e v
      → HasValue row columns e w
      → v ≡ w
  HasValue-unique row columns (column name) v w h k = IsUnder-unique name columns row v w h k
  HasValue-unique row columns (literal l) v w h k = sym h ∙ k
  HasValue-unique row columns (function name args) v w (x, hx, h) (y, hy, k) =
      let same = HasFirst-unique row columns args x y hx hy in
      IsCall-unique name y v w (subst (λ z. IsCall name z v) same h) k
  HasValue-unique row columns (compare l op r) v w h k = IsBit-unique _ v w h k
  HasValue-unique row columns (and l r) v w h k = IsBit-unique _ v w h k
  HasValue-unique row columns (or l r) v w h k = IsBit-unique _ v w h k

  pub HasFirst-unique :
      (row : Row) (columns : List Text) (es : Exprs) (v w : Value)
      → HasFirst row columns es v
      → HasFirst row columns es w
      → v ≡ w
  HasFirst-unique row columns no_exprs v w h k = absurd h
  HasFirst-unique row columns (exprs e es) v w h k = HasValue-unique row columns e v w h k
