-- ===== src/Query/Eval/Related.antt =====
-- What the comparisons of src/query/exec.rs are to say of two values.
use skipper_db.Base.{◌≡◌, ◌≢◌, sym, subst, Bool, true, false, Ordering}
use skipper_db.Base.Int.{cmp_ℤ}
use skipper_db.Base.Utf8.{cmp_text}
use skipper_db.Types.{Value}
use skipper_db.Parser.Ast.{CompareOp}
use skipper_db.Query.Eval.{op_holds, compare_values}
use skipper_db.Query.Eval.Values.{AtMost, TextAtMost, Compares, cmp_ℤ-Compares, cmp_text-Compares}

-- The operator's relation, in an order.
abbrev pub Satisfies : {A : Type 0} → (A → A → Type 0) → CompareOp → A → A → Type 0
Satisfies Le CompareOp.eq x y = x ≡ y
Satisfies Le CompareOp.not_eq x y = x ≢ y
Satisfies Le CompareOp.lt x y = Le x y × (x ≢ y)
Satisfies Le CompareOp.lt_eq x y = Le x y
Satisfies Le CompareOp.gt x y = Le y x × (x ≢ y)
Satisfies Le CompareOp.gt_eq x y = Le y x

-- NULLs and values of two types are in no relation.
abbrev pub Related : CompareOp → Value → Value → Type 0
Related op (Value.int m) (Value.int n) = Satisfies AtMost op m n
Related op (Value.text s) (Value.text t) = Satisfies TextAtMost op s t
Related op (Value.int m) (Value.text t) = ⊥
Related op (Value.int m) Value.null = ⊥
Related op (Value.text s) (Value.int n) = ⊥
Related op (Value.text s) Value.null = ⊥
Related op Value.null y = ⊥

-- The test says whether `P` holds.
abbrev pub Decides : Bool → Type 0 → Type 0
Decides true P = P
Decides false P = ¬ P

module _ {A : Type 0} (Le : A → A → Type 0) (x y : A) where
  lt-ne : Compares Le Ordering.lt x y → x ≢ y
  lt-ne c e = c.1 (subst (λ z. Le z x) e (subst (λ z. Le x z) (sym e) c.0))

  gt-ne : Compares Le Ordering.gt x y → x ≢ y
  gt-ne c e = c.1 (subst (λ z. Le x z) e (subst (λ z. Le z x) (sym e) c.0))

  back : Compares Le Ordering.eq x y → Le y x
  back c = subst (λ z. Le z x) c.0 (subst (λ z. Le x z) (sym c.0) c.1)

  op_holds-Satisfies :
      (op : CompareOp) (o : Ordering)
      → Compares Le o x y
      → Decides (op_holds op o) (Satisfies Le op x y)
  op_holds-Satisfies CompareOp.eq Ordering.lt c = lt-ne c
  op_holds-Satisfies CompareOp.eq Ordering.eq c = c.0
  op_holds-Satisfies CompareOp.eq Ordering.gt c = gt-ne c
  op_holds-Satisfies CompareOp.not_eq Ordering.lt c = lt-ne c
  op_holds-Satisfies CompareOp.not_eq Ordering.eq c = λ k. k c.0
  op_holds-Satisfies CompareOp.not_eq Ordering.gt c = gt-ne c
  op_holds-Satisfies CompareOp.lt Ordering.lt c = (c.0, lt-ne c)
  op_holds-Satisfies CompareOp.lt Ordering.eq c = λ k. k.1 c.0
  op_holds-Satisfies CompareOp.lt Ordering.gt c = λ k. c.1 k.0
  op_holds-Satisfies CompareOp.lt_eq Ordering.lt c = c.0
  op_holds-Satisfies CompareOp.lt_eq Ordering.eq c = c.1
  op_holds-Satisfies CompareOp.lt_eq Ordering.gt c = c.1
  op_holds-Satisfies CompareOp.gt Ordering.lt c = λ k. c.1 k.0
  op_holds-Satisfies CompareOp.gt Ordering.eq c = λ k. k.1 c.0
  op_holds-Satisfies CompareOp.gt Ordering.gt c = (c.0, gt-ne c)
  op_holds-Satisfies CompareOp.gt_eq Ordering.lt c = c.1
  op_holds-Satisfies CompareOp.gt_eq Ordering.eq c = back c
  op_holds-Satisfies CompareOp.gt_eq Ordering.gt c = c.0

pub compare_values-Related :
    (x : Value) (op : CompareOp) (y : Value) → Decides (compare_values x op y) (Related op x y)
unfolding compare_values
compare_values-Related (Value.int m) op (Value.int n) =
    op_holds-Satisfies AtMost m n op (cmp_ℤ m n) (cmp_ℤ-Compares m n)
compare_values-Related (Value.text s) op (Value.text t) =
    op_holds-Satisfies TextAtMost s t op (cmp_text s t) (cmp_text-Compares s t)
compare_values-Related (Value.int m) op (Value.text t) = λ k. k
compare_values-Related (Value.int m) op Value.null = λ k. k
compare_values-Related (Value.text s) op (Value.int n) = λ k. k
compare_values-Related (Value.text s) op Value.null = λ k. k
compare_values-Related Value.null op y = λ k. k
