-- ===== src/Query/Sort/Order.antt =====
-- The order that the sort of src/query/exec.rs goes by.
use skipper_db.Base.{ℕ, ◌≡◌, refl, false, [], ◌∷◌, compare, arith}
use skipper_db.Base.Int.{ℤ, pos, negsuc, cmp_ℤ}
use skipper_db.Base.Utf8.{Text, cmp_text}
use skipper_db.Types.{Value}
use skipper_db.Query.Eval.{value_order}
use skipper_db.Query.Sort.{reverse_order, is_gt}

compare_flip : (a b : ℕ) → compare b a ≡ reverse_order (compare a b)
compare_flip a b = ground arith

cmp_ℤ_flip : (a b : ℤ) → cmp_ℤ b a ≡ reverse_order (cmp_ℤ a b)
unfolding cmp_ℤ
cmp_ℤ_flip (pos a) (pos b) = ground arith
cmp_ℤ_flip (pos a) (negsuc b) = refl
cmp_ℤ_flip (negsuc a) (pos b) = refl
cmp_ℤ_flip (negsuc a) (negsuc b) = ground arith

cmp_text_flip : (s t : Text) → cmp_text t s ≡ reverse_order (cmp_text s t)
unfolding cmp_text
cmp_text_flip [] [] = refl
cmp_text_flip [] (b ∷ t) = refl
cmp_text_flip (a ∷ s) [] = refl
cmp_text_flip (a ∷ s) (b ∷ t) = ground (arith, cmp_text_flip s t)

pub value_order_flip : (x y : Value) → value_order y x ≡ reverse_order (value_order x y)
unfolding value_order
value_order_flip Value.null Value.null = refl
value_order_flip Value.null (Value.int n) = refl
value_order_flip Value.null (Value.text s) = refl
value_order_flip (Value.int n) Value.null = refl
value_order_flip (Value.text s) Value.null = refl
value_order_flip (Value.int m) (Value.int n) = cmp_ℤ_flip m n
value_order_flip (Value.text s) (Value.text t) = cmp_text_flip s t
value_order_flip (Value.int n) (Value.text s) = refl
value_order_flip (Value.text s) (Value.int n) = refl

cmp_ℤ_trans :
    (a b c : ℤ) → is_gt (cmp_ℤ a b) ≡ false → is_gt (cmp_ℤ b c) ≡ false → is_gt (cmp_ℤ a c) ≡ false
unfolding cmp_ℤ
cmp_ℤ_trans (pos a) (pos b) (pos c) h k = ground arith
cmp_ℤ_trans (pos a) (pos b) (negsuc c) h k = cc k
cmp_ℤ_trans (pos a) (negsuc b) c h k = cc h
cmp_ℤ_trans (negsuc a) b (pos c) h k = refl
cmp_ℤ_trans (negsuc a) (pos b) (negsuc c) h k = cc k
cmp_ℤ_trans (negsuc a) (negsuc b) (negsuc c) h k = ground arith

cmp_text_trans :
    (s t u : Text)
    → is_gt (cmp_text s t) ≡ false
    → is_gt (cmp_text t u) ≡ false
    → is_gt (cmp_text s u) ≡ false
unfolding cmp_text
cmp_text_trans [] t [] h k = refl
cmp_text_trans [] t (c ∷ u) h k = refl
cmp_text_trans (a ∷ s) [] u h k = cc h
cmp_text_trans (a ∷ s) (b ∷ t) [] h k = cc k
cmp_text_trans (a ∷ s) (b ∷ t) (c ∷ u) h k = ground (arith, cmp_text_trans s t u)

pub value_order_trans :
    (x y z : Value)
    → is_gt (value_order x y) ≡ false
    → is_gt (value_order y z) ≡ false
    → is_gt (value_order x z) ≡ false
unfolding value_order
value_order_trans Value.null y Value.null h k = refl
value_order_trans Value.null y (Value.int n) h k = refl
value_order_trans Value.null y (Value.text s) h k = refl
value_order_trans (Value.int m) Value.null z h k = cc h
value_order_trans (Value.int m) (Value.int n) Value.null h k = cc k
value_order_trans (Value.int m) (Value.int n) (Value.int o) h k = cmp_ℤ_trans m n o h k
value_order_trans (Value.int m) y (Value.text u) h k = refl
value_order_trans (Value.int m) (Value.text t) Value.null h k = cc k
value_order_trans (Value.int m) (Value.text t) (Value.int o) h k = cc k
value_order_trans (Value.text s) Value.null z h k = cc h
value_order_trans (Value.text s) (Value.int n) z h k = cc h
value_order_trans (Value.text s) (Value.text t) Value.null h k = cc k
value_order_trans (Value.text s) (Value.text t) (Value.int o) h k = cc k
value_order_trans (Value.text s) (Value.text t) (Value.text u) h k = cmp_text_trans s t u h k
