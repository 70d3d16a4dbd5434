-- ===== src/Query/Eval/Values.antt =====
-- The order of the values, with no comparison of src/query/exec.rs in it, and what the comparisons
-- make of it.
use skipper_db.Base.{
  ℕ, ◌<◌, ◌≤◌, ◌≡◌, refl, ap, sym, subst, ◌⊎◌, inl, inr, [], ◌∷◌, Ordering, compare, arith,
  le_or_lt,
}
use skipper_db.Base.Int.{ℤ, pos, negsuc, cmp_ℤ}
use skipper_db.Base.Utf8.{Text, cmp_text}
use skipper_db.Types.{Value}
use skipper_db.Query.Eval.{value_order}

abbrev pub AtMost : ℤ → ℤ → Type 0
AtMost (pos a) (pos b) = a ≤ b
AtMost (pos a) (negsuc b) = ⊥
AtMost (negsuc a) (pos b) = Unit {0}
AtMost (negsuc a) (negsuc b) = b ≤ a

-- Byte by byte; a text is at most every text that it starts.
abbrev pub TextAtMost : Text → Text → Type 0
TextAtMost [] t = Unit {0}
TextAtMost (a ∷ s) [] = ⊥
TextAtMost (a ∷ s) (b ∷ t) = (a < b) ⊎ ((a ≡ b) × TextAtMost s t)

-- NULL is the least value; then come the integers, then the texts.
abbrev pub ValueAtMost : Value → Value → Type 0
ValueAtMost Value.null y = Unit {0}
ValueAtMost (Value.int m) Value.null = ⊥
ValueAtMost (Value.int m) (Value.int n) = AtMost m n
ValueAtMost (Value.int m) (Value.text t) = Unit {0}
ValueAtMost (Value.text s) Value.null = ⊥
ValueAtMost (Value.text s) (Value.int n) = ⊥
ValueAtMost (Value.text s) (Value.text t) = TextAtMost s t

-- What an outcome of a comparison says in an order.
abbrev pub Compares : {A : Type 0} → (A → A → Type 0) → Ordering → A → A → Type 0
Compares Le Ordering.lt x y = Le x y × (¬ Le y x)
Compares Le Ordering.eq x y = (x ≡ y) × Le x y
Compares Le Ordering.gt x y = Le y x × (¬ Le x y)

data CompareCases (a b : ℕ) : Type 0 where
  is_lt : compare a b ≡ Ordering.lt → a < b → CompareCases a b
  is_eq : compare a b ≡ Ordering.eq → a ≡ b → CompareCases a b
  is_gt : compare a b ≡ Ordering.gt → b < a → CompareCases a b

compare_cases : (a b : ℕ) → CompareCases a b
compare_cases a b = elim (le_or_lt b a) [
  | inr lt ↦ is_lt (ground arith) lt
  | inl le ↦ elim (le_or_lt a b) [
    | inl ge ↦ is_eq (ground arith) (omega arith)
    | inr gt ↦ is_gt (ground arith) gt
  ]
]

pub cmp_ℤ-Compares : (m n : ℤ) → Compares AtMost (cmp_ℤ m n) m n
unfolding cmp_ℤ
cmp_ℤ-Compares (pos a) (pos b) = elim (compare_cases a b) [
  | is_lt e h ↦ rw e (omega arith, λ k. omega arith)
  | is_eq e h ↦ rw e (ap pos h, omega arith)
  | is_gt e h ↦ rw e (omega arith, λ k. omega arith)
]
cmp_ℤ-Compares (pos a) (negsuc b) = (tt, λ k. k)
cmp_ℤ-Compares (negsuc a) (pos b) = (tt, λ k. k)
cmp_ℤ-Compares (negsuc a) (negsuc b) = elim (compare_cases b a) [
  | is_lt e h ↦ rw e (omega arith, λ k. omega arith)
  | is_eq e h ↦ rw e (ap negsuc (sym h), omega arith)
  | is_gt e h ↦ rw e (omega arith, λ k. omega arith)
]

TextAtMost-cons : (a b : ℕ) (s t : Text) → a ≡ b → ¬ TextAtMost s t → ¬ TextAtMost (a ∷ s) (b ∷ t)
TextAtMost-cons a b s t e not (inl h) = omega arith
TextAtMost-cons a b s t e not (inr h) = not h.1

same-Compares :
    (o : Ordering) (a b : ℕ) (s t : Text)
    → a ≡ b
    → Compares TextAtMost o s t
    → Compares TextAtMost o (a ∷ s) (b ∷ t)
same-Compares Ordering.lt a b s t e h = (inr (e, h.0), TextAtMost-cons b a t s (sym e) h.1)
same-Compares Ordering.eq a b s t e h = (cc (e, h.0), inr (e, h.1))
same-Compares Ordering.gt a b s t e h = (inr (sym e, h.0), TextAtMost-cons a b s t e h.1)

less-refutes : (a b : ℕ) (s t : Text) → a < b → ¬ TextAtMost (b ∷ t) (a ∷ s)
less-refutes a b s t h (inl k) = omega arith
less-refutes a b s t h (inr k) = omega (arith, k.0)

pub cmp_text-Compares : (s t : Text) → Compares TextAtMost (cmp_text s t) s t
unfolding cmp_text
cmp_text-Compares [] [] = (refl, tt)
cmp_text-Compares [] (b ∷ t) = (tt, λ k. k)
cmp_text-Compares (a ∷ s) [] = (tt, λ k. k)
cmp_text-Compares (a ∷ s) (b ∷ t) = elim (compare_cases a b) [
  | is_lt e h ↦
      let first : cmp_text (a ∷ s) (b ∷ t) ≡ Ordering.lt = rw (cmp_text, e) refl in
      rw first (inl h, less-refutes a b s t h)
  | is_eq e h ↦
      let first : cmp_text (a ∷ s) (b ∷ t) ≡ cmp_text s t = rw (cmp_text, e) refl in
      subst (λ o. Compares TextAtMost o (a ∷ s) (b ∷ t)) (sym first)
        (same-Compares (cmp_text s t) a b s t h (cmp_text-Compares s t))
  | is_gt e h ↦
      let first : cmp_text (a ∷ s) (b ∷ t) ≡ Ordering.gt = rw (cmp_text, e) refl in
      rw first (inl h, less-refutes b a t s h)
]

int-Compares :
    (o : Ordering) (m n : ℤ)
    → Compares AtMost o m n
    → Compares ValueAtMost o (Value.int m) (Value.int n)
int-Compares Ordering.lt m n h = h
int-Compares Ordering.eq m n h = (ap Value.int h.0, h.1)
int-Compares Ordering.gt m n h = h

text-Compares :
    (o : Ordering) (s t : Text)
    → Compares TextAtMost o s t
    → Compares ValueAtMost o (Value.text s) (Value.text t)
text-Compares Ordering.lt s t h = h
text-Compares Ordering.eq s t h = (ap Value.text h.0, h.1)
text-Compares Ordering.gt s t h = h

pub value_order-Compares : (x y : Value) → Compares ValueAtMost (value_order x y) x y
unfolding value_order
value_order-Compares Value.null Value.null = (refl, tt)
value_order-Compares Value.null (Value.int n) = (tt, λ k. k)
value_order-Compares Value.null (Value.text t) = (tt, λ k. k)
value_order-Compares (Value.int m) Value.null = (tt, λ k. k)
value_order-Compares (Value.int m) (Value.int n) = int-Compares (cmp_ℤ m n) m n (cmp_ℤ-Compares m n)
value_order-Compares (Value.int m) (Value.text t) = (tt, λ k. k)
value_order-Compares (Value.text s) Value.null = (tt, λ k. k)
value_order-Compares (Value.text s) (Value.int n) = (tt, λ k. k)
value_order-Compares (Value.text s) (Value.text t) =
    text-Compares (cmp_text s t) s t (cmp_text-Compares s t)
