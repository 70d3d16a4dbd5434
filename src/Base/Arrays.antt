-- ===== src/Base/Arrays.antt =====
-- Slices of a fixed array and `copy_from_slice` into it, with what a later slice reads back.
use Prim.Native.Nat.{ℕ, zero, suc, ◌+◌, ◌≤◌, ◌<◌}
use mathlib.Core.Path.{◌≡◌, refl, ap}
use mathlib.Core.Logic.{◌⊎◌, inl, inr}
use mathlib.Core.List.{List, [], ◌∷◌}
use native.Mathlib.Omega.{arith}
use skipper_db.Base.Lists.{length, get_or, take, drop, length-take, length-drop}

-- Two ranges, each an offset and a length, that share no index.
abbrev pub Apart : ℕ → ℕ → ℕ → ℕ → Type 0
Apart a n b m = (a + n ≤ b) ⊎ (b + m ≤ a)

module _ {ℓ} {A : Type ℓ} where
  -- `&xs[off..off + len]`
  abbrev pub slice : List A → ℕ → ℕ → List A
  slice xs off len = take len (drop off xs)

  -- `xs[off..off + ys.len()].copy_from_slice(ys)`; what does not fit is dropped
  unfoldable pub splice : List A → ℕ → List A → List A
  splice [] off ys = []
  splice (x ∷ xs) zero [] = x ∷ xs
  splice (x ∷ xs) zero (y ∷ ys) = y ∷ splice xs zero ys
  splice (x ∷ xs) (suc off) ys = x ∷ splice xs off ys

module _ {ℓ} {A : Type ℓ} where
  pub length-splice : (xs : List A) (off : ℕ) (ys : List A) → length (splice xs off ys) ≡ length xs
  unfolding splice
  length-splice [] off ys = refl
  length-splice (x ∷ xs) zero [] = refl
  length-splice (x ∷ xs) zero (y ∷ ys) = ap suc (length-splice xs zero ys)
  length-splice (x ∷ xs) (suc off) ys = ap suc (length-splice xs off ys)

  pub splice-nil : (xs : List A) (off : ℕ) → splice xs off [] ≡ xs
  unfolding splice
  splice-nil [] off = refl
  splice-nil (x ∷ xs) zero = refl
  splice-nil (x ∷ xs) (suc off) = ap (λ t. x ∷ t) (splice-nil xs off)

  pub slice-splice_self :
      (xs : List A) (off : ℕ) (ys : List A)
      → off + length ys ≤ length xs
      → slice (splice xs off ys) off (length ys) ≡ ys
  unfolding splice
  slice-splice_self [] zero [] h = refl
  slice-splice_self [] zero (y ∷ ys) h = absurd (omega arith)
  slice-splice_self [] (suc off) ys h = absurd (omega arith)
  slice-splice_self (x ∷ xs) zero [] h = refl
  slice-splice_self (x ∷ xs) zero (y ∷ ys) h =
      ap (λ t. y ∷ t) (slice-splice_self xs zero ys (omega arith))
  slice-splice_self (x ∷ xs) (suc off) ys h = slice-splice_self xs off ys (omega arith)

  pub take-splice :
      (xs : List A) (off : ℕ) (ys : List A) (n : ℕ)
      → n ≤ off
      → take n (splice xs off ys) ≡ take n xs
  unfolding splice
  take-splice xs off ys zero h = refl
  take-splice [] off ys (suc n) h = refl
  take-splice (x ∷ xs) zero ys (suc n) h = absurd (omega arith)
  take-splice (x ∷ xs) (suc off) ys (suc n) h =
      ap (λ t. x ∷ t) (take-splice xs off ys n (omega arith))

  pub drop-splice :
      (xs : List A) (off : ℕ) (ys : List A) (n : ℕ)
      → off + length ys ≤ n
      → drop n (splice xs off ys) ≡ drop n xs
  unfolding splice
  drop-splice [] off ys n h = refl
  drop-splice (x ∷ xs) zero [] n h = refl
  drop-splice (x ∷ xs) zero (y ∷ ys) zero h = absurd (omega arith)
  drop-splice (x ∷ xs) zero (y ∷ ys) (suc n) h = drop-splice xs zero ys n (omega arith)
  drop-splice (x ∷ xs) (suc off) ys zero h = absurd (omega arith)
  drop-splice (x ∷ xs) (suc off) ys (suc n) h = drop-splice xs off ys n (omega arith)

  -- A slice that ends before the write starts.
  slice-splice_before :
      (xs : List A) (off : ℕ) (ys : List A) (a n : ℕ)
      → a + n ≤ off
      → slice (splice xs off ys) a n ≡ slice xs a n
  unfolding splice
  slice-splice_before xs off ys zero n h = take-splice xs off ys n (omega arith)
  slice-splice_before [] off ys (suc a) n h = refl
  slice-splice_before (x ∷ xs) zero ys (suc a) n h = absurd (omega arith)
  slice-splice_before (x ∷ xs) (suc off) ys (suc a) n h =
      slice-splice_before xs off ys a n (omega arith)

  -- A write leaves every slice apart from it as it was.
  pub slice-splice-Apart :
      (xs : List A) (off : ℕ) (ys : List A) (a n : ℕ)
      → Apart a n off (length ys)
      → slice (splice xs off ys) a n ≡ slice xs a n
  slice-splice-Apart xs off ys a n (inl h) = slice-splice_before xs off ys a n h
  slice-splice-Apart xs off ys a n (inr h) = ap (take n) (drop-splice xs off ys a h)

  pub get_or-splice-Apart :
      (xs : List A) (off : ℕ) (ys : List A) (a : ℕ) (d : A)
      → Apart a 1 off (length ys)
      → get_or (splice xs off ys) a d ≡ get_or xs a d
  unfolding splice
  get_or-splice-Apart [] off ys a d h = refl
  get_or-splice-Apart (x ∷ xs) zero [] a d h = refl
  get_or-splice-Apart (x ∷ xs) zero (y ∷ ys) zero d h = absurd (omega arith)
  get_or-splice-Apart (x ∷ xs) zero (y ∷ ys) (suc a) d h =
      get_or-splice-Apart xs zero ys a d (omega arith)
  get_or-splice-Apart (x ∷ xs) (suc off) ys zero d h = refl
  get_or-splice-Apart (x ∷ xs) (suc off) ys (suc a) d h =
      get_or-splice-Apart xs off ys a d (omega arith)

  -- The write is read back, element by element.
  pub get_or-splice_in :
      (xs : List A) (off : ℕ) (ys : List A) (i k : ℕ) (d : A)
      → off + length ys ≤ length xs
      → k < length ys
      → i ≡ off + k
      → get_or (splice xs off ys) i d ≡ get_or ys k d
  unfolding splice
  get_or-splice_in [] off [] i k d h hk e = absurd (omega arith)
  get_or-splice_in [] off (y ∷ ys) i k d h hk e = absurd (omega arith)
  get_or-splice_in (x ∷ xs) zero [] i k d h hk e = absurd (omega arith)
  get_or-splice_in (x ∷ xs) zero (y ∷ ys) zero zero d h hk e = refl
  get_or-splice_in (x ∷ xs) zero (y ∷ ys) zero (suc k) d h hk e = absurd (omega arith)
  get_or-splice_in (x ∷ xs) zero (y ∷ ys) (suc i) zero d h hk e = absurd (omega arith)
  get_or-splice_in (x ∷ xs) zero (y ∷ ys) (suc i) (suc k) d h hk e =
      get_or-splice_in xs zero ys i k d (omega arith) (omega arith) (omega arith)
  get_or-splice_in (x ∷ xs) (suc off) ys zero k d h hk e = absurd (omega arith)
  get_or-splice_in (x ∷ xs) (suc off) ys (suc i) k d h hk e =
      get_or-splice_in xs off ys i k d (omega arith) hk (omega arith)

  pub length-slice : (xs : List A) (a n : ℕ) → a + n ≤ length xs → length (slice xs a n) ≡ n
  length-slice xs a n h = omega (arith, length-take n (drop a xs), length-drop a xs)
