-- ===== src/Base/Int.antt =====
-- `i64`: a signed integer, with its two's complement in eight little-endian bytes.
use Prim.Native.Nat.{ℕ, ◌-◌, ◌*◌, ◌^◌, ◌<◌, compare, Ordering}
use mathlib.Core.Path.{◌≡◌, ap, ◌∙◌}
use mathlib.Core.List.{List}
use mathlib.Core.Logic.{inl, inr}
use native.Mathlib.Omega.{arith}
use skipper_db.Base.Tests.{ltb, if◌then◌else◌, le→ltb, lt→ltb, le_or_lt}
use skipper_db.Base.Lists.{length, All}
use skipper_db.Base.Words.{to_le, from_le, length-to_le, from_le-to_le, IsByte, from_le_bound}

-- `negsuc n` is -(n + 1).
pub data ℤ : Type 0 where
  pos : ℕ → ℤ
  negsuc : ℕ → ℤ

abbrev pub i64_half : ℕ
i64_half = 9223372036854775808

abbrev pub IsI64 : ℤ → Type 0
IsI64 (pos n) = n < i64_half
IsI64 (negsuc n) = n < i64_half

-- The order of the integers, as `Ord::cmp` gives it.
unfoldable pub cmp_ℤ : ℤ → ℤ → Ordering
cmp_ℤ (pos a) (pos b) = compare a b
cmp_ℤ (pos a) (negsuc b) = Ordering.gt
cmp_ℤ (negsuc a) (pos b) = Ordering.lt
cmp_ℤ (negsuc a) (negsuc b) = compare b a

-- The bit pattern of an `i64`, and the `i64` of a bit pattern below 2 ^ 64.
abbrev pub i64_bits : ℤ → ℕ
i64_bits (pos n) = n
i64_bits (negsuc n) = 2 * i64_half - 1 - n

abbrev pub i64_of_bits : ℕ → ℤ
i64_of_bits v = if ltb v i64_half then pos v else negsuc (2 * i64_half - 1 - v)

-- `i64::to_le_bytes` and `i64::from_le_bytes`
unfoldable pub i64_to_le : ℤ → List ℕ
i64_to_le n = to_le 8 (i64_bits n)

unfoldable pub i64_from_le : List ℕ → ℤ
i64_from_le bs = i64_of_bits (from_le bs)

pub length-i64_to_le : (n : ℤ) → length (i64_to_le n) ≡ 8
unfolding i64_to_le
length-i64_to_le n = length-to_le 8 (i64_bits n)

i64_bits_lt : (n : ℤ) → IsI64 n → i64_bits n < 256 ^ 8
i64_bits_lt (pos n) h = omega arith
i64_bits_lt (negsuc n) h = omega arith

i64_of_bits-i64_bits : (n : ℤ) → IsI64 n → i64_of_bits (i64_bits n) ≡ n
i64_of_bits-i64_bits (pos n) h = ground arith
i64_of_bits-i64_bits (negsuc n) h = ground arith

i64_of_bits-IsI64 : (v : ℕ) → v < 2 * i64_half → IsI64 (i64_of_bits v)
i64_of_bits-IsI64 v h = elim (le_or_lt i64_half v) [
  | inl high ↦ rw (le→ltb v i64_half high) (omega arith)
  | inr low ↦ rw (lt→ltb v i64_half low) low
]

pub i64_from_le-i64_to_le : (n : ℤ) → IsI64 n → i64_from_le (i64_to_le n) ≡ n
unfolding i64_from_le i64_to_le
i64_from_le-i64_to_le n h =
    ap i64_of_bits (from_le-to_le 8 (i64_bits n) (i64_bits_lt n h)) ∙ i64_of_bits-i64_bits n h

pub i64_from_le-IsI64 : (bs : List ℕ) → All IsByte bs → length bs ≡ 8 → IsI64 (i64_from_le bs)
unfolding i64_from_le
i64_from_le-IsI64 bs h n =
    let fits : from_le bs < 2 * i64_half = omega (arith, from_le_bound bs h, ap (λ k. 256 ^ k) n) in
    i64_of_bits-IsI64 (from_le bs) fits
