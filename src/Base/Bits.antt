-- ===== src/Base/Bits.antt =====
-- Setting and testing one bit of a byte, by a table over every byte and every pair of bits.
use Prim.Native.Nat.{ℕ, zero, suc, ◌+◌, ◌*◌, ◌/◌, ◌%◌, ◌^◌, ◌<◌, bit_and, bit_or}
use mathlib.Core.Path.{◌≡◌, refl, subst, ap, ◌∙◌}
use mathlib.Core.Bool.{Bool, true, false, ◌&&◌, not}
use native.Mathlib.Omega.{arith}
use mathlib.Core.Logic.{◌≢◌}
use mathlib.Core.List.{List, [], ◌∷◌, ◌++◌}
use native.Mathlib.Decide.{ℕ_discrete}
use skipper_db.Base.Tests.{ltb, ◌==◌, if◌then◌else◌}
use skipper_db.Base.Words.{IsByte}
use skipper_db.Base.Lists.{
  length, get_or, get_or-append_left, set-append, set, replicate, get_or-replicate, length-set,
  get_or-set_self, get_or-set_ne, All,
}

-- The test passes at every number below the bound.
every : (ℕ → Bool) → ℕ → Bool
every test zero = true
every test (suc k) = if test k then every test k else false

every-apply : (test : ℕ → Bool) (k x : ℕ) → x < k → every test k ≡ true → test x ≡ true
unfolding every
every-apply test zero x low passed = absurd (omega arith)
every-apply test (suc k) x low passed = ground (arith, every-apply test k x)

-- `b | 1 << i`
unfoldable pub with_bit : ℕ → ℕ → ℕ
with_bit b i = bit_or b (2 ^ i)

-- `b & 1 << i != 0`
unfoldable pub has_bit : ℕ → ℕ → Bool
has_bit b i = not (bit_and b (2 ^ i) == 0)

abbrev same : Bool → Bool → Bool
same true b = b
same false b = not b

same→eq : (a b : Bool) → same a b ≡ true → a ≡ b
same→eq true b h = ground arith
same→eq false b h = ground arith

and_right : (a b : Bool) → (a && b) ≡ true → b ≡ true
and_right true b h = h
and_right false b h = cc

-- Setting bit `i` of the byte `b`, as bit `k` sees it.
set_law : ℕ → ℕ → ℕ → Bool
set_law b i k =
    ltb (with_bit b i) 256 && same (has_bit (with_bit b i) k) (if i == k then true else has_bit b k)

abbrev set_law_row : ℕ → Bool
set_law_row n = set_law (n / 64) (n / 8 % 8) (n % 8)

set_law_table : every set_law_row 16384 ≡ true
unfolding every set_law with_bit has_bit
set_law_table = refl

set_law_holds : (b i k : ℕ) → b < 256 → i < 8 → k < 8 → set_law b i k ≡ true
set_law_holds b i k hb hi hk =
    let n = (b * 8 + i) * 8 + k in
    let eb : n / 64 ≡ b = omega arith in
    let ei : n / 8 % 8 ≡ i = omega arith in
    let ek : n % 8 ≡ k = omega arith in
    let row : set_law_row n ≡ true = every-apply set_law_row 16384 n (omega arith) set_law_table in
    subst (λ x. set_law x i k ≡ true) eb
      (subst (λ x. set_law (n / 64) x k ≡ true) ei
        (subst (λ x. set_law (n / 64) (n / 8 % 8) x ≡ true) ek row))

with_bit-IsByte : (b i : ℕ) → b < 256 → i < 8 → with_bit b i < 256
with_bit-IsByte b i hb hi =
    let row = set_law_holds b i 0 hb hi (omega arith) in unfold set_law in ground arith

has_bit-with_bit :
    (b i k : ℕ)
    → b < 256
    → i < 8
    → k < 8
    → has_bit (with_bit b i) k ≡ (if i == k then true else has_bit b k)
unfolding set_law
has_bit-with_bit b i k hb hi hk = same→eq _ _ (and_right _ _ (set_law_holds b i k hb hi hk))

-- `buf[i / 8] |= 1 << (i % 8)`
unfoldable pub set_bit : List ℕ → ℕ → List ℕ
set_bit bm i = set bm (i / 8) (with_bit (get_or bm (i / 8) 0) (i % 8))

-- `bitmap[i / 8] & (1 << (i % 8)) != 0`
unfoldable pub test_bit : List ℕ → ℕ → Bool
test_bit bm i = has_bit (get_or bm (i / 8) 0) (i % 8)

pub length-set_bit : (bm : List ℕ) (i : ℕ) → length (set_bit bm i) ≡ length bm
unfolding set_bit
length-set_bit bm i = length-set bm (i / 8) _

get_or-IsByte : (bm : List ℕ) (i : ℕ) → All IsByte bm → get_or bm i 0 < 256
get_or-IsByte [] i h = omega arith
get_or-IsByte (b ∷ bm) zero h = h.0
get_or-IsByte (b ∷ bm) (suc i) h = get_or-IsByte bm i h.1

set-IsByte : (bm : List ℕ) (i v : ℕ) → All IsByte bm → v < 256 → All IsByte (set bm i v)
set-IsByte [] i v h hv = tt
set-IsByte (b ∷ bm) zero v h hv = (hv, h.1)
set-IsByte (b ∷ bm) (suc i) v h hv = (h.0, set-IsByte bm i v h.1 hv)

pub set_bit-IsByte : (bm : List ℕ) (i : ℕ) → All IsByte bm → All IsByte (set_bit bm i)
unfolding set_bit
set_bit-IsByte bm i h =
    set-IsByte bm (i / 8) _ h
      (with_bit-IsByte (get_or bm (i / 8) 0) (i % 8) (get_or-IsByte bm (i / 8) h) (omega arith))

no_bit_table : every (λ k. not (has_bit 0 k)) 8 ≡ true
unfolding every has_bit
no_bit_table = refl

no_bit : (k : ℕ) → k < 8 → has_bit 0 k ≡ false
no_bit k h =
    let row = every-apply (λ k. not (has_bit 0 k)) 8 k h no_bit_table in ground (arith, row)

same_byte : (i k : ℕ) → i / 8 ≡ k / 8 → (i % 8 == k % 8) ≡ (i == k)
same_byte i k e = ground arith

other_byte : (i k : ℕ) → i / 8 ≢ k / 8 → (i == k) ≡ false
other_byte i k n = ground arith

-- A bit that was set reads as set, and every other bit reads as before.
pub test_bit-set_bit :
    (bm : List ℕ) (i k : ℕ)
    → All IsByte bm
    → i / 8 < length bm
    → test_bit (set_bit bm i) k ≡ (if i == k then true else test_bit bm k)
unfolding set_bit test_bit
test_bit-set_bit bm i k h hi = elim (ℕ_discrete (i / 8) (k / 8)) [
  | yes e ↦
      rw (← e, get_or-set_self bm (i / 8) _ 0 hi)
        (has_bit-with_bit (get_or bm (i / 8) 0) (i % 8) (k % 8) (get_or-IsByte bm (i / 8) h)
            (omega arith) (omega arith)
          ∙ ap (λ b. if b then true else has_bit (get_or bm (i / 8) 0) (k % 8)) (same_byte i k e))
  | no n ↦ rw (get_or-set_ne bm (i / 8) (k / 8) _ 0 n, other_byte i k n)
]

-- No bit of zero bytes is set.
pub test_bit-replicate : (n k : ℕ) → test_bit (replicate n 0) k ≡ false
unfolding test_bit
test_bit-replicate n k = rw (get_or-replicate {A = ℕ} n (k / 8) 0) (no_bit (k % 8) (omega arith))

pub set_bit-append :
    (bm pl : List ℕ) (i : ℕ) → i / 8 < length bm → set_bit (bm ++ pl) i ≡ set_bit bm i ++ pl
unfolding set_bit
set_bit-append bm pl i h = rw (
  get_or-append_left bm pl (i / 8) 0 h,
  set-append bm pl (i / 8) (with_bit (get_or bm (i / 8) 0) (i % 8)) h,
)
