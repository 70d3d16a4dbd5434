-- ===== src/Base/Decimal.antt =====
-- Integers in decimal, as `to_string` writes them.
use skipper_db.Base.Tests.{ltb, if◌then◌else◌}
use skipper_db.Base.Int.{ℤ, pos, negsuc}
use skipper_db.Base.Utf8.{Text}
use Prim.Native.Nat.{ℕ, zero, suc, ◌+◌, ◌/◌, ◌%◌}
use mathlib.Core.Path.{◌≡◌, refl}
use mathlib.Core.List.{[], ◌∷◌}

-- The digits of `n` in front of `rest`, for at most `fuel` digits.
decimal_loop : ℕ → ℕ → Text → Text
decimal_loop zero n rest = rest
decimal_loop (suc fuel) n rest =
    let more = decimal_loop fuel (n / 10) ((b'0' + n % 10) ∷ rest) in
    if ltb n 10 then (b'0' + n) ∷ rest else more

-- A 64-bit number has at most 20 digits.
unfoldable pub decimal : ℕ → Text
unfolding decimal_loop
decimal n = decimal_loop 20 n []

unfoldable pub decimal_ℤ : ℤ → Text
unfolding decimal
decimal_ℤ (pos n) = decimal n
decimal_ℤ (negsuc n) = b'-' ∷ decimal (suc n)

decimal_min : decimal_ℤ (negsuc 9223372036854775807) ≡ b'-' ∷ decimal 9223372036854775808
unfolding decimal_ℤ
decimal_min = refl
