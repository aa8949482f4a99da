-- ===== src/Promotions/Double.antt =====
-- The double-precision arithmetic that apps/api/src/promotions.service.ts does with amounts, as the
-- language defines it: a number from 0 on is a whole number over a power of 2, and a product or a
-- quotient is rounded to 53 significant bits, a tie to the even one.
pub mod Bounds
use Prim.Native.Nat.{◌^◌}
use daja_platform.Base.{ℕ, zero, suc, ◌+◌, ◌*◌, ◌/◌, ◌%◌, ◌&&◌, ◌||◌, ◌==◌, ltb, if◌then◌else◌}

-- The multiple of `q` nearest to `x`.
unfoldable pub round_to : ℕ → ℕ → ℕ
round_to q x =
    if ltb (2 * (x % q)) q || (2 * (x % q) == q && x / q % 2 == 0)
    then x / q * q
    else (x / q + 1) * q

-- How many of the bits are more than 53.
unfoldable pub spare_bits : ℕ → ℕ → ℕ
spare_bits zero x = 0
spare_bits (suc fuel) x =
    let rest = spare_bits fuel (x / 2) in if ltb x (2 ^ 53) then 0 else suc rest

-- A number of 309 bits at most is rounded, as Promotions/Double/Bounds shows, and each number here
-- has fewer: its factors are doubles, of 53 bits each, and a power of 2 up to 2 ^ 120.
unfoldable pub to_double : ℕ → ℕ
unfolding round_to spare_bits
to_double x = round_to (2 ^ spare_bits 256 x) x

-- `Math.round` of a whole number over a power of 2: halves go up.
unfoldable pub math_round : ℕ → ℕ → ℕ
math_round x e = (2 * x + 2 ^ e) / (2 * 2 ^ e)

-- `value / 100`, over 2 ^ 120. A quotient that is not exact has, with this many bits kept, its bits
-- after the 53rd neither all 0 nor 1 and then all 0, so that cutting it first changes no rounding.
unfoldable pub hundredth : ℕ → ℕ
unfolding to_double
hundredth value = to_double (value * 2 ^ 120 / 100)

-- `Math.round(base * (value / 100))`
unfoldable pub percent : ℕ → ℕ → ℕ
unfolding hundredth to_double math_round
percent base value = math_round (to_double (base * hundredth value)) 120
