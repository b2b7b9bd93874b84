-- ===== src/Common/Decimal.antt =====
-- Amounts of money are whole hundredths of a pound, and `Number(x.toFixed(2))` rounds an exact
-- quotient of such numbers to the nearest hundredth, a tie upwards.
use Prim.Native.Nat.{ℕ, ◌+◌, ◌*◌, ◌/◌, ◌≤◌, ◌<◌}
use native.Mathlib.Omega.{arith}
use native.Mathlib.Nat.{div-lt_iff_lt-mul}

-- The whole number nearest to n / d; the language leaves d = 0 to the caller.
unfoldable pub round_div : ℕ → ℕ → ℕ
round_div n d = (2 * n + d) / (2 * d)

-- Rounding moves a quotient by at most a half.
pub round_div_near :
    (n d : ℕ)
    → 0 < d
    → (2 * (d * round_div n d) ≤ 2 * n + d) × (2 * n < 2 * (d * round_div n d) + d + 1)
unfolding round_div
round_div_near n d h = (grind arith, grind arith)

-- A quotient of at most a whole number is rounded to at most that number.
pub round_div_le : (n m d : ℕ) → 0 < d → n ≤ m * d → round_div n d ≤ m
unfolding round_div
round_div_le n m d h k =
    let below : 2 * n + d < (m + 1) * (2 * d) = omega (arith, k) in
    let positive : 0 < 2 * d = omega arith in
    let quotient = (div-lt_iff_lt-mul {x = 2 * n + d} {y = m + 1} positive).1 below in omega arith
