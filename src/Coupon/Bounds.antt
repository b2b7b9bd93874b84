-- ===== src/Coupon/Bounds.antt =====
-- Bounds of the coupon calculation.
use sports_venue_management.Common.{ℕ, ◌+◌, ◌-◌, ◌*◌, ◌≤◌, min, ◌≡◌, arith}
use sports_venue_management.Common.Decimal.{round_div}
use sports_venue_management.Entities.{DiscountType, percentage, fixed}
use sports_venue_management.Coupon.Calculator.{calculate_coupon_discount, DiscountResult}

abbrev pub TotalsWithin : ℕ → DiscountResult → Type 0
TotalsWithin b r =
    (r.discount_amount ≤ b)
    × (r.final_price ≤ b)
    × (b ≤ r.discount_amount + r.final_price)
    × (r.discount_amount + r.final_price ≤ b + 1)

-- For every coupon and every amount, the discount and the final price are each at most the amount,
-- and together they are the amount or one hundredth more.
pub calculate_coupon_discount_totals :
    (t : DiscountType) (d b : ℕ) → TotalsWithin b (calculate_coupon_discount t d b)
unfolding calculate_coupon_discount round_div
calculate_coupon_discount_totals t d b = omega arith

-- A fixed coupon takes off its value, or the whole amount where that is less, and no rounding
-- takes place: what is left to pay is the amount less the discount.
pub calculate_coupon_discount_fixed :
    (d b : ℕ)
    → ((calculate_coupon_discount fixed d b).discount_amount ≡ min d b)
      × ((calculate_coupon_discount fixed d b).final_price ≡ b - d)
unfolding calculate_coupon_discount round_div
calculate_coupon_discount_fixed d b = omega arith

round_div_mono : (n m : ℕ) → n ≤ m → round_div n 10000 ≤ round_div m 10000
unfolding round_div
round_div_mono n m h = omega arith

round_div_zero : (n : ℕ) → n ≡ 0 → round_div n 10000 ≡ 0
unfolding round_div
round_div_zero n h = omega arith

le_of_rates :
    (d e b : ℕ) → d ≤ e → b * 10000 - min (b * e) (b * 10000) ≤ b * 10000 - min (b * d) (b * 10000)
le_of_rates d e b h = let m : b * d ≤ b * e = grind arith in omega arith

all_taken : (e b : ℕ) → 10000 ≤ e → b * 10000 - min (b * e) (b * 10000) ≡ 0
all_taken e b h = let m : b * 10000 ≤ b * e = grind arith in omega arith

-- A percentage coupon of a higher rate never leaves more to pay, and a coupon of 100 percent or
-- more leaves nothing.
pub calculate_coupon_discount_rate :
    (d e b : ℕ)
    → d ≤ e
    → ((calculate_coupon_discount percentage e b).final_price
        ≤ (calculate_coupon_discount percentage d b).final_price)
      × (10000 ≤ e → (calculate_coupon_discount percentage e b).final_price ≡ 0)
unfolding calculate_coupon_discount
calculate_coupon_discount_rate d e b h =
    (round_div_mono _ _ (le_of_rates d e b h), λ full. round_div_zero _ (all_taken e b full))
