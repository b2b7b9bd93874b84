-- ===== src/Coupon/Calculator.antt =====
-- src/modules/coupon/utils/coupon-calculator.utils.ts. A discount is in hundredths: of a pound, or of
-- a percent. Before rounding, sums are exact in ten-thousandths of a hundredth of a pound.
use sports_venue_management.Common.{ℕ, ◌-◌, ◌*◌, min}
use sports_venue_management.Common.Decimal.{round_div}
use sports_venue_management.Entities.{DiscountType, percentage, fixed}

pub record DiscountResult : Type 0 where
  pub discount_amount : ℕ
  pub final_price : ℕ

-- the branches on `discountType`
unfoldable pub nominal_discount : DiscountType → ℕ → ℕ → ℕ
nominal_discount percentage discount booking_amount = booking_amount * discount
nominal_discount fixed discount booking_amount = discount * 10000

unfoldable pub calculate_coupon_discount : DiscountType → ℕ → ℕ → DiscountResult
unfolding nominal_discount
calculate_coupon_discount discount_type discount booking_amount =
    let taken =
      min (nominal_discount discount_type discount booking_amount) (booking_amount * 10000) in
    record {
      discount_amount = round_div taken 10000;
      final_price = round_div (booking_amount * 10000 - taken) 10000;
    }
