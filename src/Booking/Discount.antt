-- ===== src/Booking/Discount.antt =====
-- The discount of a group of slots, shared out over them: the loop over `slotPricings` of
-- `createBooking`. The last slot takes what the others left, which may be below zero where their
-- shares were rounded up.
pub mod Shares
use sports_venue_management.Common.{ℕ, ◌+◌, ◌-◌, ◌*◌, Bool, ◌&&◌, List, [], ◌∷◌, ltb, if◌then◌else◌}
use sports_venue_management.Common.Int.{ℤ, pos, pos_part, neg_part, sub_ℕ}
use sports_venue_management.Common.Decimal.{round_div}
use sports_venue_management.Booking.Pricing.{SlotPricing}

pub record SlotCalculation : Type 0 where
  pub start_time : ℕ
  pub end_time : ℕ
  pub total_price : ℕ
  pub discount_amount : ℤ
  pub final_price : ℕ

-- `Math.max(0, totalPrice - sDiscount)`
unfoldable pub final_price : ℕ → ℤ → ℕ
final_price total_price discount = (total_price + neg_part discount) - pos_part discount

unfoldable pub calculation : SlotPricing → ℤ → SlotCalculation
unfolding final_price
calculation p discount = record {
  start_time = p.start_time;
  end_time = p.end_time;
  total_price = p.total_price;
  discount_amount = discount;
  final_price = final_price p.total_price discount;
}

-- the share of a slot that is not the last
unfoldable pub share : ℕ → ℕ → SlotPricing → ℕ
share discount total p = round_div (p.total_price * discount) total

-- the rounds in which the group has a discount; `allocated` is `allocatedDiscount`
unfoldable pub allocate : ℕ → ℕ → ℕ → List SlotPricing → List SlotCalculation
unfolding calculation share
allocate discount total allocated [] = []
allocate discount total allocated (p ∷ []) = calculation p (sub_ℕ discount allocated) ∷ []
allocate discount total allocated (p ∷ q ∷ rest) =
    let s = share discount total p in
    calculation p (pos s) ∷ allocate discount total (allocated + s) (q ∷ rest)

-- the rounds in which it has none
unfoldable pub without_discount : List SlotPricing → List SlotCalculation
unfolding calculation
without_discount [] = []
without_discount (p ∷ rest) = calculation p (pos 0) ∷ without_discount rest

unfoldable pub slot_final_calculations : ℕ → ℕ → List SlotPricing → List SlotCalculation
unfolding allocate without_discount
slot_final_calculations discount total slots =
    if ltb 0 discount && ltb 0 total
    then allocate discount total 0 slots
    else without_discount slots
