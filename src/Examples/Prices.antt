-- ===== src/Examples/Prices.antt =====
-- The theorems on slots, prices, discounts and payments of a group, applied.
use sports_venue_management.Common.{ℕ, ◌+◌, ◌<◌, ◌≡◌, refl, true, none, List, [], ◌∷◌, arith}
use sports_venue_management.Booking.Pricing.{
  price_slots, total_raw_price, hour_price, date_price, custom_price,
}
use sports_venue_management.Booking.Discount.{slot_final_calculations, SlotCalculation}
use sports_venue_management.Booking.Discount.Shares.{finals, finals-slot_final_calculations}
use sports_venue_management.Booking.Plan.{PaymentPlan}
use sports_venue_management.Examples.Data.{evening, night, venue}
use sports_venue_management.Common.Decimal.{round_div}

no_rule : (h : ℕ) → h < 19 → (date_price venue 20000 h ≡ none) × (custom_price venue h ≡ none)
unfolding date_price custom_price
no_rule h early = (refl, ground arith)

-- a discount of a third, over slots of 700 and 300 pounds
abbrev thirds : List SlotCalculation
thirds = slot_final_calculations 33333 100000 (price_slots venue 20000 (evening ∷ night ∷ []))

finals-slot_final_calculations_example :
    let prices = price_slots venue 20000 (evening ∷ night ∷ []) in
    finals (slot_final_calculations 33333 (total_raw_price prices) prices) + 33333
    ≡ total_raw_price prices
unfolding price_slots total_raw_price slot_final_calculations hour_price round_div
finals-slot_final_calculations_example =
    finals-slot_final_calculations 33333 (price_slots venue 20000 (evening ∷ night ∷ []))
      (omega arith) (omega arith) (omega arith)

-- an offer of 250 pounds, where the deposit for two slots is 200
abbrev plan : PaymentPlan
plan = record { amount_to_pay = 25000; is_deposit_only = true }
