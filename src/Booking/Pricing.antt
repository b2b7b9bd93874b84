-- ===== src/Booking/Pricing.antt =====
-- The price of the slots: the loops over slots and hours of `createBooking`. The date of a rule and
-- of the booking are day numbers, which the code compares as text.
pub mod Totals
use sports_venue_management.Common.{
  ℕ, zero, suc, ◌+◌, ◌-◌, ◌&&◌, Option, none, some, List, [], ◌∷◌, find?, sum_by, ltb, leb, ◌==◌,
}
use sports_venue_management.Entities.{Venue, HourPrice, DatePrice}
use sports_venue_management.Booking.Slots.{Slot}

pub record SlotPricing : Type 0 where
  pub start_time : ℕ
  pub end_time : ℕ
  pub total_price : ℕ

-- 1. the price of a rule for the date and the hour
unfoldable pub date_price : Venue → ℕ → ℕ → Option DatePrice
date_price venue day hour =
    find? (λ r. (r.date == day) && (leb r.start_hour hour && ltb hour r.end_hour))
      venue.custom_date_prices

-- 2. the recurring price of the hour
unfoldable pub custom_price : Venue → ℕ → Option HourPrice
custom_price venue hour = find? (λ c. c.hour == hour) venue.custom_hour_prices

-- the first of the two that exists, else 3. the venue's default
unfoldable pub hour_price : Venue → ℕ → ℕ → ℕ
unfolding date_price custom_price
hour_price venue day hour = elim (date_price venue day hour) [
  | some rule ↦ rule.price_per_hour
  | none ↦ elim (custom_price venue hour) [
    | some custom ↦ custom.price_per_hour
    | none ↦ venue.default_hour_price
  ]
]

-- `for (let hour = start; hour < end; hour++)`, with the number of rounds
unfoldable pub price_hours : Venue → ℕ → ℕ → ℕ → ℕ
price_hours venue day hour zero = 0
price_hours venue day hour (suc rounds) =
    hour_price venue day hour + price_hours venue day (hour + 1) rounds

unfoldable pub price_slot : Venue → ℕ → Slot → SlotPricing
unfolding price_hours
price_slot venue day s = record {
  start_time = s.start_time;
  end_time = s.end_time;
  total_price = price_hours venue day s.start_time (s.end_time - s.start_time);
}

unfoldable pub price_slots : Venue → ℕ → List Slot → List SlotPricing
unfolding price_slot
price_slots venue day [] = []
price_slots venue day (s ∷ rest) = price_slot venue day s ∷ price_slots venue day rest

-- `totalRawPrice`
unfoldable pub total_raw_price : List SlotPricing → ℕ
total_raw_price = sum_by (λ p. p.total_price)
