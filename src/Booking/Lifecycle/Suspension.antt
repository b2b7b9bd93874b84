-- ===== src/Booking/Lifecycle/Suspension.antt =====
-- The tiers of the refund on a suspension.
use sports_venue_management.Common.{ℕ, ◌+◌, ◌*◌, ◌<◌, ◌≤◌, ◌≡◌, arith}
use sports_venue_management.Common.Decimal.{round_div_near}
use sports_venue_management.Entities.{Booking}
use sports_venue_management.Booking.Lifecycle.{
  ms_per_hour, actual_paid_amount, instant, is_within, refund_percentage, suspension_refund,
}

-- The refund of a suspension is a number of whole pounds within half a pound of the tier's part of
-- what was paid: nothing if the booking starts within 3 hours, a half if it starts within 24, and
-- all of it otherwise.
pub suspension_refund_tiers :
    (now : ℕ) (b : Booking)
    → let p = actual_paid_amount b in
      let r = suspension_refund now b in
      let start = instant b b.start_time in
      (start < now + 3 * ms_per_hour → r ≡ 0)
      × (now + 3 * ms_per_hour ≤ start
          → start < now + 24 * ms_per_hour
          → (2 * r ≤ p + 100) × (p ≤ 2 * r + 100))
      × (now + 24 * ms_per_hour ≤ start → (r ≤ p + 50) × (p ≤ r + 50))
unfolding suspension_refund refund_percentage is_within
suspension_refund_tiers now b =
    let p = actual_paid_amount b in
    let none_back = round_div_near (p * 0) 10000 (omega arith) in
    let half_back = round_div_near (p * 50) 10000 (omega arith) in
    let all_back = round_div_near (p * 100) 10000 (omega arith) in
    ground (arith, none_back, half_back, all_back)
