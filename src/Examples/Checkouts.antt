-- ===== src/Examples/Checkouts.antt =====
-- The theorem on the whole of a request to book, applied.
use sports_venue_management.Common.{zero, suc, refl, true, none, some, [], ◌∷◌}
use sports_venue_management.Common.Outcome.{store_failure}
use sports_venue_management.Mongo.{list_mongo}
use sports_venue_management.Mongo.ListStore.{get, matching, drop_id}
use sports_venue_management.Wallet.{no_faults}
use sports_venue_management.Booking.Slots.{check_slots, check_slot, check_hours}
use sports_venue_management.Booking.Pricing.{price_slots}
use sports_venue_management.Booking.Discount.{slot_final_calculations}
use sports_venue_management.Booking.Plan.{payment_plan}
use sports_venue_management.Booking.Reserve.{create_all}
use sports_venue_management.Booking.Create.{create_booking}
use sports_venue_management.Booking.Order.{PayFaults, settle_each}
use sports_venue_management.Booking.Pay.{pay_at_the_venue, process_group_payment}
use sports_venue_management.Booking.PayBooking.{pay_group}
use sports_venue_management.Booking.Checkout.{checkout}
use sports_venue_management.Booking.Checkout.Holds.{KeepsOthers}
use sports_venue_management.Booking.Checkout.Undone.{checkout-KeepsOthers}
use sports_venue_management.Examples.Data.{
  paid_booking, platform, venue, body, context, platform-AreFresh,
}

-- the second booking of the group cannot be updated
abbrev half_settled : PayFaults
half_settled = record {
  debit = no_faults;
  refund = no_faults;
  settle = λ k. elim k [ zero ↦ none | suc m ↦ some store_failure ];
  create = none;
  coupon = none;
  commit = none;
  gateway = none;
  retry_debit = no_faults;
  retry_settle = λ k. none;
  retry_create = none;
  retry_coupon = none;
}

checkout-KeepsOthers_example :
    KeepsOthers list_mongo 8
      ((100, paid_booking) ∷ [])
      (checkout list_mongo true half_settled context
        (300, 301)
        none
        body
        ((3, venue) ∷ [])
        (platform paid_booking)).1.bookings
unfolding checkout create_booking check_slots check_slot get check_hours matching drop_id
    payment_plan create_all slot_final_calculations price_slots pay_group process_group_payment
    pay_at_the_venue settle_each
checkout-KeepsOthers_example =
    checkout-KeepsOthers list_mongo true half_settled context (300, 301) none body ((3, venue) ∷ [])
      (platform paid_booking) store_failure (platform-AreFresh paid_booking) refl
