-- ===== src/Booking/Checkout/Ordered.antt =====
-- A payment follows every creation of bookings.
use sports_venue_management.Common.{ℕ, ◌*◌, ◌≡◌, Option, some, List, inl, inr, length, arith}
use sports_venue_management.Common.Outcome.{ok, Result-cases}
use sports_venue_management.Entities.{Booking, Venue}
use sports_venue_management.Mongo.{Mongo}
use sports_venue_management.Platform.{Platform}
use sports_venue_management.Booking.Pricing.{price_slots, total_raw_price}
use sports_venue_management.Booking.Plan.{payment_plan}
use sports_venue_management.Booking.Reserve.{clear_slots, ms_per_day}
use sports_venue_management.Booking.Create.{
  Context, CreateBody, check_request, price_group, book, create_booking,
}
use sports_venue_management.Booking.Order.{Order}
use sports_venue_management.Booking.Checkout.{order_for}

module _ (mongo : Mongo) where
  open mongo use {Docs, find_by_id}

  check_request-venue :
      (x : Context) (body : CreateBody) (o : Option Venue) (v : Venue)
      → check_request mongo x body o ≡ ok v
      → o ≡ some v
  unfolding check_request
  check_request-venue x body o v h = ground (arith, h)

  book-order_for :
      (x : Context) (ids : ℕ × ℕ) (body : CreateBody) (venues : Docs Venue) (v : Venue)
      (p : Platform mongo) (d : Docs Booking) (created : List (ℕ × Booking))
      → find_by_id venues body.venue_id ≡ some v
      → (book mongo x body v (record p { bookings = d })).0 ≡ ok created
      → (o : Order) × (order_for mongo x ids body venues p ≡ ok o)
  unfolding book order_for
  book-order_for x ids body venues v p d created stored h =
      let total = total_raw_price (price_slots v body.day body.slots) in
      elim (Result-cases (price_group mongo x.now body.coupon_code total p.coupons)) [
        | inl (e, refused) ↦ absurd (cc (rw (book, refused) at h))
        | inr (g, priced) ↦
            elim (Result-cases (
              payment_plan v.minimum_deposit_amount body.custom_amount (length body.slots)
                g.final)) [
                  | inl (e, refused) ↦ absurd (cc (rw (book, priced, refused) at h))
                  | inr (plan, planned) ↦
                      elim (Result-cases (order_for mongo x ids body venues p)) [
                        | inl (e, failed) ↦
                            absurd (cc (rw (order_for, stored, priced, planned) at failed))
                        | inr ordered ↦ ordered
                      ]
                ]
      ]

  -- Where a request has created its bookings, the arguments of the payment can be computed again.
  pub create_booking-order_for :
      (x : Context) (ids : ℕ × ℕ) (body : CreateBody) (venues : Docs Venue) (p : Platform mongo)
      (created : List (ℕ × Booking))
      → (create_booking mongo x body venues p).0 ≡ ok created
      → (o : Order) × (order_for mongo x ids body venues p ≡ ok o)
  unfolding create_booking
  create_booking-order_for x ids body venues p created h =
      let found = find_by_id venues body.venue_id in
      let cleared =
        clear_slots mongo x.now x.user body.venue_id (body.day * ms_per_day) body.slots
          p.bookings in
      elim (Result-cases (check_request mongo x body found)) [
        | inl (e, refused) ↦ absurd (cc (rw (refused, create_booking) at h))
        | inr (v, accepted) ↦ elim (Result-cases cleared.0) [
          | inl (e, taken) ↦ absurd (cc (rw (accepted, create_booking, taken) at h))
          | inr (u, free) ↦
              book-order_for x ids body venues v p cleared.1 created
                (check_request-venue x body found v accepted)
                (rw (accepted, create_booking, free) at h)
        ]
      ]
