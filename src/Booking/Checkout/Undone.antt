-- ===== src/Booking/Checkout/Undone.antt =====
-- A checkout that throws, whether at a check, at a creation or at the payment.
use sports_venue_management.Common.{
  ℕ, ◌*◌, ◌≡◌, refl, Bool, ◌⊎◌, inl, inr, Option, none, List, [], ◌∷◌, length, arith, sym, ◌∙◌,
}
use sports_venue_management.Common.Outcome.{Error, Result, ok, err, Result-cases}
use sports_venue_management.Entities.{Booking, PaymentStatus, Venue}
use sports_venue_management.Mongo.{Mongo, IdIn}
use sports_venue_management.Platform.{Platform}
use sports_venue_management.Booking.Pricing.{price_slots, total_raw_price}
use sports_venue_management.Booking.Discount.{slot_final_calculations}
use sports_venue_management.Booking.Plan.{payment_plan}
use sports_venue_management.Booking.Reserve.{delete_all, clear_slots, create_all, ms_per_day}
use sports_venue_management.Booking.Reserve.Atomic.{
  AreFresh, nothing_created, create_all_atomic, create_all_done, find_by_id-delete_all,
}
use sports_venue_management.Booking.Create.{
  Context, CreateBody, GroupPrice, check_request, price_group, check_wallet, details, create_group,
  book, create_booking,
}
use sports_venue_management.Booking.Create.Exclusive.{clear_slots-AreFresh}
use sports_venue_management.Booking.Order.{PayFaults}
use sports_venue_management.Booking.PayBooking.{PayBody, pay_group}
use sports_venue_management.Booking.Checkout.Holds.{
  KeepsOthers, KeepsOthers-eq, clear_slots-KeepsOthers,
}
use sports_venue_management.Booking.Checkout.{order_for, undo_group, checkout}
use sports_venue_management.Booking.Checkout.Touched.{Agree, pay_group-Agree}

module _ (mongo : Mongo) where
  open mongo use {Docs, find_by_id, find, delete, find_by_id-delete, find_sound}

  -- what is left where the bookings of a creation that returned are deleted again
  abbrev pub left_over : Result (List (ℕ × Booking)) × Docs Booking → Docs Booking
  left_over r = elim r.0 [ err e ↦ r.1 | ok created ↦ delete_all mongo created r.1 ]

  create_group-left_over :
      (x : Context) (body : CreateBody) (g : GroupPrice) (v : Venue) (d : Docs Booking)
      → AreFresh mongo x.ids 0 d
      → (j : ℕ)
      → find_by_id (left_over (create_group mongo x body g (price_slots v body.day body.slots) d)) j
        ≡ find_by_id d j
  unfolding create_group
  create_group-left_over x body g v d fresh j =
      let prices = price_slots v body.day body.slots in
      let cs = slot_final_calculations g.discount (total_raw_price prices) prices in
      let r = create_all mongo (details mongo x body g) x.ids x.faults 0 cs [] d in
      elim (Result-cases r.0) [
        | inl (e, failed) ↦
            rw failed (
              create_all_atomic mongo (details mongo x body g) x.ids x.faults cs d e fresh failed j)
        | inr (made, done) ↦ rw done (
            create_all_done mongo (details mongo x body g) x.ids x.faults 0 cs [] made d d fresh
              (nothing_created mongo d) done j)
      ]

  book-left_over :
      (x : Context) (body : CreateBody) (v : Venue) (p : Platform mongo)
      → AreFresh mongo x.ids 0 p.bookings
      → (j : ℕ)
      → find_by_id (left_over ((book mongo x body v p).0, (book mongo x body v p).1.bookings)) j
        ≡ find_by_id p.bookings j
  unfolding book
  book-left_over x body v p fresh j =
      let prices = price_slots v body.day body.slots in
      elim (Result-cases
        (price_group mongo x.now body.coupon_code (total_raw_price prices) p.coupons)) [
          | inl (e, refused) ↦ rw (refused, book) refl
          | inr (g, priced) ↦
              elim (Result-cases (
                payment_plan v.minimum_deposit_amount body.custom_amount (length body.slots)
                  g.final)) [
                    | inl (e, refused) ↦ rw (priced, book, refused) refl
                    | inr (plan, planned) ↦
                        elim (Result-cases
                          (check_wallet mongo body.payment_method x.wallet_fault x.user
                            plan.amount_to_pay p.accounts).0) [
                              | inl (e, refused) ↦ rw (priced, book, planned, refused) refl
                              | inr (u, covered) ↦
                                  rw (priced, book, planned, covered)
                                    (create_group-left_over x body g v p.bookings fresh j)
                            ]
                  ]
        ]

  create_booking-left_over :
      (x : Context) (body : CreateBody) (venues : Docs Venue) (p : Platform mongo)
      → AreFresh mongo x.ids 0 p.bookings
      → let r = create_booking mongo x body venues p in
        KeepsOthers mongo x.user p.bookings (left_over (r.0, r.1.bookings))
  unfolding create_booking
  create_booking-left_over x body venues p fresh =
      let day = body.day * ms_per_day in
      let cleared = clear_slots mongo x.now x.user body.venue_id day body.slots p.bookings in
      let keeps =
        clear_slots-KeepsOthers mongo x.now x.user body.venue_id day body.slots p.bookings in
      elim (Result-cases (check_request mongo x body (find_by_id venues body.venue_id))) [
        | inl (e, refused) ↦ rw (refused, create_booking) (λ j. inl refl)
        | inr (v, accepted) ↦ elim (Result-cases cleared.0) [
          | inl (e, taken) ↦ rw (accepted, create_booking, taken) keeps
          | inr (u, free) ↦
              let q = record p { bookings = cleared.1 } in
              let r = book mongo x body v q in
              rw (accepted, create_booking, free)
                (KeepsOthers-eq mongo x.user p.bookings cleared.1 (left_over (r.0, r.1.bookings))
                  (book-left_over x body v q (
                    clear_slots-AreFresh mongo x.now x.user body.venue_id day body.slots x.ids
                      p.bookings fresh))
                  keeps)
        ]
      ]

  delete_all-listed :
      (xs : List (ℕ × Booking)) (j : ℕ) (d : Docs Booking)
      → find_by_id d j ≡ none
      → find_by_id (delete_all mongo xs d) j ≡ none
  unfolding delete_all
  delete_all-listed [] j d h = h
  delete_all-listed (x ∷ rest) j d h =
      delete_all-listed rest j (delete x.0 d) (ground (arith, find_by_id-delete x.0 j d))

  -- Stores that agree but for a group agree once the group is deleted.
  delete_all-Agree :
      (xs : List (ℕ × Booking)) (d e : Docs Booking) (j : ℕ)
      → (find_by_id d j ≡ find_by_id e j) ⊎ IdIn j xs
      → find_by_id (delete_all mongo xs d) j ≡ find_by_id (delete_all mongo xs e) j
  unfolding delete_all
  delete_all-Agree [] d e j (inr absent) = elim absent [ ]
  delete_all-Agree xs d e j (inl same) = find_by_id-delete_all mongo xs j d e same
  delete_all-Agree (x ∷ rest) d e j (inr (inl here)) =
      let gone = λ (c : Docs Booking).
        delete_all-listed rest j (delete x.0 c) (ground (arith, find_by_id-delete x.0 j c)) in
      gone d ∙ sym (gone e)
  delete_all-Agree (x ∷ rest) d e j (inr (inr later)) =
      delete_all-Agree rest (delete x.0 d) (delete x.0 e) j (inr later)

  undo_group-Agree :
      (user : ℕ) (created : List (ℕ × Booking)) (before d : Docs Booking)
      (r : Result PaymentStatus × Platform mongo) (e : Error)
      → (undo_group mongo created r).0 ≡ err e
      → Agree mongo created r.1.bookings d
      → KeepsOthers mongo user before (delete_all mongo created d)
      → KeepsOthers mongo user before (undo_group mongo created r).1.bookings
  unfolding undo_group
  undo_group-Agree user created before d (ok status, p) e h agree keeps = absurd (cc (h))
  undo_group-Agree user created before d (err thrown, p) e h agree keeps =
      KeepsOthers-eq mongo user before (delete_all mongo created d)
        (delete_all mongo created p.bookings)
        (λ j. delete_all-Agree created p.bookings d j (agree j)) keeps

  -- A checkout that throws, be it at a check, at a creation or at the payment, leaves no booking of its
  -- own behind: every booking that was stored before is as it was, except that pending ones of the
  -- same customer may be gone, as long as the driver's identifiers are fresh.
  pub checkout-KeepsOthers :
      (has_session : Bool) (f : PayFaults) (x : Context) (ids : ℕ × ℕ) (asked : Option ℕ)
      (body : CreateBody) (venues : Docs Venue) (p : Platform mongo) (e : Error)
      → AreFresh mongo x.ids 0 p.bookings
      → (checkout mongo has_session f x ids asked body venues p).0 ≡ err e
      → KeepsOthers mongo x.user p.bookings
          (checkout mongo has_session f x ids asked body venues p).1.bookings
  unfolding checkout
  checkout-KeepsOthers has_session f x ids asked body venues p e fresh thrown =
      let r = create_booking mongo x body venues p in
      let left = create_booking-left_over x body venues p fresh in
      elim (Result-cases r.0) [
        | inl (why, refused) ↦ rw (refused, checkout) (rw refused at left)
        | inr (created, made) ↦
            let kept = rw made at left in
            elim (Result-cases (order_for mongo x ids body venues p)) [
              | inl (why, none_for) ↦
                  rw (made, checkout, none_for)
                    (undo_group-Agree x.user created p.bookings r.1.bookings (err why, r.1) e
                      (rw (made, checkout, none_for) at thrown) (λ j. inl refl) kept)
              | inr (o, ordered) ↦
                  let pay : PayBody = record {
                    payment_method = body.payment_method;
                    coupon_code = none;
                    custom_amount = body.custom_amount;
                    wallet_amount = asked;
                  } in
                  rw (made, checkout, ordered)
                    (undo_group-Agree x.user created p.bookings r.1.bookings
                      (pay_group mongo has_session f pay o created r.1) e
                      (rw (made, checkout, ordered) at thrown)
                      (pay_group-Agree mongo has_session f pay o created r.1) kept)
            ]
      ]
