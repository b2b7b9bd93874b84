-- ===== src/Booking/Create/Exclusive.antt =====
-- No request leads to a double booking.
use sports_venue_management.Common.{
  List-cases, ℕ, ◌+◌, ◌*◌, ◌≡◌, refl, ◌∙◌, ap, Option, List, [], ◌∷◌, map, filter, not, arith,
  Bool-cases, inl, inr, length, ltb, ◌&&◌,
}
use sports_venue_management.Common.Outcome.{Error, ok, err, Result-cases, >>=-eq-ok, unit_ok}
use sports_venue_management.Entities.{Booking, Venue}
use sports_venue_management.Mongo.{Mongo}
use sports_venue_management.Platform.{Platform}
use sports_venue_management.Booking.Slots.{Slot, check_slots}
use sports_venue_management.Booking.Slots.Disjoint.{AreBookable, check_slots_iff}
use sports_venue_management.Booking.Pricing.{SlotPricing, price_slot, price_slots, total_raw_price}
use sports_venue_management.Booking.Discount.{
  share, calculation, allocate, without_discount, slot_final_calculations,
}
use sports_venue_management.Booking.Plan.{payment_plan}
use sports_venue_management.Booking.Reserve.{
  delete_all, clear_slots, create_all, valid_overlaps, is_third_party, ms_per_day,
}
use sports_venue_management.Booking.Reserve.Atomic.{AreFresh, create_all_atomic}
use sports_venue_management.Booking.Reserve.Exclusive.{
  IsExclusive, AreFree, slot_of_calculation, create_all-IsExclusive,
}
use sports_venue_management.Booking.Reserve.Cleared.{clear_slots-IsExclusive, clear_slots-AreFree}
use sports_venue_management.Booking.Create.{
  Context, CreateBody, GroupPrice, check_request, price_group, check_wallet, details, create_group,
  book, create_booking,
}

slot_of_price : SlotPricing → Slot
slot_of_price p = record { start_time = p.start_time; end_time = p.end_time }

price_slots-slots :
    (v : Venue) (day : ℕ) (slots : List Slot) → map slot_of_price (price_slots v day slots) ≡ slots
unfolding price_slots price_slot slot_of_price
price_slots-slots v day [] = refl
price_slots-slots v day (s ∷ rest) = ap (λ xs. s ∷ xs) (price_slots-slots v day rest)

allocate-slots :
    (d t allocated : ℕ) (ps : List SlotPricing)
    → map slot_of_calculation (allocate d t allocated ps) ≡ map slot_of_price ps
unfolding allocate calculation slot_of_price
allocate-slots d t allocated [] = refl
allocate-slots d t allocated (p ∷ []) = refl
allocate-slots d t allocated (p ∷ q ∷ rest) =
    ap (λ xs. slot_of_price p ∷ xs) (allocate-slots d t (allocated + share d t p) (q ∷ rest))

without_discount-slots :
    (ps : List SlotPricing) → map slot_of_calculation (without_discount ps) ≡ map slot_of_price ps
unfolding without_discount calculation slot_of_price
without_discount-slots [] = refl
without_discount-slots (p ∷ rest) = ap (λ xs. slot_of_price p ∷ xs) (without_discount-slots rest)

-- The slots of the bookings are the requested ones.
slot_final_calculations-slots :
    (d t : ℕ) (ps : List SlotPricing)
    → map slot_of_calculation (slot_final_calculations d t ps) ≡ map slot_of_price ps
unfolding slot_final_calculations
slot_final_calculations-slots d t ps = elim (Bool-cases (ltb 0 d && ltb 0 t)) [
  | inl shared ↦ rw (slot_final_calculations, shared) (allocate-slots d t 0 ps)
  | inr plain ↦ rw (slot_final_calculations, plain) (without_discount-slots ps)
]

module _ (mongo : Mongo) where
  open mongo use {Docs, find_by_id, delete, find_by_id-delete}

  delete_all-AreFresh :
      (ids : ℕ → ℕ) (xs : List (ℕ × Booking)) (d : Docs Booking)
      → AreFresh mongo ids 0 d
      → AreFresh mongo ids 0 (delete_all mongo xs d)
  unfolding delete_all
  delete_all-AreFresh ids [] d fresh = fresh
  delete_all-AreFresh ids (x ∷ xs) d fresh = delete_all-AreFresh ids xs (delete x.0 d) (
    (λ j later.
        let absent = fresh.0 j later in ground (arith, absent, find_by_id-delete x.0 (ids j) d)),
    fresh.1,
  )

  pub clear_slots-AreFresh :
      (now user venue day : ℕ) (slots : List Slot) (ids : ℕ → ℕ) (d : Docs Booking)
      → AreFresh mongo ids 0 d
      → AreFresh mongo ids 0 (clear_slots mongo now user venue day slots d).1
  unfolding clear_slots
  clear_slots-AreFresh now user venue day slots ids d fresh =
      elim (List-cases
        (filter (λ e. is_third_party user e.1) (valid_overlaps mongo now venue day slots d))) [
          | inl nobody ↦
              rw (nobody, clear_slots)
                (delete_all-AreFresh ids
                  (filter (λ e. not (is_third_party user e.1))
                    (valid_overlaps mongo now venue day slots d))
                  d fresh)
          | inr (x, xs, somebody) ↦ rw (somebody, clear_slots) fresh
        ]

  clear_slots-err :
      (now user venue day : ℕ) (slots : List Slot) (d : Docs Booking) (e : Error)
      → (clear_slots mongo now user venue day slots d).0 ≡ err e
      → (clear_slots mongo now user venue day slots d).1 ≡ d
  unfolding clear_slots
  clear_slots-err now user venue day slots d e h =
      elim (List-cases
        (filter (λ e. is_third_party user e.1) (valid_overlaps mongo now venue day slots d))) [
          | inl nobody ↦ absurd (cc (rw (nobody, clear_slots) at h))
          | inr (x, xs, somebody) ↦ rw (somebody, clear_slots) refl
        ]

  create_group-IsExclusive :
      (x : Context) (body : CreateBody) (g : GroupPrice) (v : Venue) (d : Docs Booking)
      → AreFresh mongo x.ids 0 d
      → AreBookable body.slots
      → AreFree mongo x.now body.venue_id (body.day * ms_per_day) body.slots d
      → IsExclusive mongo x.now d
      → IsExclusive mongo x.now
          (create_group mongo x body g (price_slots v body.day body.slots) d).1
  unfolding create_group details
  create_group-IsExclusive x body g v d fresh bookable free ex =
      let prices = price_slots v body.day body.slots in
      let cs = slot_final_calculations g.discount (total_raw_price prices) prices in
      let same : map slot_of_calculation cs ≡ body.slots =
        slot_final_calculations-slots g.discount (total_raw_price prices) prices
        ∙ price_slots-slots v body.day body.slots in
      let made = create_all mongo (details mongo x body g) x.ids x.faults 0 cs [] d in
      elim (Result-cases made.0) [
        | inl (e, failed) ↦
            let undone =
              create_all_atomic mongo (details mongo x body g) x.ids x.faults cs d e fresh failed in
            λ i j b c at_i at_j. ex i j b c (rw (undone i) at at_i) (rw (undone j) at at_j)
        | inr (r, fine) ↦
            create_all-IsExclusive mongo x.now (details mongo x body g) x.ids x.faults 0 cs [] r d
              fresh (rw same bookable) (rw same free) ex fine
      ]

  book-IsExclusive :
      (x : Context) (body : CreateBody) (v : Venue) (p : Platform mongo)
      → AreFresh mongo x.ids 0 p.bookings
      → AreBookable body.slots
      → AreFree mongo x.now body.venue_id (body.day * ms_per_day) body.slots p.bookings
      → IsExclusive mongo x.now p.bookings
      → IsExclusive mongo x.now (book mongo x body v p).1.bookings
  unfolding book
  book-IsExclusive x body v p fresh bookable free ex =
      let prices = price_slots v body.day body.slots in
      elim (Result-cases
        (price_group mongo x.now body.coupon_code (total_raw_price prices) p.coupons)) [
          | inl (e, refused) ↦ rw (refused, book) ex
          | inr (g, priced) ↦
              elim (Result-cases (
                payment_plan v.minimum_deposit_amount body.custom_amount (length body.slots)
                  g.final)) [
                    | inl (e, refused) ↦ rw (priced, book, refused) ex
                    | inr (plan, planned) ↦
                        elim (Result-cases
                          (check_wallet mongo body.payment_method x.wallet_fault x.user
                            plan.amount_to_pay p.accounts).0) [
                              | inl (e, refused) ↦ rw (priced, book, planned, refused) ex
                              | inr (u, covered) ↦
                                  rw (priced, book, planned, covered)
                                    (create_group-IsExclusive x body g v p.bookings fresh bookable
                                      free ex)
                            ]
                  ]
        ]

  check_request-AreBookable :
      (x : Context) (body : CreateBody) (o : Option Venue) (v : Venue)
      → check_request mongo x body o ≡ ok v
      → AreBookable body.slots
  unfolding check_request
  check_request-AreBookable x body o v h =
      let (u, fine, rest) = >>=-eq-ok (check_slots body.slots) _ h in
      ((check_slots_iff body.slots).0 (unit_ok (check_slots body.slots) fine)).1

  -- Double bookings: where the store holds no two live bookings of a venue and a day that share an
  -- hour, it holds none after any request to book, whether the request succeeds or throws, and
  -- whichever creation the driver refuses, as long as the driver's identifiers are fresh.
  pub create_booking-IsExclusive :
      (x : Context) (body : CreateBody) (venues : Docs Venue) (p : Platform mongo)
      → AreFresh mongo x.ids 0 p.bookings
      → IsExclusive mongo x.now p.bookings
      → IsExclusive mongo x.now (create_booking mongo x body venues p).1.bookings
  unfolding create_booking
  create_booking-IsExclusive x body venues p fresh ex =
      let day = body.day * ms_per_day in
      elim (Result-cases (check_request mongo x body (find_by_id venues body.venue_id))) [
        | inl (e, refused) ↦ rw (refused, create_booking) ex
        | inr (v, accepted) ↦
            elim (Result-cases
              (clear_slots mongo x.now x.user body.venue_id day body.slots p.bookings).0) [
                | inl (e, taken) ↦
                    let same =
                      clear_slots-err x.now x.user body.venue_id day body.slots p.bookings e
                        taken in
                    rw (accepted, create_booking, taken, same) ex
                | inr (u, free) ↦
                    rw (accepted, create_booking, free)
                      (book-IsExclusive x body v
                        (record p {
                          bookings =
                              (clear_slots mongo x.now x.user body.venue_id day body.slots
                                p.bookings).1;
                        })
                        (clear_slots-AreFresh x.now x.user body.venue_id day body.slots x.ids
                          p.bookings fresh)
                        (check_request-AreBookable x body (find_by_id venues body.venue_id) v
                          accepted)
                        (clear_slots-AreFree mongo x.now x.user body.venue_id day body.slots
                          p.bookings u free)
                        (clear_slots-IsExclusive mongo x.now x.user body.venue_id day body.slots
                          p.bookings u ex free))
              ]
      ]
