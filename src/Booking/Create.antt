-- ===== src/Booking/Create.antt =====
-- `createBooking` of src/modules/booking/booking.service.ts from its first check to the creation of the
-- bookings: what runs inside the lock of the idempotency key, without it. The payment that follows
-- is not part of it.
pub mod Exclusive
use sports_venue_management.Common.{
  ℕ, ◌+◌, ◌*◌, Bool, true, false, not, Option, none, some, List, [], ◌∷◌, any, ltb, leb, length,
}
use sports_venue_management.Common.Text.{normalize}
use sports_venue_management.Common.Outcome.{
  Error, Result, ok, err, ◌>>=◌, ◌>>◌, throw_if, or_throw, account_suspended, account_archived,
  venue_not_found, venue_inactive, slot_in_past, slot_busy, insufficient, coupon_not_found,
  coupon_inactive, coupon_used_up, coupon_out_of_date,
}
use sports_venue_management.Entities.{
  Booking, Coupon, CustomerStatus, suspended, archived, inactive, PaymentMethod, wallet, paymob,
  cash, Venue,
}
use sports_venue_management.Mongo.{Mongo}
use sports_venue_management.Wallet.{Accounts, get_or_create_wallet}
use sports_venue_management.Coupon.{DiscountResult, calculate_coupon_discount, find_coupon}
use sports_venue_management.Platform.{Platform}
use sports_venue_management.Booking.Slots.{Slot, check_slots, check_hours}
use sports_venue_management.Booking.Pricing.{SlotPricing, price_slots, total_raw_price}
use sports_venue_management.Booking.Discount.{SlotCalculation, slot_final_calculations}
use sports_venue_management.Booking.Plan.{PaymentPlan, payment_plan}
use sports_venue_management.Booking.Reserve.{
  GroupDetails, clear_slots, create_all, hold_duration, ms_per_day,
}
use sports_venue_management.Booking.Lifecycle.{ms_per_hour}

-- CreateBookingDto, with the day of its date as a day number
pub record CreateBody : Type 0 where
  pub venue_id : ℕ
  pub day : ℕ
  pub slots : List Slot
  pub coupon_code : Option (List ℕ)
  pub payment_method : PaymentMethod
  pub custom_amount : Option ℕ

-- What the request meets: who asks, the clock, whether the lock of the day was free within ten
-- attempts, the identifiers of the driver and what it throws.
pub record Context : Type 0 where
  pub user : ℕ
  pub customer : Option CustomerStatus
  pub now : ℕ
  pub lock_acquired : Bool
  pub group_id : ℕ
  pub ids : ℕ → ℕ
  pub faults : ℕ → Option Error
  pub wallet_fault : Option Error
  pub idempotency_key : Option ℕ
  pub request_hash : ℕ

unfoldable pub check_customer : Option CustomerStatus → Result (Unit {0})
check_customer (some suspended) = err account_suspended
check_customer (some archived) = err account_archived
check_customer (some inactive) = err account_archived
check_customer _ = ok tt

-- `slotStartDateTime.getTime() <= now.getTime()`
unfoldable pub check_future : ℕ → ℕ → List Slot → Result (Unit {0})
check_future now start_of_day slots =
    throw_if (any (λ s. leb (start_of_day + s.start_time * ms_per_hour) now) slots) slot_in_past

unfoldable pub check_coupon : ℕ → Coupon → Result (Unit {0})
check_coupon now c = do
  throw_if (not c.is_active) coupon_inactive
  throw_if (leb c.max_uses c.uses_count) coupon_used_up
  throw_if (any (λ b. b) (ltb now c.start_date ∷ ltb c.end_date now ∷ [])) coupon_out_of_date

-- `couponCode ? couponCode.trim().toUpperCase() : undefined`
unfoldable pub coupon_text : Option (List ℕ) → Option (List ℕ)
coupon_text none = none
coupon_text (some []) = none
coupon_text (some (k ∷ ks)) = some (normalize (k ∷ ks))

-- its letters; the empty text counts as no code
unfoldable pub normalized : Option (List ℕ) → List ℕ
normalized none = []
normalized (some code) = normalize code

-- the discount of the group and the coupon that gives it
pub record GroupPrice : Type 0 where
  pub discount : ℕ
  pub final : ℕ
  pub coupon : Option (ℕ × Coupon)

module _ (mongo : Mongo) where
  open mongo use {Docs, find_by_id}

  unfoldable pub price_group : ℕ → Option (List ℕ) → ℕ → Docs Coupon → Result GroupPrice
  unfolding normalized check_coupon
  price_group now code total d = elim (normalized code) [
    | [] ↦ ok (record { discount = 0; final = total; coupon = none })
    | k ∷ ks ↦ do
      c ← or_throw (find_coupon mongo (k ∷ ks) d) coupon_not_found
      check_coupon now c.1
      let r = calculate_coupon_discount c.1.discount_type c.1.discount total in
          ok (record { discount = r.discount_amount; final = r.final_price; coupon = some c })
  ]

  -- the checks that read and change nothing, up to the lock of the day
  unfoldable pub check_request : Context → CreateBody → Option Venue → Result Venue
  unfolding check_customer check_future
  check_request x body venue = do
    check_slots body.slots
    check_customer x.customer
    v ← or_throw venue venue_not_found
    throw_if (not v.is_active) venue_inactive
    check_hours v body.slots
    check_future x.now (body.day * ms_per_day) body.slots
    throw_if (not x.lock_acquired) slot_busy
    ok v

  unfoldable pub details : Context → CreateBody → GroupPrice → GroupDetails
  details x body g = record {
    user_id = x.user;
    venue_id = body.venue_id;
    group_id = x.group_id;
    day = body.day * ms_per_day;
    coupon_id = elim g.coupon [ none ↦ none | some c ↦ some c.0 ];
    coupon_code = coupon_text body.coupon_code;
    discount_type = elim g.coupon [ none ↦ none | some c ↦ some c.1.discount_type ];
    discount_value = elim g.coupon [ none ↦ none | some c ↦ some c.1.discount ];
    payment_method = body.payment_method;
    expires_at = x.now + hold_duration;
    idempotency_key = x.idempotency_key;
    request_hash = x.request_hash;
  }

  -- a payment from the wallet needs the amount to be there
  unfoldable pub check_wallet :
      PaymentMethod → Option Error → ℕ → ℕ → Accounts mongo → Result (Unit {0}) × Accounts mongo
  unfolding get_or_create_wallet
  check_wallet wallet fault user amount a =
      let (r, b) = get_or_create_wallet mongo fault user a in
      ((do w ← r; throw_if (ltb w.balance amount) insufficient), b)
  check_wallet paymob fault user amount a = (ok tt, a)
  check_wallet cash fault user amount a = (ok tt, a)

  -- the bookings of the group
  unfoldable pub create_group :
      Context
      → CreateBody
      → GroupPrice
      → List SlotPricing
      → Docs Booking
      → Result (List (ℕ × Booking)) × Docs Booking
  create_group x body g prices d =
      create_all mongo (details x body g) x.ids x.faults 0
        (slot_final_calculations g.discount (total_raw_price prices) prices) [] d

  -- the price, the amount to pay and the wallet, once the slots are free; then the bookings
  unfoldable pub book :
      Context → CreateBody → Venue → Platform mongo → Result (List (ℕ × Booking)) × Platform mongo
  unfolding price_group check_wallet create_group
  book x body v p =
      let prices = price_slots v body.day body.slots in
      elim (price_group x.now body.coupon_code (total_raw_price prices) p.coupons) [
        | err e ↦ (err e, p)
        | ok g ↦
            elim (payment_plan v.minimum_deposit_amount body.custom_amount (length body.slots)
              g.final) [
                | err e ↦ (err e, p)
                | ok plan ↦
                    let (r, a) =
                      check_wallet body.payment_method x.wallet_fault x.user plan.amount_to_pay
                        p.accounts in
                    elim r [
                      | err e ↦ (err e, record p { accounts = a })
                      | ok u ↦
                          let made = create_group x body g prices p.bookings in
                          (made.0, record p { accounts = a; bookings = made.1 })
                    ]
              ]
      ]

  unfoldable pub create_booking :
      Context
      → CreateBody
      → Docs Venue
      → Platform mongo
      → Result (List (ℕ × Booking)) × Platform mongo
  unfolding check_request clear_slots book
  create_booking x body venues p = elim (check_request x body (find_by_id venues body.venue_id)) [
    | err e ↦ (err e, p)
    | ok v ↦
        let cleared =
          clear_slots mongo x.now x.user body.venue_id (body.day * ms_per_day) body.slots
            p.bookings in
        elim cleared.0 [
          | err e ↦ (err e, record p { bookings = cleared.1 })
          | ok u ↦ book x body v (record p { bookings = cleared.1 })
        ]
  ]
