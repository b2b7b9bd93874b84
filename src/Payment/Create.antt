-- ===== src/Payment/Create.antt =====
-- `createPayment`: the direct payment of a booking and its group, without the compensation and the
-- look at the hold that `payBooking` has.
pub mod Charged
use sports_venue_management.Common.{
  ℕ, ◌*◌, min, Bool, false, ◌&&◌, ◌||◌, not, Option, none, some, List, length, ltb, ◌==◌,
  if◌then◌else◌,
}
use sports_venue_management.Common.Outcome.{
  Error, Result, ok, err, ◌>>=◌, ◌>>◌, throw_if, booking_not_found, not_your_booking,
  booking_closed, booking_paid,
}
use sports_venue_management.Entities.{
  Booking, cancelled, expired, status_eq, Payment, PaymentMethod, PaymentStatus, wallet, cash,
  paymob, unpaid, paid, pay_at_venue, payment_status_eq, Role, customer, Venue,
}
use sports_venue_management.Mongo.{Mongo}
use sports_venue_management.Wallet.{pay_for_booking}
use sports_venue_management.Platform.{Platform}
use sports_venue_management.Booking.Settle.{
  group_final, group_remaining, is_paying_remaining, target_status, settle, choose_paymob,
}
use sports_venue_management.Booking.Plan.{PaymentPlan, deposit_of, plan_of}
use sports_venue_management.Booking.Order.{PayFaults, settle_each}
use sports_venue_management.Booking.PayBooking.{group_of}

-- the guards of `createPayment`
unfoldable pub check_create : ℕ → Bool → Booking → Result (Unit {0})
check_create user is_customer b = do
  throw_if (not (b.user_id == user) && is_customer) not_your_booking
  throw_if (payment_status_eq b.payment_status paid) booking_paid
  throw_if (status_eq b.status cancelled || status_eq b.status expired) booking_closed

-- `paymentAmount` and `isDepositOnly`
unfoldable pub payment_amount : Option Venue → Booking → List (ℕ × Booking) → PaymentPlan
unfolding is_paying_remaining group_remaining group_final deposit_of
payment_amount venue b targets =
    let total = group_final targets in
    if is_paying_remaining b targets
    then record { amount_to_pay = group_remaining targets; is_deposit_only = false }
    else elim (deposit_of (elim venue [ none ↦ none | some v ↦ v.minimum_deposit_amount ])) [
      | none ↦ record { amount_to_pay = total; is_deposit_only = false }
      | some each ↦ plan_of (min (length targets * each) total) total
    ]

-- the update of a booking that is to be paid at the venue
unfoldable pub choose_cash : Booking → Booking
choose_cash b = record b {
  payment_status = pay_at_venue;
  payment_method = some cash;
  expires_at = none;
}

-- `paymentRepo.create`
abbrev pub payment_for :
    ℕ → ℕ → Booking → ℕ → PaymentMethod → PaymentStatus → ℕ → Option ℕ → Payment
payment_for user id b amount method status transaction_id paid_at = record {
  booking_id = some id;
  group_id = b.group_id;
  user_id = user;
  amount = amount;
  payment_method = method;
  transaction_id = transaction_id;
  paymob_transaction_id = none;
  status = status;
  paid_at = paid_at;
  refunded_amount = 0;
  wallet_deduction = 0;
  collected_by = none;
}

module _ (mongo : Mongo) where
  open mongo use {Docs, find_by_id, insert}

  -- `paymentRepo.create`, what comes after it, and the updates of the bookings
  unfoldable pub record_payment :
      PayFaults
      → Option Error
      → ℕ
      → Payment
      → (Booking → Booking)
      → List (ℕ × Booking)
      → Platform mongo
      → Result Payment × Platform mongo
  record_payment f gateway id y change targets p =
      let q = record p { payments = insert id y p.payments } in
      let (moved, d) = settle_each mongo f.settle change 0 targets p.bookings in
      elim f.create [
        | some e ↦ (err e, p)
        | none ↦ elim gateway [
          | some e ↦ (err e, q)
          | none ↦ elim moved [
            | err e ↦ (err e, record q { bookings = d })
            | ok u ↦ (ok y, record q { bookings = d })
          ]
        ]
      ]

  -- the branches of the methods; `ids` are the identifiers of the new payment
  unfoldable pub pay_group_by :
      PayFaults
      → ℕ
      → ℕ × ℕ
      → ℕ
      → ℕ
      → Booking
      → List (ℕ × Booking)
      → PaymentPlan
      → PaymentMethod
      → Platform mongo
      → Result Payment × Platform mongo
  pay_group_by f now ids user id b targets plan wallet p =
      let (debited, a) =
        pay_for_booking mongo f.debit (λ x. x) false user plan.amount_to_pay id p.accounts in
      let y =
        payment_for user id b plan.amount_to_pay wallet (target_status plan.is_deposit_only) ids.1
          (some now) in
      let change = settle plan.is_deposit_only (group_final targets) plan.amount_to_pay in
      elim debited [
        | err e ↦ (err e, record p { accounts = a })
        | ok t ↦ record_payment f none ids.0 y change targets (record p { accounts = a })
      ]
  pay_group_by f now ids user id b targets plan cash p =
      record_payment f none ids.0
        (payment_for user id b plan.amount_to_pay cash pay_at_venue ids.1 none) choose_cash targets
        p
  pay_group_by f now ids user id b targets plan paymob p =
      record_payment f f.gateway ids.0
        (payment_for user id b plan.amount_to_pay paymob unpaid ids.1 none) choose_paymob targets p

  unfoldable pub create_payment :
      PayFaults
      → ℕ
      → ℕ × ℕ
      → ℕ
      → Bool
      → ℕ
      → PaymentMethod
      → (ℕ → Option Venue)
      → Platform mongo
      → Result Payment × Platform mongo
  create_payment f now ids user is_customer id method venues p = elim (find_by_id p.bookings id) [
    | none ↦ (err booking_not_found, p)
    | some b ↦ elim (check_create user is_customer b) [
      | err e ↦ (err e, p)
      | ok u ↦
          let targets = group_of mongo id b p.bookings in
          pay_group_by f now ids user id b targets (payment_amount (venues b.venue_id) b targets)
            method p
    ]
  ]
