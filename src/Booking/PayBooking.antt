-- ===== src/Booking/PayBooking.antt =====
-- `payBooking`: the guards of a request to pay, what it has to pay, and its call of
-- `processGroupPayment`.
pub mod Requests
use sports_venue_management.Common.{
  ℕ, ◌+◌, ◌-◌, suc, min, Bool, true, false, ◌&&◌, ◌||◌, not, Option, none, some, List, [], ◌∷◌,
  length, first, leb, ltb, ◌==◌, if◌then◌else◌,
}
use sports_venue_management.Common.Text.{normalize, text_eq}
use sports_venue_management.Common.Outcome.{
  Error, Result, ok, err, ◌>>=◌, ◌>>◌, throw_if, or_throw, booking_not_found, not_your_booking,
  booking_closed, booking_paid, hold_expired, store_failure, duplicate_key, no_replica_set,
}
use sports_venue_management.Entities.{
  Booking, cancelled, expired, confirmed, status_eq, Payment, PaymentMethod, PaymentStatus, wallet,
  cash, paymob, unpaid, paid, pay_at_venue, payment_status_eq, Coupon, Venue,
}
use sports_venue_management.Mongo.{Mongo}
use sports_venue_management.Wallet.{Faults, Accounts, get_or_create_wallet, pay_for_booking}
use sports_venue_management.Platform.{Platform, refund}
use sports_venue_management.Booking.Settle.{
  group_final, group_remaining, is_paying_remaining, target_status, settle, settle_cash,
  choose_paymob,
}
use sports_venue_management.Booking.Plan.{PaymentPlan, payment_plan}
use sports_venue_management.Booking.Reserve.{as_conflict, has_run_out}
use sports_venue_management.Payment.Service.{is_in_group}
use sports_venue_management.Booking.Order.{
  Order, PayFaults, new_payment, use_once, settled, settle_each, use_code,
}
use sports_venue_management.Booking.Pay.{process_group_payment}

-- `CreatePaymentDto`, as `payBooking` uses it
pub record PayBody : Type 0 where
  pub payment_method : PaymentMethod
  pub coupon_code : Option (List ℕ)
  pub custom_amount : Option ℕ
  pub wallet_amount : Option ℕ

-- the guards of `payBooking` before the hold is looked at
unfoldable pub check_pay : ℕ → Booking → Result (Unit {0})
check_pay user b = do
  throw_if (not (b.user_id == user)) not_your_booking
  throw_if (status_eq b.status cancelled || status_eq b.status expired) booking_closed
  throw_if (payment_status_eq b.payment_status paid) booking_paid

-- `amountToPay` and `isDepositOnly`
unfoldable pub amount_due :
    Option Venue → Option ℕ → Booking → List (ℕ × Booking) → Result PaymentPlan
unfolding is_paying_remaining group_remaining group_final
amount_due venue custom b targets =
    if is_paying_remaining b targets
    then ok (record { amount_to_pay = group_remaining targets; is_deposit_only = false })
    else payment_plan (elim venue [ none ↦ none | some v ↦ v.minimum_deposit_amount ]) custom
        (length targets) (group_final targets)

-- `activeCouponCode`
unfoldable pub active_code : Option (List ℕ) → Booking → Option (List ℕ)
unfolding normalize
active_code (some (c ∷ cs)) b = some (normalize (c ∷ cs))
active_code _ b = elim b.coupon_code [
  | none ↦ none
  | some code ↦ elim code [ [] ↦ none | c ∷ cs ↦ some (normalize (c ∷ cs)) ]
]

-- the arguments of `processGroupPayment`; `ids` are the identifiers of a new payment
unfoldable pub order_of : ℕ → ℕ × ℕ → ℕ → PayBody → ℕ → Booking → PaymentPlan → ℕ → Order
order_of now ids id body user b plan due = record {
  user = user;
  group_id = elim b.group_id [ none ↦ id | some g ↦ g ];
  amount = plan.amount_to_pay;
  due = due;
  is_deposit_only = plan.is_deposit_only;
  code = active_code body.coupon_code b;
  payment_id = ids.0;
  transaction_id = ids.1;
  now = now;
}

module _ (mongo : Mongo) where
  open mongo use {Docs, find_by_id, find, update}

  -- `targetBookings`
  unfoldable pub group_of : ℕ → Booking → Docs Booking → List (ℕ × Booking)
  group_of id b d = elim b.group_id [ none ↦ (id, b) ∷ [] | some g ↦ find (is_in_group g) d ]

  -- the call of `processGroupPayment`, which reads the first booking of the group
  unfoldable pub pay_group :
      Bool
      → PayFaults
      → PayBody
      → Order
      → List (ℕ × Booking)
      → Platform mongo
      → Result PaymentStatus × Platform mongo
  pay_group has_session f body o [] p = (err store_failure, p)
  pay_group has_session f body o (e ∷ rest) p =
      process_group_payment mongo has_session f body.payment_method body.wallet_amount o e.0
        (e ∷ rest) p

  -- `payBooking`
  unfoldable pub pay_booking :
      Bool
      → PayFaults
      → ℕ
      → ℕ × ℕ
      → ℕ
      → PayBody
      → ℕ
      → (ℕ → Option Venue)
      → Platform mongo
      → Result PaymentStatus × Platform mongo
  pay_booking has_session f now ids id body user venues p = elim (find_by_id p.bookings id) [
    | none ↦ (err booking_not_found, p)
    | some b ↦ elim (check_pay user b) [
      | err e ↦ (err e, p)
      | ok u ↦
          if has_run_out now b
          then (
            err hold_expired,
            record p { bookings = update id (λ c. record c { status = expired }) p.bookings },
          )
          else let targets = group_of id b p.bookings in
            elim (amount_due (venues b.venue_id) body.custom_amount b targets) [
              | err e ↦ (err e, p)
              | ok plan ↦
                  pay_group has_session f body
                    (order_of now ids id body user b plan (group_final targets)) targets p
            ]
    ]
  ]
