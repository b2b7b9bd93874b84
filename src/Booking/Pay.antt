-- ===== src/Booking/Pay.antt =====
-- `processGroupPayment` and `processGroupPaymentCompensating`: how a group of bookings is paid from
-- the wallet, at the venue or through the gateway, and what is undone on a fault.
pub mod Settled
pub mod Compensated
pub mod Sessions
use sports_venue_management.Common.{
  ℕ, ◌+◌, ◌-◌, suc, min, Bool, true, false, ◌&&◌, ◌||◌, not, Option, none, some, List, [], ◌∷◌,
  length, first, leb, ltb, ◌==◌, if◌then◌else◌,
}
use sports_venue_management.Common.Text.{normalize, text_eq}
use sports_venue_management.Common.Outcome.{
  Error, Result, ok, err, ◌>>=◌, ◌>>◌, throw_if, or_throw, booking_not_found, not_your_booking,
  booking_closed, booking_paid, hold_expired, store_failure, duplicate_key, no_replica_set,
}
use sports_venue_management.Entities.{
  Booking, cancelled, expired, confirmed, status_eq, Payment, PaymentMethod, PaymentStatus, wallet,
  cash, paymob, unpaid, paid, pay_at_venue, payment_status_eq, Coupon, Venue,
}
use sports_venue_management.Mongo.{Mongo}
use sports_venue_management.Wallet.{Faults, Accounts, get_or_create_wallet, pay_for_booking}
use sports_venue_management.Platform.{Platform, refund}
use sports_venue_management.Booking.Settle.{
  group_final, group_remaining, is_paying_remaining, target_status, settle, settle_cash,
  choose_paymob,
}
use sports_venue_management.Booking.Plan.{PaymentPlan, payment_plan}
use sports_venue_management.Booking.Reserve.{as_conflict, has_run_out}
use sports_venue_management.Payment.Service.{is_in_group}
use sports_venue_management.Booking.Order.{
  Order, PayFaults, coupon_fault, retried, new_payment, use_once, settled, settle_each, use_code,
}

-- `requestedWalletDeduction`
unfoldable pub wallet_part : Option ℕ → ℕ → ℕ → ℕ
wallet_part none available amount = min available amount
wallet_part (some asked) available amount = min asked (min available amount)

module _ (mongo : Mongo) where
  open mongo use {Docs, find_by_id, find, update, insert}

  -- `.catch(() => {})` of the refund
  unfoldable pub give_back : PayFaults → Order → ℕ → Platform mongo → Platform mongo
  give_back f o booking p = record p {
    accounts = (refund mongo f.refund o.user o.amount booking p.accounts).1;
  }

  -- `processGroupPaymentCompensating` after the debit
  unfoldable pub confirm_or_refund :
      PayFaults
      → Order
      → ℕ
      → List (ℕ × Booking)
      → Platform mongo
      → Result PaymentStatus × Platform mongo
  confirm_or_refund f o booking targets p =
      let (moved, d) = settle_each mongo f.settle (settled o) 0 targets p.bookings in
      let q = record p { bookings = d } in
      let y = new_payment o booking wallet paid 0 (some o.now) in
      elim moved [
        | err e ↦ (err (as_conflict e), give_back f o booking q)
        | ok u ↦ elim f.create [
          | some e ↦ (err (as_conflict e), give_back f o booking q)
          | none ↦
              let recorded = record q { payments = insert o.payment_id y p.payments } in
              elim (coupon_fault f o.code) [
                | some e ↦ (err (as_conflict e), give_back f o booking recorded)
                | none ↦ (
                  ok (target_status o.is_deposit_only),
                  record recorded { coupons = use_code mongo o.code p.coupons },
                )
              ]
        ]
      ]

  unfoldable pub process_group_payment_compensating :
      PayFaults
      → Order
      → ℕ
      → List (ℕ × Booking)
      → Platform mongo
      → Result PaymentStatus × Platform mongo
  process_group_payment_compensating f o booking targets p =
      let (debited, a) =
        pay_for_booking mongo f.debit (λ b. b) false o.user o.amount booking p.accounts in
      elim debited [
        | err e ↦ (err e, record p { accounts = a })
        | ok t ↦ confirm_or_refund f o booking targets (record p { accounts = a })
      ]

  -- The transaction has been aborted, so `p` holds what was there before it, and the payment if it
  -- had been created, which happens outside the transaction.
  unfoldable pub after_abort :
      PayFaults
      → Order
      → ℕ
      → List (ℕ × Booking)
      → Bool
      → Error
      → Platform mongo
      → Result PaymentStatus × Platform mongo
  after_abort f o booking targets was_debited duplicate_key p =
      (err (as_conflict duplicate_key), if was_debited then give_back f o booking p else p)
  after_abort f o booking targets was_debited no_replica_set p =
      process_group_payment_compensating (retried f) o booking targets
        (if was_debited then give_back f o booking p else p)
  after_abort f o booking targets was_debited e p = (err e, p)

  -- the branch of `processGroupPayment` with a session
  unfoldable pub process_in_session :
      PayFaults
      → Order
      → ℕ
      → List (ℕ × Booking)
      → Platform mongo
      → Result PaymentStatus × Platform mongo
  process_in_session f o booking targets p =
      let (debited, a) =
        pay_for_booking mongo f.debit (λ b. b) true o.user o.amount booking p.accounts in
      let (moved, d) = settle_each mongo f.settle (settled o) 0 targets p.bookings in
      let y = new_payment o booking wallet paid 0 (some o.now) in
      let recorded = record p { payments = insert o.payment_id y p.payments } in
      elim debited [
        | err e ↦ after_abort f o booking targets false e p
        | ok t ↦ elim moved [
          | err e ↦ after_abort f o booking targets true e p
          | ok u ↦ elim f.create [
            | some e ↦ after_abort f o booking targets true e p
            | none ↦ elim (coupon_fault f o.code) [
              | some e ↦ after_abort f o booking targets true e recorded
              | none ↦ elim f.commit [
                | some e ↦ after_abort f o booking targets true e recorded
                | none ↦ (
                  ok (target_status o.is_deposit_only),
                  record recorded {
                    accounts = a;
                    bookings = d;
                    coupons = use_code mongo o.code p.coupons;
                  },
                )
              ]
            ]
          ]
        ]
      ]

  abbrev pub pay_from_wallet :
      Bool
      → PayFaults
      → Order
      → ℕ
      → List (ℕ × Booking)
      → Platform mongo
      → Result PaymentStatus × Platform mongo
  pay_from_wallet has_session f o booking targets p =
      if has_session
      then process_in_session f o booking targets p
      else process_group_payment_compensating f o booking targets p

  unfoldable pub pay_at_the_venue :
      PayFaults
      → Order
      → List (ℕ × Booking)
      → Platform mongo
      → Result PaymentStatus × Platform mongo
  pay_at_the_venue f o targets p =
      let (moved, d) = settle_each mongo f.settle settle_cash 0 targets p.bookings in
      elim moved [
        | err e ↦ (err e, record p { bookings = d })
        | ok u ↦ elim (coupon_fault f o.code) [
          | some e ↦ (err e, record p { bookings = d })
          | none ↦ (
            ok pay_at_venue,
            record p { bookings = d; coupons = use_code mongo o.code p.coupons },
          )
        ]
      ]

  -- the gateway's branch, once the wallet's part is known
  unfoldable pub pay_by_card :
      PayFaults
      → Order
      → ℕ
      → List (ℕ × Booking)
      → ℕ
      → Platform mongo
      → Result PaymentStatus × Platform mongo
  pay_by_card f o booking targets deduction p =
      let y = new_payment o booking paymob unpaid deduction none in
      let q = record p { payments = insert o.payment_id y p.payments } in
      let (moved, d) = settle_each mongo f.settle choose_paymob 0 targets p.bookings in
      elim f.create [
        | some e ↦ (err e, p)
        | none ↦ elim f.gateway [
          | some e ↦ (err e, q)
          | none ↦ elim moved [
            | err e ↦ (err e, record q { bookings = d })
            | ok u ↦ (ok unpaid, record q { bookings = d })
          ]
        ]
      ]

  unfoldable pub process_group_payment :
      Bool
      → PayFaults
      → PaymentMethod
      → Option ℕ
      → Order
      → ℕ
      → List (ℕ × Booking)
      → Platform mongo
      → Result PaymentStatus × Platform mongo
  unfolding wallet_part
  process_group_payment has_session f wallet asked o booking targets p =
      pay_from_wallet has_session f o booking targets p
  process_group_payment has_session f cash asked o booking targets p =
      pay_at_the_venue f o targets p
  process_group_payment has_session f paymob asked o booking targets p =
      let (read, a) = get_or_create_wallet mongo f.debit.upsert o.user p.accounts in
      let q = record p { accounts = a } in
      elim read [
        | err e ↦ (err e, q)
        | ok w ↦
            let deduction = wallet_part asked w.balance o.amount in
            if o.amount - deduction == 0
            then pay_from_wallet has_session f o booking targets q
            else pay_by_card f o booking targets deduction q
      ]
