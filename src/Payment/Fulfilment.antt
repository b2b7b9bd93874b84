-- ===== src/Payment/Fulfilment.antt =====
-- What `handlePaymobWebhook` does with a payment that has gone through: it confirms the bookings, or
-- finds them gone and pays the wallet. The documents read before the first write are used after it,
-- as the code does.
use sports_venue_management.Common.{
  ℕ, ◌+◌, ◌-◌, Bool, false, ◌&&◌, ◌||◌, Option, none, some, List, [], ◌∷◌, ltb, ◌==◌, if◌then◌else◌,
}
use sports_venue_management.Common.Outcome.{Result, ok, err}
use sports_venue_management.Entities.{
  Booking, confirmed, cancelled, expired, status_eq, Payment, PaymentStatus, paid, partially_paid,
  refunded, payment_status_eq, Coupon,
}
use sports_venue_management.Mongo.{Mongo}
use sports_venue_management.Wallet.{Faults, Accounts, pay_for_booking}
use sports_venue_management.Platform.{Platform, refund}
use sports_venue_management.Booking.Settle.{booking_final, group_final, paid_share, target_status}
use sports_venue_management.Booking.Lifecycle.{is_expired_hold, coupon_of}
use sports_venue_management.Payment.Service.{reference_of}
use sports_venue_management.Booking.Order.{use_once}

-- `payload.obj`; `amount_cents` is 0 where it is no positive number
pub record Callback : Type 0 where
  pub reference : Option ℕ
  pub txn : Option ℕ
  pub success : Bool
  pub pending : Bool
  pub amount_cents : ℕ

-- the answers, told apart by their notes
pub data Answer : Type 0 where
  no_object no_reference no_payment no_booking duplicate already_paid already_refunded : Answer
  late raced ignored declined noted : Answer
  fulfilled : PaymentStatus → Answer

-- `effectiveCardPaid`, to which `payment.amount` is set
unfoldable pub card_paid : Callback → Payment → ℕ
card_paid c y = if ltb 0 c.amount_cents then c.amount_cents else y.amount

-- `totalActualPaid`
unfoldable pub total_paid : Callback → Payment → ℕ
unfolding card_paid
total_paid c y = card_paid c y + y.wallet_deduction

-- `isAnyExpiredOrCancelled` for one booking
unfoldable pub is_gone : ℕ → Booking → Bool
unfolding is_expired_hold
is_gone now b =
    status_eq b.status expired || (status_eq b.status cancelled || is_expired_hold now b)

-- the payment that came too late
unfoldable pub return_late : ℕ → ℕ → Payment → Payment
return_late now amount y = record y {
  status = refunded;
  paid_at = some now;
  amount = amount;
  refunded_amount = amount;
}

abbrev pub expire_refunded : Booking → Booking
expire_refunded b = record b { status = expired; payment_status = refunded }

-- the payment that the compare-and-set fulfils
unfoldable pub fulfil : PaymentStatus → ℕ → Option ℕ → Payment → Payment
fulfil s now txn y = record y {
  status = s;
  paid_at = some now;
  paymob_transaction_id = elim txn [ none ↦ y.paymob_transaction_id | some t ↦ some t ];
}

-- `bPaid`
unfoldable pub card_share : Bool → ℕ → ℕ → Booking → ℕ
unfolding paid_share
card_share is_deposit due total b = paid_share (is_deposit && (b.paid_amount == 0)) due total b

-- the update of a booking, from the document that was read
unfoldable pub confirm_card : Bool → ℕ → ℕ → Booking → Booking → Booking
unfolding card_share
confirm_card is_deposit due total b stored =
    let b_paid = card_share is_deposit due total b in
    let b_remaining = booking_final b - b_paid in
    record stored {
      payment_status = if b_remaining == 0 then paid else partially_paid;
      status = confirmed;
      paid_amount = b_paid;
      remaining_amount = b_remaining;
      expires_at = none;
    }

-- the compare-and-set has nothing left to do
abbrev pub is_fulfilled : Payment → Bool
is_fulfilled y = payment_status_eq y.status paid || payment_status_eq y.status partially_paid

module _ (mongo : Mongo) where
  open mongo use {Docs, find_by_id, find, update}

  unfoldable pub expire_each : List (ℕ × Booking) → Docs Booking → Docs Booking
  expire_each [] d = d
  expire_each (e ∷ rest) d =
      expire_each rest (if status_eq e.1.status cancelled then d else update e.0 expire_refunded d)

  unfoldable pub confirm_each : Bool → ℕ → ℕ → List (ℕ × Booking) → Docs Booking → Docs Booking
  unfolding confirm_card
  confirm_each is_deposit due total [] d = d
  confirm_each is_deposit due total (e ∷ rest) d =
      confirm_each is_deposit due total rest (update e.0 (confirm_card is_deposit due total e.1) d)

  unfoldable pub use_coupon : Booking → Docs Coupon → Docs Coupon
  unfolding coupon_of
  use_coupon b d = elim (coupon_of mongo b d) [ none ↦ d | some e ↦ update e.0 use_once d ]

  -- the payment comes after the hold has gone: the wallet gets it
  unfoldable pub refund_late :
      Faults
      → ℕ
      → Callback
      → ℕ
      → Payment
      → List (ℕ × Booking)
      → Platform mongo
      → Result Answer × Platform mongo
  unfolding card_paid return_late expire_each
  refund_late f now c id y targets p =
      let (credited, a) = refund mongo f y.user_id (card_paid c y) (reference_of y) p.accounts in
      let charged = record p {
        payments = update id (return_late now (card_paid c y)) p.payments;
        accounts = a;
      } in
      elim credited [
        | err e ↦ (err e, charged)
        | ok t ↦ (ok late, record charged { bookings = expire_each targets p.bookings })
      ]

  -- the wallet's part of a split payment; what it throws is logged
  unfoldable pub deduct : Faults → Payment → Accounts mongo → Accounts mongo
  unfolding pay_for_booking
  deduct f y a =
      if ltb 0 y.wallet_deduction
      then (pay_for_booking mongo f (λ b. b) false y.user_id y.wallet_deduction (reference_of y)
          a).1
      else a

  unfoldable pub confirm_payment :
      Faults
      → ℕ
      → Callback
      → ℕ
      → Payment
      → Booking
      → List (ℕ × Booking)
      → Platform mongo
      → Result Answer × Platform mongo
  unfolding total_paid fulfil confirm_each use_coupon
  confirm_payment f now c id y b targets p =
      let due = group_final targets in
      let total = total_paid c y in
      let is_deposit = ltb total due in
      let s = target_status is_deposit in
      elim (find_by_id p.payments id) [
        | none ↦ (ok raced, p)
        | some z ↦ if is_fulfilled z then (ok raced, p) else (
          ok (fulfilled s),
          record {
            payments = update id (fulfil s now c.txn) p.payments;
            accounts = deduct f y p.accounts;
            bookings = confirm_each is_deposit due total targets p.bookings;
            coupons = use_coupon b p.coupons;
          },
        )
      ]
