-- ===== src/Payment/Webhook.antt =====
-- `handlePaymobWebhook`: the lookup of the payment and of its bookings, and the choice of what a
-- callback of the gateway does. Other requests run between the reads and the first write:
-- `meanwhile` is what they do.
pub mod References
pub mod Runs
pub mod Replay
pub mod Late
pub mod Targets
pub mod Confirmed
pub mod Overlap
use sports_venue_management.Common.{
  ℕ, ◌+◌, ◌-◌, Bool, true, false, ◌&&◌, ◌||◌, not, Option, none, some, List, [], ◌∷◌, any, first,
  ltb, ◌==◌, if◌then◌else◌,
}
use sports_venue_management.Common.Outcome.{Result, ok, err, bad_signature}
use sports_venue_management.Entities.{
  Booking, confirmed, cancelled, expired, status_eq, Payment, PaymentStatus, unpaid, paid,
  partially_paid, refunded, payment_status_eq, Coupon,
}
use sports_venue_management.Mongo.{Mongo}
use sports_venue_management.Wallet.{Faults, Accounts, pay_for_booking}
use sports_venue_management.Platform.{Platform, refund}
use sports_venue_management.Booking.Settle.{booking_final, group_final, paid_share, target_status}
use sports_venue_management.Booking.Lifecycle.{is_expired_hold, coupon_of}
use sports_venue_management.Payment.Service.{reference_of, is_in_group}
use sports_venue_management.Payment.Fulfilment.{
  Callback, Answer, no_object, no_reference, no_payment, no_booking, duplicate, already_paid,
  already_refunded, late, raced, ignored, declined, noted, fulfilled, card_paid, total_paid,
  is_gone, return_late, expire_refunded, fulfil, card_share, confirm_card, is_fulfilled,
  expire_each, confirm_each, use_coupon, refund_late, deduct, confirm_payment,
}

module _ (mongo : Mongo) where
  open mongo use {Docs, find_by_id, find, update}

  abbrev pub in_group : Option ℕ → Docs Booking → List (ℕ × Booking)
  in_group none d = []
  in_group (some g) d = find (is_in_group g) d

  -- `booking` and `groupBookings`
  unfoldable pub located : Payment → Docs Booking → Option ((ℕ × Booking) × List (ℕ × Booking))
  located y d =
      let named = in_group y.group_id d in
      elim (first named) [
        | some e ↦ some (e, named)
        | none ↦ elim y.booking_id [
          | none ↦ none
          | some i ↦ elim (find_by_id d i) [
            | none ↦ none
            | some b ↦ some ((i, b), in_group b.group_id d)
          ]
        ]
      ]

  -- `targetBookings`
  unfoldable pub card_targets :
      Payment → ℕ × Booking → List (ℕ × Booking) → Docs Booking → List (ℕ × Booking)
  card_targets y e [] d =
      let group : Option ℕ = elim y.group_id [ some g ↦ some g | none ↦ e.1.group_id ] in
      elim (in_group group d) [ [] ↦ e ∷ [] | x ∷ rest ↦ x ∷ rest ]
  card_targets y e (x ∷ rest) d = x ∷ rest

  -- the rest of the handler, once the payment and its bookings have been read
  unfoldable pub apply_callback :
      Faults
      → ℕ
      → Callback
      → ℕ
      → Payment
      → Booking
      → List (ℕ × Booking)
      → Platform mongo
      → Result Answer × Platform mongo
  unfolding is_gone
  apply_callback f now c id y b targets p =
      if c.pending
      then (ok noted, p)
      else if c.success
      then if any (λ e. is_gone now e.1) targets
        then refund_late mongo f now c id y targets p
        else confirm_payment mongo f now c id y b targets p
      else if is_fulfilled y || payment_status_eq y.status refunded
      then (ok ignored, p)
      else (
        ok declined,
        record p { payments = update id (λ z. record z { status = unpaid }) p.payments },
      )

  -- the transaction of the gateway has already paid another payment
  unfoldable pub is_duplicate : Callback → ℕ → Docs Payment → Bool
  is_duplicate c id d = elim c.txn [
    | none ↦ false
    | some t ↦
        any (λ e. not (e.0 == id))
          (find
            (λ z.
              elim z.paymob_transaction_id [ none ↦ false | some s ↦ s == t ]
              && payment_status_eq z.status paid)
            d)
  ]

  -- the handler for a payment that was found
  unfoldable pub handle_payment :
      Faults
      → (Platform mongo → Platform mongo)
      → ℕ
      → Callback
      → ℕ
      → Payment
      → Platform mongo
      → Result Answer × Platform mongo
  handle_payment f meanwhile now c id y p = elim (located y p.bookings) [
    | none ↦ (ok no_booking, p)
    | some found ↦
        if is_duplicate c id p.payments
        then (ok duplicate, p)
        else if payment_status_eq y.status paid
        then (ok already_paid, p)
        else if payment_status_eq y.status refunded
        then (ok already_refunded, p)
        else apply_callback f now c id y found.0.1 (card_targets y found.0 found.1 p.bookings)
            (meanwhile p)
  ]

  -- the payment of a reference, by the unique index `transactionId`
  abbrev pub payment_of : ℕ → Docs Payment → Option (ℕ × Payment)
  payment_of reference d = first (find (λ z. z.transaction_id == reference) d)

  unfoldable pub handle_paymob_webhook :
      Faults
      → (Platform mongo → Platform mongo)
      → ℕ
      → Bool
      → Option Callback
      → Platform mongo
      → Result Answer × Platform mongo
  handle_paymob_webhook f meanwhile now is_valid_hmac obj p =
      if is_valid_hmac
      then elim obj [
        | none ↦ (ok no_object, p)
        | some c ↦ elim c.reference [
          | none ↦ (ok no_reference, p)
          | some reference ↦ elim (payment_of reference p.payments) [
            | none ↦ (ok no_payment, p)
            | some e ↦ handle_payment f meanwhile now c e.0 e.1 p
          ]
        ]
      ]
      else (err bad_signature, p)
