-- ===== src/Examples/Payments.antt =====
-- The theorems on payments through the gateway, and on the payment of a group, applied.
use sports_venue_management.Common.{
  ℕ, ◌+◌, ◌≤◌, ◌≡◌, ◌≢◌, refl, true, false, none, some, List, [], ◌∷◌, arith, ◌==◌, inl, inr,
  Bool-cases,
}
use mathlib.Core.Path.{subst}
use mathlib.Core.Option.{some-injective}
use sports_venue_management.Common.Outcome.{ok, err, duplicate_key, store_failure}
use sports_venue_management.Entities.{Booking, BookingStatus, Payment, PaymentStatus, PaymentMethod}
use sports_venue_management.Mongo.{list_mongo}
use sports_venue_management.Mongo.ListStore.{get, modify, matching, drop_id}
use sports_venue_management.Wallet.{no_faults, balance_of, pay_for_booking}
use sports_venue_management.Platform.{Platform, refund}
use sports_venue_management.Booking.Settle.{booking_final, group_final, target_status}
use sports_venue_management.Booking.Order.{Order, PayFaults, settle_each, coupon_fault}
use sports_venue_management.Booking.Pay.{
  process_group_payment_compensating, process_in_session, confirm_or_refund,
}
use sports_venue_management.Booking.PayBooking.{PayBody, pay_booking, group_of}
use sports_venue_management.Booking.Pay.Compensated.{
  Outcome, ArePaidFor, IsCharged, process_group_payment_compensating-Outcome,
  process_group_payment_compensating_free,
}
use sports_venue_management.Booking.Pay.Sessions.{process_in_session-compensating}
use sports_venue_management.Booking.PayBooking.Requests.{
  Answered, AreWithinPrice, IsWithinPrice, pay_booking_from_wallet,
}
use sports_venue_management.Booking.Reserve.{as_conflict}
use sports_venue_management.Payment.Create.{
  create_payment, payment_for, payment_amount, pay_group_by, record_payment, check_create,
}
use sports_venue_management.Payment.Create.Charged.{IsPayable, create_payment_from_wallet}
use sports_venue_management.Payment.Fulfilment.{Callback, fulfilled, confirm_payment, refund_late}
use sports_venue_management.Payment.Webhook.{
  located, card_targets, payment_of, handle_payment, apply_callback, is_duplicate,
  handle_paymob_webhook,
}
use sports_venue_management.Payment.Webhook.Replay.{handle_paymob_webhook-replay}
use sports_venue_management.Payment.Webhook.Overlap.{handle_paymob_webhook-overlap}
use sports_venue_management.Payment.Webhook.Late.{Returned, handle_paymob_webhook-late}
use sports_venue_management.Payment.Webhook.Confirmed.{Confirms, handle_paymob_webhook-fulfilled}
use sports_venue_management.Examples.Data.{platform, payment, paid_booking, venue, now}

-- a hold that is to be paid by card, for another quarter of an hour
abbrev held_booking : Booking
held_booking = record paid_booking {
  group_id = none;
  status = BookingStatus.pending;
  payment_status = PaymentStatus.unpaid;
  paid_amount = 0;
  remaining_amount = 30000;
  expires_at = some (now + 900000);
}

abbrev card_payment : Payment
card_payment = record payment {
  payment_method = PaymentMethod.paymob;
  status = PaymentStatus.unpaid;
  refunded_amount = 0;
  paid_at = none;
}

abbrev desk : Platform list_mongo
desk = record (platform held_booking) { payments = (200, card_payment) ∷ [] }

abbrev callback : Callback
callback = record {
  reference = some 1;
  txn = some 77;
  success = true;
  pending = false;
  amount_cents = 30000;
}

stored_payment : (i : ℕ) (y z : Payment) → get ((200, y) ∷ []) i ≡ some z → i ≡ 200
unfolding get
stored_payment i y z h = ground arith

handle_paymob_webhook-replay_example :
    let q = (handle_paymob_webhook list_mongo no_faults (λ p. p) now true (some callback) desk).1 in
    (handle_paymob_webhook list_mongo no_faults (λ p. p) (now + 1000) true (some callback) q).1 ≡ q
unfolding handle_paymob_webhook handle_payment located is_duplicate card_targets apply_callback
    confirm_payment get matching modify drop_id target_status group_final
handle_paymob_webhook-replay_example =
    handle_paymob_webhook-replay list_mongo no_faults no_faults (λ p. p) now (now + 1000) callback
      callback desk (fulfilled PaymentStatus.paid)
      (λ i j y z at_i at_j same.
        omega (arith, stored_payment i card_payment y at_i, stored_payment j card_payment z at_j))
      refl refl refl

handle_paymob_webhook-overlap_example :
    (handle_paymob_webhook list_mongo no_faults
      (λ q. (handle_paymob_webhook list_mongo no_faults (λ r. r) now true (some callback) q).1)
      (now + 10)
      true
      (some callback)
      desk).0
    ≢ ok (fulfilled PaymentStatus.paid)
unfolding handle_paymob_webhook handle_payment located is_duplicate card_targets apply_callback
    confirm_payment get matching modify drop_id target_status group_final
handle_paymob_webhook-overlap_example =
    handle_paymob_webhook-overlap list_mongo no_faults no_faults now (now + 10) callback callback
      desk PaymentStatus.paid PaymentStatus.paid refl refl

-- the quarter of an hour is over
abbrev afterwards : ℕ
afterwards = now + 1000000

handle_paymob_webhook-late_example :
    (reference : ℕ) × (e : ℕ × Payment) × (callback.reference ≡ some reference)
    × (payment_of list_mongo reference desk.payments ≡ some e)
    × Returned list_mongo callback e.0 e.1 desk
        (handle_paymob_webhook list_mongo no_faults (λ p. p) afterwards true (some callback) desk).1
unfolding handle_paymob_webhook handle_payment located is_duplicate card_targets apply_callback
    refund_late refund get matching modify drop_id
handle_paymob_webhook-late_example =
    handle_paymob_webhook-late list_mongo no_faults (λ p. p) afterwards callback desk refl

handle_paymob_webhook-fulfilled_example :
    (reference : ℕ) × (e : ℕ × Payment) × (booking : ℕ × Booking) × (group : List (ℕ × Booking))
    × (callback.reference ≡ some reference)
    × (payment_of list_mongo reference desk.payments ≡ some e)
    × (located list_mongo e.1 desk.bookings ≡ some (booking, group))
    × Confirms list_mongo PaymentStatus.paid now callback e.0 e.1
        (card_targets list_mongo e.1 booking group desk.bookings)
        desk
        (handle_paymob_webhook list_mongo no_faults (λ p. p) now true (some callback) desk).1
unfolding handle_paymob_webhook handle_payment located is_duplicate card_targets apply_callback
    confirm_payment get matching modify drop_id target_status group_final
handle_paymob_webhook-fulfilled_example =
    handle_paymob_webhook-fulfilled list_mongo no_faults (λ p. p) now callback desk
      PaymentStatus.paid refl

-- the whole price of the hold, from the wallet
abbrev order : Order
order = record {
  user = 7;
  group_id = 100;
  amount = 30000;
  due = 30000;
  is_deposit_only = false;
  code = none;
  payment_id = 201;
  transaction_id = 2;
  now = now;
}

abbrev no_pay_faults : PayFaults
no_pay_faults = record {
  debit = no_faults;
  refund = no_faults;
  settle = λ k. none;
  create = none;
  coupon = none;
  commit = none;
  gateway = none;
  retry_debit = no_faults;
  retry_settle = λ k. none;
  retry_create = none;
  retry_coupon = none;
}

abbrev held : List (ℕ × Booking)
held = (100, held_booking) ∷ []

-- the record of the payment cannot be created
abbrev create_fails : PayFaults
create_fails = record no_pay_faults { create = some store_failure }

-- an update of a booking meets a duplicate key
abbrev update_fails : PayFaults
update_fails = record no_pay_faults { settle = λ k. some duplicate_key }

process_group_payment_compensating-Outcome_example :
    Outcome list_mongo create_fails order held desk
      (process_group_payment_compensating list_mongo create_fails order 100 held desk)
process_group_payment_compensating-Outcome_example =
    process_group_payment_compensating-Outcome list_mongo create_fails order 100 held desk refl
      (omega arith)

process_group_payment_compensating_free_example :
    let r = process_group_payment_compensating list_mongo create_fails order 100 held desk in
    (r.0 ≡ err (as_conflict store_failure))
    × ((v : ℕ)
        → balance_of list_mongo v r.1.accounts.wallets
          ≡ balance_of list_mongo v desk.accounts.wallets)
    × ArePaidFor list_mongo false 30000 30000 held desk r.1
unfolding pay_for_booking settle_each get modify
process_group_payment_compensating_free_example =
    process_group_payment_compensating_free list_mongo create_fails order 100 held desk _
      store_failure refl (omega arith) refl refl refl

process_in_session-compensating_example :
    process_in_session list_mongo no_pay_faults order 100 held desk
    ≡ process_group_payment_compensating list_mongo no_pay_faults order 100 held desk
unfolding process_group_payment_compensating confirm_or_refund pay_for_booking settle_each
    target_status get modify coupon_fault
process_in_session-compensating_example =
    process_in_session-compensating list_mongo no_pay_faults order 100 held desk PaymentStatus.paid
      refl refl refl

-- the deposit of the venue
abbrev made : Payment
made =
    payment_for 7 100 held_booking 10000 PaymentMethod.wallet PaymentStatus.partially_paid 2
      (some now)

-- the stored hold has its whole price to pay
stored_is : (i : ℕ) (b c : Booking) → get ((100, b) ∷ []) i ≡ some c → b ≡ c
unfolding get
stored_is i b c h = elim (Bool-cases (100 == i)) [
  | inl same ↦ some-injective b c (rw (get, same) at h)
  | inr apart ↦ absurd (cc (rw (get, apart) at h))
]

desk-AreWithinPrice : AreWithinPrice list_mongo desk.bookings
unfolding booking_final
desk-AreWithinPrice i b stored =
    subst IsWithinPrice (stored_is i held_booking b stored) (omega arith)

abbrev pay_body : PayBody
pay_body = record {
  payment_method = PaymentMethod.wallet;
  coupon_code = none;
  custom_amount = none;
  wallet_amount = none;
}

pay_booking_from_wallet_example :
    Answered list_mongo no_pay_faults 201 now 100 pay_body 7
      (λ v. some venue)
      desk
      (pay_booking list_mongo false no_pay_faults now
        (201, 2)
        100
        pay_body
        7
        (λ v. some venue)
        desk)
pay_booking_from_wallet_example =
    pay_booking_from_wallet list_mongo no_pay_faults now (201, 2) 100 pay_body 7 (λ v. some venue)
      desk refl refl desk-AreWithinPrice

create_payment_from_wallet_example :
    let r =
      create_payment list_mongo no_pay_faults now
        (201, 2)
        7
        true
        100
        PaymentMethod.wallet
        (λ v. some venue)
        desk in
    (b : Booking) × (get desk.bookings 100 ≡ some b)
    × IsPayable 7 true b
    × (made.amount
        ≡ (payment_amount (some venue) b (group_of list_mongo 100 b desk.bookings)).amount_to_pay)
    × (made.amount ≤ group_final (group_of list_mongo 100 b desk.bookings))
    × IsCharged list_mongo 7 made.amount desk.accounts r.1.accounts
    × (r.1.payments ≡ (201, made) ∷ desk.payments)
    × ArePaidFor list_mongo
        (payment_amount (some venue) b (group_of list_mongo 100 b desk.bookings)).is_deposit_only
        (group_final (group_of list_mongo 100 b desk.bookings))
        made.amount
        (group_of list_mongo 100 b desk.bookings)
        desk
        r.1
unfolding create_payment get check_create pay_group_by pay_for_booking payment_amount group_of
    booking_final record_payment settle_each target_status
create_payment_from_wallet_example =
    create_payment_from_wallet list_mongo no_pay_faults now (201, 2) 7 true 100 (λ v. some venue)
      desk made desk-AreWithinPrice refl
