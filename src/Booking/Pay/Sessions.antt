-- ===== src/Booking/Pay/Sessions.antt =====
-- Payment from the wallet in a transaction, compared with the payment without one.
use sports_venue_management.Common.{
  ℕ, ◌+◌, ◌≡◌, refl, inl, inr, true, false, none, some, List, ◌==◌, if◌then◌else◌, Option-cases,
  sym, ap, ◌∙◌,
}
use sports_venue_management.Common.Outcome.{
  Result, ok, err, Result-cases, just_booked, duplicate_key,
}
use sports_venue_management.Entities.{Booking, Wallet, Transaction, PaymentStatus, wallet, paid}
use sports_venue_management.Mongo.{Mongo}
use sports_venue_management.Wallet.{Accounts, no_faults, balance_of, pay_for_booking}
use sports_venue_management.Platform.{Platform}
use sports_venue_management.Booking.Settle.{target_status}
use sports_venue_management.Booking.Order.{
  Order, PayFaults, coupon_fault, settle_each, settled, new_payment, use_code,
}
use sports_venue_management.Booking.Pay.{
  confirm_or_refund, process_group_payment_compensating, after_abort, process_in_session,
}
use sports_venue_management.Booking.Pay.Compensated.{give_back_balance, give_back_keeps}

module _ (mongo : Mongo) where
  -- a debit of which no write throws does the same in a transaction
  pay_for_booking_in_session :
      (u amount booking : ℕ) (a : Accounts mongo)
      → pay_for_booking mongo no_faults (λ b. b) true u amount booking a
        ≡ pay_for_booking mongo no_faults (λ b. b) false u amount booking a
  unfolding pay_for_booking
  pay_for_booking_in_session u amount booking a = refl

  -- A payment from the wallet that goes through without a transaction, while no write of the debit
  -- and no end of a transaction throws, does exactly the same to the whole platform in one, with the
  -- same answer.
  pub process_in_session-compensating :
      (f : PayFaults) (o : Order) (booking : ℕ) (targets : List (ℕ × Booking)) (p : Platform mongo)
      (s : PaymentStatus)
      → f.debit ≡ no_faults
      → f.commit ≡ none
      → (process_group_payment_compensating mongo f o booking targets p).0 ≡ ok s
      → process_in_session mongo f o booking targets p
        ≡ process_group_payment_compensating mongo f o booking targets p
  unfolding process_in_session process_group_payment_compensating confirm_or_refund
  process_in_session-compensating f o booking targets p s works commits h =
      let x = pay_for_booking mongo f.debit (λ b. b) false o.user o.amount booking p.accounts in
      let y = pay_for_booking mongo f.debit (λ b. b) true o.user o.amount booking p.accounts in
      let same : y ≡ x = rw works (pay_for_booking_in_session o.user o.amount booking p.accounts) in
      elim (Result-cases x.0) [
        | inl (e, failed) ↦ absurd (cc (rw (process_group_payment_compensating, failed) at h))
        | inr (t, done) ↦
            elim (Result-cases (settle_each mongo f.settle (settled o) 0 targets p.bookings).0) [
              | inl (e, failed) ↦ absurd (
                  cc
                    (rw (process_group_payment_compensating, done, confirm_or_refund, failed) at h))
              | inr (u, went) ↦ elim (Option-cases f.create) [
                | inr (e, failed) ↦ absurd (
                    cc (
                      rw (process_group_payment_compensating, done, confirm_or_refund, went, failed)
                        at h))
                | inl created ↦ elim (Option-cases (coupon_fault f o.code)) [
                  | inr (e, failed) ↦ absurd (
                      cc (
                        rw
                          (
                            process_group_payment_compensating, done, confirm_or_refund, went,
                            created, failed,
                          )
                          at h))
                  | inl used ↦
                      let done_in : y.0 ≡ ok t = cc (same, done) in
                      let d = (settle_each mongo f.settle (settled o) 0 targets p.bookings).1 in
                      let result : Accounts mongo → Result PaymentStatus × Platform mongo = λ a. (
                        ok (target_status o.is_deposit_only),
                        record {
                          bookings = d;
                          payments =
                              mongo.insert o.payment_id
                                (new_payment o booking wallet paid 0 (some o.now)) p.payments;
                          coupons = use_code mongo o.code p.coupons;
                          accounts = a;
                        },
                      ) in
                      let here : process_in_session mongo f o booking targets p ≡ result y.1 =
                        simp (process_in_session, done_in, went, created, used, commits) refl in
                      let there : process_group_payment_compensating mongo f o booking targets p
                          ≡ result x.1 =
                        simp
                          (
                            process_group_payment_compensating, done, confirm_or_refund, went,
                            created, used,
                          )
                          refl in
                      here ∙ (ap (λ z. result z.1) same ∙ sym there)
                ]
              ]
            ]
      ]

  -- A payment in a transaction that is debited and then meets a duplicate key, is answered
  -- as booked by somebody else; the bookings, payments and coupons are as before, but if the refund
  -- does not throw, the customer's wallet holds the amount more than before.
  pub process_in_session_gain :
      (f : PayFaults) (o : Order) (booking : ℕ) (targets : List (ℕ × Booking)) (p : Platform mongo)
      (t : Wallet × Transaction)
      → f.refund ≡ no_faults
      → (pay_for_booking mongo f.debit (λ b. b) true o.user o.amount booking p.accounts).0 ≡ ok t
      → (settle_each mongo f.settle (settled o) 0 targets p.bookings).0 ≡ err duplicate_key
      → let r = process_in_session mongo f o booking targets p in
        (r.0 ≡ err just_booked)
        × (r.1.bookings ≡ p.bookings)
        × (r.1.payments ≡ p.payments)
        × (r.1.coupons ≡ p.coupons)
        × ((v : ℕ)
            → balance_of mongo v r.1.accounts.wallets
              ≡ balance_of mongo v p.accounts.wallets + (if o.user == v then o.amount else 0))
  unfolding process_in_session after_abort
  process_in_session_gain f o booking targets p t works done failed =
      let keeps = give_back_keeps mongo f o booking p in
      rw (process_in_session, done, failed, after_abort)
        (refl, keeps.2, keeps.0, keeps.1, λ v. give_back_balance mongo f o booking v p works)
