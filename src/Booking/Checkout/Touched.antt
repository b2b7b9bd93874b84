-- ===== src/Booking/Checkout/Touched.antt =====
-- Which bookings a payment touches: those of its group.
use sports_venue_management.Common.{
  ℕ, suc, ◌-◌, ◌≡◌, refl, Bool, true, false, ◌⊎◌, inl, inr, Option, List, [], ◌∷◌, arith, ◌==◌,
  Bool-cases, Option-cases, if◌then◌else◌, ◌∙◌,
}
use sports_venue_management.Common.Outcome.{Error, Result-cases, duplicate_key, no_replica_set}
use sports_venue_management.Entities.{Booking, PaymentMethod, wallet, paymob, cash}
use sports_venue_management.Mongo.{Mongo, IdIn}
use sports_venue_management.Platform.{Platform}
use sports_venue_management.Wallet.{get_or_create_wallet, pay_for_booking}
use sports_venue_management.Booking.Settle.{settle_cash, choose_paymob}
use sports_venue_management.Booking.Order.{
  Order, PayFaults, coupon_fault, retried, settle_each, settled,
}
use sports_venue_management.Booking.Pay.{
  confirm_or_refund, give_back, process_group_payment_compensating, after_abort, process_in_session,
  pay_from_wallet, pay_at_the_venue, pay_by_card, wallet_part, process_group_payment,
}
use sports_venue_management.Booking.PayBooking.{PayBody, pay_group}

module _ (mongo : Mongo) where
  open mongo use {Docs, find_by_id, update, find_by_id-update}

  -- the two stores agree but for the group
  abbrev pub Agree : List (ℕ × Booking) → Docs Booking → Docs Booking → Type 0
  Agree targets d e = (j : ℕ) → (find_by_id d j ≡ find_by_id e j) ⊎ IdIn j targets

  settle_each-Agree :
      (faults : ℕ → Option Error) (change : Booking → Booking) (k : ℕ)
      (targets : List (ℕ × Booking)) (d : Docs Booking)
      → Agree targets (settle_each mongo faults change k targets d).1 d
  unfolding settle_each
  settle_each-Agree faults change k [] d j = inl refl
  settle_each-Agree faults change k (e ∷ rest) d j = elim (Option-cases (faults k)) [
    | inr (thrown, failed) ↦ rw (settle_each, failed) (inl refl)
    | inl fine ↦ elim (Bool-cases (e.0 == j)) [
      | inl same ↦ inr (inl (ground arith))
      | inr other ↦ elim (settle_each-Agree faults change (suc k) rest (update e.0 change d) j) [
        | inr later ↦ inr (inr later)
        | inl kept ↦
            inl
              (rw (settle_each, fine) (kept ∙ (rw (find_by_id-update e.0 j change d, other) refl)))
      ]
    ]
  ]

  module _ (f : PayFaults) (o : Order) (booking : ℕ) (targets : List (ℕ × Booking)) where
    confirm_or_refund-Agree :
        (p : Platform mongo)
        → Agree targets (confirm_or_refund mongo f o booking targets p).1.bookings p.bookings
    unfolding confirm_or_refund give_back
    confirm_or_refund-Agree p j =
        let moved = settle_each-Agree f.settle (settled o) 0 targets p.bookings j in
        elim (Result-cases (settle_each mongo f.settle (settled o) 0 targets p.bookings).0) [
          | inl (e, failed) ↦ rw (confirm_or_refund, failed) moved
          | inr (u, done) ↦ elim (Option-cases f.create) [
            | inr (e, thrown) ↦ rw (confirm_or_refund, done, thrown) moved
            | inl fine ↦ elim (Option-cases (coupon_fault f o.code)) [
              | inr (e, unused) ↦ rw (confirm_or_refund, done, fine, unused) moved
              | inl used ↦ rw (confirm_or_refund, done, fine, used) moved
            ]
          ]
        ]

    compensating-Agree :
        (p : Platform mongo)
        → Agree targets
            (process_group_payment_compensating mongo f o booking targets p).1.bookings
            p.bookings
    unfolding process_group_payment_compensating
    compensating-Agree p j =
        let debit =
          pay_for_booking mongo f.debit (λ b. b) false o.user o.amount booking p.accounts in
        elim (Result-cases debit.0) [
          | inl (e, failed) ↦ rw (process_group_payment_compensating, failed) (inl refl)
          | inr (t, done) ↦
              rw (process_group_payment_compensating, done)
                (confirm_or_refund-Agree (record p { accounts = debit.1 }) j)
        ]

  module _ (f : PayFaults) (o : Order) (booking : ℕ) (targets : List (ℕ × Booking)) where
    given_back-Agree :
        (was_debited : Bool) (p : Platform mongo)
        → (if was_debited then give_back mongo f o booking p else p).bookings ≡ p.bookings
    unfolding give_back
    given_back-Agree true p = refl
    given_back-Agree false p = refl

    after_abort-Agree :
        (was_debited : Bool) (e : Error) (p : Platform mongo)
        → Agree targets
            (after_abort mongo f o booking targets was_debited e p).1.bookings
            p.bookings
    unfolding after_abort give_back
    after_abort-Agree was_debited duplicate_key p j = inl (rw (given_back-Agree was_debited p) refl)
    after_abort-Agree true no_replica_set p j =
        compensating-Agree (retried f) o booking targets (give_back mongo f o booking p) j
    after_abort-Agree false no_replica_set p j =
        compensating-Agree (retried f) o booking targets p j
    after_abort-Agree was_debited e p j = inl refl

    in_session-Agree :
        (p : Platform mongo)
        → Agree targets (process_in_session mongo f o booking targets p).1.bookings p.bookings
    unfolding process_in_session
    in_session-Agree p j =
        let debit =
          pay_for_booking mongo f.debit (λ b. b) true o.user o.amount booking p.accounts in
        let moved = settle_each mongo f.settle (settled o) 0 targets p.bookings in
        let kept = settle_each-Agree f.settle (settled o) 0 targets p.bookings j in
        elim (Result-cases debit.0) [
          | inl (e, failed) ↦ rw (process_in_session, failed) (after_abort-Agree false e p j)
          | inr (t, paid_) ↦ elim (Result-cases moved.0) [
            | inl (e, failed) ↦
                rw (process_in_session, paid_, failed) (after_abort-Agree true e p j)
            | inr (u, done) ↦ elim (Option-cases f.create) [
              | inr (e, thrown) ↦
                  rw (process_in_session, paid_, done, thrown) (after_abort-Agree true e p j)
              | inl fine ↦ elim (Option-cases (coupon_fault f o.code)) [
                | inr (e, unused) ↦
                    rw (process_in_session, paid_, done, fine, unused)
                      (after_abort-Agree true e _ j)
                | inl used ↦ elim (Option-cases f.commit) [
                  | inr (e, thrown) ↦
                      rw (process_in_session, paid_, done, fine, used, thrown)
                        (after_abort-Agree true e _ j)
                  | inl committed ↦ rw (process_in_session, paid_, done, fine, used, committed) kept
                ]
              ]
            ]
          ]
        ]

    from_wallet-Agree :
        (has_session : Bool) (p : Platform mongo)
        → Agree targets
            (pay_from_wallet mongo has_session f o booking targets p).1.bookings
            p.bookings
    from_wallet-Agree true p j = in_session-Agree p j
    from_wallet-Agree false p j = compensating-Agree f o booking targets p j

    at_the_venue-Agree :
        (p : Platform mongo)
        → Agree targets (pay_at_the_venue mongo f o targets p).1.bookings p.bookings
    unfolding pay_at_the_venue
    at_the_venue-Agree p j =
        let moved = settle_each-Agree f.settle settle_cash 0 targets p.bookings j in
        elim (Result-cases (settle_each mongo f.settle settle_cash 0 targets p.bookings).0) [
          | inl (e, failed) ↦ rw (pay_at_the_venue, failed) moved
          | inr (u, done) ↦ elim (Option-cases (coupon_fault f o.code)) [
            | inr (e, unused) ↦ rw (pay_at_the_venue, done, unused) moved
            | inl used ↦ rw (pay_at_the_venue, done, used) moved
          ]
        ]

    by_card-Agree :
        (deduction : ℕ) (p : Platform mongo)
        → Agree targets (pay_by_card mongo f o booking targets deduction p).1.bookings p.bookings
    unfolding pay_by_card
    by_card-Agree deduction p j =
        let moved = settle_each-Agree f.settle choose_paymob 0 targets p.bookings j in
        elim (Option-cases f.create) [
          | inr (e, thrown) ↦ rw (pay_by_card, thrown) (inl refl)
          | inl fine ↦ elim (Option-cases f.gateway) [
            | inr (e, refused) ↦ rw (pay_by_card, fine, refused) (inl refl)
            | inl open_ ↦
                elim (Result-cases
                  (settle_each mongo f.settle choose_paymob 0 targets p.bookings).0) [
                    | inl (e, failed) ↦ rw (pay_by_card, fine, open_, failed) moved
                    | inr (u, done) ↦ rw (pay_by_card, fine, open_, done) moved
                  ]
          ]
        ]

    process_group_payment-Agree :
        (has_session : Bool) (method : PaymentMethod) (asked : Option ℕ) (p : Platform mongo)
        → Agree targets
            (process_group_payment mongo has_session f method asked o booking targets p).1.bookings
            p.bookings
    unfolding process_group_payment
    process_group_payment-Agree has_session wallet asked p j = from_wallet-Agree has_session p j
    process_group_payment-Agree has_session cash asked p j = at_the_venue-Agree p j
    process_group_payment-Agree has_session paymob asked p j =
        let wallet_read = get_or_create_wallet mongo f.debit.upsert o.user p.accounts in
        let q = record p { accounts = wallet_read.1 } in
        elim (Result-cases wallet_read.0) [
          | inl (e, failed) ↦ rw (process_group_payment, failed) (inl refl)
          | inr (w, found) ↦
              let deduction = wallet_part asked w.balance o.amount in
              elim (Bool-cases (o.amount - deduction == 0)) [
                | inl covered ↦
                    rw (process_group_payment, found, covered) (from_wallet-Agree has_session q j)
                | inr short ↦ rw (process_group_payment, found, short) (by_card-Agree deduction q j)
              ]
        ]

  pub pay_group-Agree :
      (has_session : Bool) (f : PayFaults) (body : PayBody) (o : Order)
      (targets : List (ℕ × Booking)) (p : Platform mongo)
      → Agree targets (pay_group mongo has_session f body o targets p).1.bookings p.bookings
  unfolding pay_group
  pay_group-Agree has_session f body o [] p j = inl refl
  pay_group-Agree has_session f body o (e ∷ rest) p j =
      process_group_payment-Agree f o e.0 (e ∷ rest) has_session body.payment_method
        body.wallet_amount p j
