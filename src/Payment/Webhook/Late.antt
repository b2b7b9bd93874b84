-- ===== src/Payment/Webhook/Late.antt =====
-- A payment that comes when its booking has gone.
use sports_venue_management.Common.{
  ℕ, ◌+◌, ◌≡◌, refl, inl, inr, true, some, List, [], ◌∷◌, ◌==◌, if◌then◌else◌, Bool-cases,
  Option-cases, sym, ap, ◌∙◌, ◌≢◌, ==_refl,
}
use mathlib.Core.Path.{subst}
use sports_venue_management.Common.Outcome.{ok, Result-cases}
use sports_venue_management.Entities.{Booking, Payment, confirmed, cancelled, refunded, status_eq}
use sports_venue_management.Mongo.{Mongo, update_was}
use sports_venue_management.Wallet.{Faults, balance_of}
use sports_venue_management.Platform.{Platform, refund}
use sports_venue_management.Payment.Service.{reference_of}
use sports_venue_management.Payment.Refunds.{refund_amounts}
use sports_venue_management.Payment.Fulfilment.{
  Callback, late, card_paid, return_late, expire_refunded, expire_each, is_fulfilled, refund_late,
  confirm_payment,
}
use sports_venue_management.Payment.Webhook.{payment_of, handle_paymob_webhook}
use sports_venue_management.Payment.Webhook.Runs.{handle_paymob_webhook-Run}

module _ (mongo : Mongo) where
  open mongo use {Docs, find_by_id, update, find_by_id-update}

  expire_each-confirmed :
      (xs : List (ℕ × Booking)) (d : Docs Booking) (i : ℕ) (b : Booking)
      → find_by_id (expire_each mongo xs d) i ≡ some b
      → b.status ≡ confirmed
      → find_by_id d i ≡ some b
  unfolding expire_each
  expire_each-confirmed [] d i b h live = h
  expire_each-confirmed (e ∷ rest) d i b h live =
      elim (Bool-cases (status_eq e.1.status cancelled)) [
        | inl gone ↦ expire_each-confirmed rest d i b (rw (expire_each, gone) at h) live
        | inr other ↦
            let next =
              expire_each-confirmed rest (update e.0 expire_refunded d) i b
                (rw (expire_each, other) at h) live in
            let (w, stored, became) = update_was mongo e.0 i expire_refunded d b next in
            elim became [
              | inl (same, gone) ↦ absurd (cc (ap (λ x. x.status) gone, live))
              | inr (apart, kept) ↦ rw kept stored
            ]
      ]

  abbrev pub Returned : Callback → ℕ → Payment → Platform mongo → Platform mongo → Type 0
  Returned c id y p q =
      ((v : ℕ)
        → balance_of mongo v q.accounts.wallets
          ≡ balance_of mongo v p.accounts.wallets + (if y.user_id == v then card_paid c y else 0))
      × ((z : Payment)
          → find_by_id q.payments id ≡ some z
          → (z.status ≡ refunded)
            × (z.amount ≡ card_paid c y)
            × (z.refunded_amount ≡ card_paid c y))
      × ((i : ℕ) (b : Booking)
          → find_by_id q.bookings i ≡ some b
          → b.status ≡ confirmed
          → find_by_id p.bookings i ≡ some b)

  refund_late-Returned :
      (f : Faults) (now : ℕ) (c : Callback) (id : ℕ) (y : Payment) (targets : List (ℕ × Booking))
      (p : Platform mongo)
      → (refund_late mongo f now c id y targets p).0 ≡ ok late
      → Returned c id y p (refund_late mongo f now c id y targets p).1
  unfolding refund_late return_late
  refund_late-Returned f now c id y targets p h =
      let amount = card_paid c y in
      elim (Result-cases (refund mongo f y.user_id amount (reference_of y) p.accounts).0) [
        | inl (e, failed) ↦ absurd (cc (rw (refund_late, failed) at h))
        | inr (t, done) ↦
            rw (refund_late, done)
              (
                (λ v. refund_amounts mongo y.user_id amount (reference_of y) p.accounts f t v done),
                (λ z here.
                    let (w, stored, became) =
                      update_was mongo id id (return_late now amount) p.payments z here in
                    elim became [
                      | inl (same, back) ↦ rw back (refl, refl, refl)
                      | inr (apart, kept) ↦ absurd (cc (apart, ==_refl id))
                    ]),
                λ i b here live. expire_each-confirmed targets p.bookings i b here live,
              )
      ]

  confirm_payment-not_late :
      (f : Faults) (now : ℕ) (c : Callback) (id : ℕ) (y : Payment) (b : Booking)
      (targets : List (ℕ × Booking)) (p : Platform mongo)
      → (confirm_payment mongo f now c id y b targets p).0 ≢ ok late
  unfolding confirm_payment
  confirm_payment-not_late f now c id y b targets p h =
      elim (Option-cases (find_by_id p.payments id)) [
        | inl missing ↦ cc (rw (confirm_payment, missing) at h)
        | inr (z, stored) ↦ elim (Bool-cases (is_fulfilled z)) [
          | inl twice ↦ cc (rw (confirm_payment, stored, twice) at h)
          | inr fresh ↦ cc (rw (confirm_payment, stored, fresh) at h)
        ]
      ]

  -- A payment that is answered as late, whatever the store throws and other requests do before its
  -- first write, goes to the wallet of its customer, by as much as the gateway reports and to no
  -- other wallet; the payment is stored as refunded over the same amount, and no booking is
  -- confirmed by it.
  pub handle_paymob_webhook-late :
      (f : Faults) (during : Platform mongo → Platform mongo) (now : ℕ) (c : Callback)
      (p : Platform mongo)
      → (handle_paymob_webhook mongo f during now true (some c) p).0 ≡ ok late
      → (reference : ℕ) × (e : ℕ × Payment) × (c.reference ≡ some reference)
        × (payment_of mongo reference p.payments ≡ some e)
        × Returned c e.0 e.1 (during p) (handle_paymob_webhook mongo f during now true (some c) p).1
  handle_paymob_webhook-late f during now c p h =
      let run = handle_paymob_webhook-Run mongo f during now c p late h refl in
      (
        run.reference,
        (run.id, run.payment),
        run.named,
        run.found,
        elim run.ran [
          | inl gone ↦
              subst (λ x. Returned c run.id run.payment (during p) x.1) (sym gone)
                (refund_late-Returned f now c run.id run.payment _ (during p) (cc (h, gone)))
          | inr live ↦ absurd (
              confirm_payment-not_late f now c run.id run.payment run.booking.1 _ (during p)
                (sym (ap (λ r. r.0) live) ∙ h))
        ],
      )
