-- ===== src/Payment/Webhook/Replay.antt =====
-- Callbacks that are delivered again, and callbacks that overlap.
use sports_venue_management.Common.{
  ℕ, ◌≡◌, ◌⊎◌, refl, inl, inr, Bool, true, false, some, List, arith, ==_refl, Bool-cases,
  Option-cases, ltb, sym, ap, ◌∙◌,
}
use mathlib.Core.Path.{subst}
use sports_venue_management.Common.Outcome.{Result, ok, Result-cases}
use sports_venue_management.Entities.{
  Booking, Payment, PaymentStatus, paid, refunded, payment_status_eq,
}
use sports_venue_management.Mongo.{Mongo}
use sports_venue_management.Wallet.{Faults}
use sports_venue_management.Platform.{Platform, refund}
use sports_venue_management.Payment.Service.{reference_of}
use sports_venue_management.Booking.Settle.{group_final, target_status}
use sports_venue_management.Payment.Webhook.References.{
  HasUniqueReferences, payment_of-some, payment_of-stored, HasUniqueReferences-update,
}
use sports_venue_management.Payment.Webhook.Runs.{
  Run, moves_money, handle_paymob_webhook-found, handle_paymob_webhook-Run,
}
use sports_venue_management.Payment.Fulfilment.{
  raced, Callback, Answer, late, fulfilled, card_paid, return_late, fulfil, is_fulfilled,
  total_paid, refund_late, confirm_payment,
}
use sports_venue_management.Payment.Webhook.{
  located, is_duplicate, card_targets, handle_payment, payment_of, handle_paymob_webhook,
}

-- paid in full, or given back
abbrev pub IsClosed : Payment → Type 0
IsClosed y = (y.status ≡ paid) ⊎ (y.status ≡ refunded)

-- the answers after which nothing is left to be paid
abbrev pub is_final : Answer → Bool
is_final late = true
is_final (fulfilled s) = payment_status_eq s paid
is_final _ = false

settled : (x a : Answer) → Result.ok x ≡ ok a → is_final a ≡ true → is_final x ≡ true
settled x a h final = cc

final-moves_money : (a : Answer) → is_final a ≡ true → moves_money a ≡ true
final-moves_money a h = ground arith

paid_only : (s : PaymentStatus) → payment_status_eq s paid ≡ true → s ≡ paid
paid_only s h = ground arith

module _ (mongo : Mongo) where
  open mongo use {Docs, find_by_id, update, find_by_id-update}

  -- A callback for a payment that has been paid in full or given back changes nothing.
  handle_payment-closed :
      (f : Faults) (during : Platform mongo → Platform mongo) (now : ℕ) (c : Callback) (id : ℕ)
      (y : Payment) (p : Platform mongo)
      → IsClosed y
      → (handle_payment mongo f during now c id y p).1 ≡ p
  unfolding handle_payment
  handle_payment-closed f during now c id y p closed =
      elim (Option-cases (located mongo y p.bookings)) [
        | inl missing ↦ rw (handle_payment, missing) refl
        | inr (found, there) ↦ elim (Bool-cases (is_duplicate mongo c id p.payments)) [
          | inl twice ↦ rw (handle_payment, there, twice) refl
          | inr once ↦ elim closed [
            | inl full ↦ rw (handle_payment, there, once, full) refl
            | inr back ↦ rw (handle_payment, there, once, back) refl
          ]
        ]
      ]

  -- what the handler does to the payments where nothing is left to be paid
  abbrev Closes : ℕ → Platform mongo → Platform mongo → Type 0
  Closes id p q =
      (g : Payment → Payment) × (q.payments ≡ update id g p.payments)
      × ((y : Payment) → (g y).transaction_id ≡ y.transaction_id)
      × ((y : Payment) → IsClosed (g y))

  refund_late-Closes :
      (f : Faults) (now : ℕ) (c : Callback) (id : ℕ) (y : Payment) (targets : List (ℕ × Booking))
      (p : Platform mongo)
      → Closes id p (refund_late mongo f now c id y targets p).1
  unfolding refund_late return_late
  refund_late-Closes f now c id y targets p =
      let amount = card_paid c y in
      elim (Result-cases (refund mongo f y.user_id amount (reference_of y) p.accounts).0) [
        | inl (e, failed) ↦
            rw (refund_late, failed) (return_late now amount, refl, (λ z. refl), λ z. inr refl)
        | inr (t, done) ↦
            rw (refund_late, done) (return_late now amount, refl, (λ z. refl), λ z. inr refl)
      ]

  confirm_payment-Closes :
      (f : Faults) (now : ℕ) (c : Callback) (id : ℕ) (y : Payment) (b : Booking)
      (targets : List (ℕ × Booking)) (p : Platform mongo) (a : Answer)
      → (confirm_payment mongo f now c id y b targets p).0 ≡ ok a
      → is_final a ≡ true
      → Closes id p (confirm_payment mongo f now c id y b targets p).1
  unfolding confirm_payment fulfil
  confirm_payment-Closes f now c id y b targets p a h final =
      let s = target_status (ltb (total_paid c y) (group_final targets)) in
      elim (Option-cases (find_by_id p.payments id)) [
        | inl missing ↦ absurd (cc (settled raced a (rw (confirm_payment, missing) at h) final))
        | inr (z, stored) ↦ elim (Bool-cases (is_fulfilled z)) [
          | inl twice ↦
              absurd (cc (settled raced a (rw (confirm_payment, stored, twice) at h) final))
          | inr open_yet ↦
              let answered : Result.ok (fulfilled s) ≡ ok a =
                rw (confirm_payment, stored, open_yet) at h in
              let full = paid_only s (settled (fulfilled s) a answered final) in
              rw (confirm_payment, stored, open_yet)
                (fulfil s now c.txn, refl, (λ w. refl), λ w. inl full)
        ]
      ]

  Run-Closes :
      (f : Faults) (now : ℕ) (c : Callback) (p : Platform mongo)
      (r : Result Answer × Platform mongo) (a : Answer) (run : Run mongo f (λ q. q) now c p r)
      → r.0 ≡ ok a
      → is_final a ≡ true
      → Closes run.id p r.1
  Run-Closes f now c p r a run h final =
      let targets = card_targets mongo run.payment run.booking run.group p.bookings in
      elim run.ran [
        | inl gone ↦
            subst (λ x. Closes run.id p x.1) (sym gone)
              (refund_late-Closes f now c run.id run.payment targets p)
        | inr live ↦
            subst (λ x. Closes run.id p x.1) (sym live)
              (confirm_payment-Closes f now c run.id run.payment run.booking.1 targets p a
                (cc (h, live)) final)
      ]

  -- the payment of the reference, afterwards
  payment_of-Closes :
      (reference : ℕ) (e : ℕ × Payment) (p q : Platform mongo)
      → HasUniqueReferences mongo p.payments
      → payment_of mongo reference p.payments ≡ some e
      → Closes e.0 p q
      → (o : ℕ × Payment) × (payment_of mongo reference q.payments ≡ some o) × IsClosed o.1
  payment_of-Closes reference e p q unique found (g, moved, keeps, closed) =
      let was = payment_of-some mongo reference p.payments e found in
      let law = find_by_id-update e.0 e.0 g p.payments in
      let here : find_by_id q.payments e.0 ≡ some (g e.1) =
        rw (moved, law, ==_refl e.0, was.0) refl in
      let still : HasUniqueReferences mongo q.payments =
        rw moved (HasUniqueReferences-update mongo p.payments e.0 g keeps unique) in
      let (o, known, same) = payment_of-stored mongo q.payments e.0 (g e.1) still here in
      let named : (g e.1).transaction_id ≡ reference = cc (keeps e.1, was.1) in
      (
        o,
        subst (λ r. payment_of mongo r q.payments ≡ some o) named known,
        subst IsClosed (sym same) (closed e.1),
      )

  -- Once a callback has been answered as paid in full or as late, every further callback with its
  -- reference, whatever else it says, leaves the whole platform as it is.
  pub handle_paymob_webhook-replay :
      (f g : Faults) (during : Platform mongo → Platform mongo) (now later : ℕ) (c again : Callback)
      (p : Platform mongo) (a : Answer)
      → HasUniqueReferences mongo p.payments
      → (handle_paymob_webhook mongo f (λ q. q) now true (some c) p).0 ≡ ok a
      → is_final a ≡ true
      → again.reference ≡ c.reference
      → let q = (handle_paymob_webhook mongo f (λ q. q) now true (some c) p).1 in
        (handle_paymob_webhook mongo g during later true (some again) q).1 ≡ q
  handle_paymob_webhook-replay f g during now later c again p a unique h final same =
      let q = (handle_paymob_webhook mongo f (λ q. q) now true (some c) p).1 in
      let run =
        handle_paymob_webhook-Run mongo f (λ q. q) now c p a h (final-moves_money a final) in
      let (o, known, closed) =
        payment_of-Closes run.reference (run.id, run.payment) p q unique run.found
          (Run-Closes f now c p _ a run h final) in
      ap (λ r. r.1)
        (handle_paymob_webhook-found mongo g during later run.reference again q o
          (cc (same, run.named)) known)
      ∙ handle_payment-closed g during later again o.0 o.1 q closed
