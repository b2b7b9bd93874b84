-- ===== src/Payment/Webhook/Runs.antt =====
-- The callbacks that move money: what the handler has found before it refunds or confirms.
use sports_venue_management.Common.{
  ℕ, ◌≡◌, ◌⊎◌, refl, inl, inr, Bool, true, false, some, List, any, Bool-cases, Option-cases, ◌||◌,
  ◌∙◌,
}
use sports_venue_management.Common.Outcome.{Result, ok}
use sports_venue_management.Entities.{Booking, Payment, paid, refunded, payment_status_eq}
use sports_venue_management.Mongo.{Mongo}
use sports_venue_management.Wallet.{Faults}
use sports_venue_management.Platform.{Platform}
use sports_venue_management.Payment.Fulfilment.{
  Callback, Answer, late, fulfilled, is_gone, is_fulfilled, refund_late, confirm_payment,
}
use sports_venue_management.Payment.Webhook.{
  located, is_duplicate, card_targets, apply_callback, handle_payment, payment_of,
  handle_paymob_webhook,
}

-- the answers of a refund and of a confirmation
abbrev pub moves_money : Answer → Bool
moves_money late = true
moves_money (fulfilled s) = true
moves_money _ = false

told : (x a : Answer) → Result.ok x ≡ ok a → moves_money a ≡ true → moves_money x ≡ true
told x a h moved = cc

module _ (mongo : Mongo) where
  -- a run of the handler that has come to its refund or to its confirmation
  pub record Run (f : Faults) (during : Platform mongo → Platform mongo) (now : ℕ) (c : Callback)
      (p : Platform mongo) (r : Result Answer × Platform mongo) : Type 0 where
    pub reference : ℕ
    pub id : ℕ
    pub payment : Payment
    pub booking : ℕ × Booking
    pub group : List (ℕ × Booking)
    pub named : c.reference ≡ some reference
    pub found : payment_of mongo reference p.payments ≡ some (id, payment)
    pub there : located mongo payment p.bookings ≡ some (booking, group)
    pub ran :
        (r
          ≡ refund_late mongo f now c id payment
              (card_targets mongo payment booking group p.bookings)
              (during p))
        ⊎ (r
            ≡ confirm_payment mongo f now c id payment booking.1
                (card_targets mongo payment booking group p.bookings)
                (during p))

  apply_callback_moves :
      (f : Faults) (now : ℕ) (c : Callback) (id : ℕ) (y : Payment) (b : Booking)
      (targets : List (ℕ × Booking)) (p : Platform mongo) (a : Answer)
      → (apply_callback mongo f now c id y b targets p).0 ≡ ok a
      → moves_money a ≡ true
      → (apply_callback mongo f now c id y b targets p ≡ refund_late mongo f now c id y targets p)
        ⊎ (apply_callback mongo f now c id y b targets p
            ≡ confirm_payment mongo f now c id y b targets p)
  unfolding apply_callback
  apply_callback_moves f now c id y b targets p a h moved = elim (Bool-cases c.pending) [
    | inl waiting ↦ absurd (cc (told _ a (simp (apply_callback, waiting) at h) moved))
    | inr settled ↦ elim (Bool-cases c.success) [
      | inl went ↦ elim (Bool-cases (any (λ e. is_gone now e.1) targets)) [
        | inl gone ↦ inl (simp (apply_callback, settled, went, gone) refl)
        | inr live ↦ inr (simp (apply_callback, settled, went, live) refl)
      ]
      | inr failed ↦ elim (Bool-cases (is_fulfilled y || payment_status_eq y.status refunded)) [
        | inl before ↦
            absurd (cc (told _ a (simp (apply_callback, settled, failed, before) at h) moved))
        | inr fresh ↦
            absurd (cc (told _ a (simp (apply_callback, settled, failed, fresh) at h) moved))
      ]
    ]
  ]

  -- the handler, once the payment has been found
  pub handle_paymob_webhook-found :
      (f : Faults) (during : Platform mongo → Platform mongo) (now reference : ℕ) (c : Callback)
      (p : Platform mongo) (e : ℕ × Payment)
      → c.reference ≡ some reference
      → payment_of mongo reference p.payments ≡ some e
      → handle_paymob_webhook mongo f during now true (some c) p
        ≡ handle_payment mongo f during now c e.0 e.1 p
  unfolding handle_paymob_webhook
  handle_paymob_webhook-found f during now reference c p e named found =
      simp (handle_paymob_webhook, named, found) refl

  handle_paymob_webhook-names :
      (f : Faults) (during : Platform mongo → Platform mongo) (now : ℕ) (c : Callback)
      (p : Platform mongo) (a : Answer)
      → (handle_paymob_webhook mongo f during now true (some c) p).0 ≡ ok a
      → moves_money a ≡ true
      → (reference : ℕ) × (e : ℕ × Payment) × (c.reference ≡ some reference)
        × (payment_of mongo reference p.payments ≡ some e)
  unfolding handle_paymob_webhook
  handle_paymob_webhook-names f during now c p a h moved = elim (Option-cases c.reference) [
    | inl nothing ↦ absurd (cc (told _ a (rw (handle_paymob_webhook, nothing) at h) moved))
    | inr (reference, named) ↦ elim (Option-cases (payment_of mongo reference p.payments)) [
      | inl missing ↦ absurd (cc (told _ a (rw (handle_paymob_webhook, named, missing) at h) moved))
      | inr (e, found) ↦ (reference, e, named, found)
    ]
  ]

  handle_payment_moves :
      (f : Faults) (during : Platform mongo → Platform mongo) (now : ℕ) (c : Callback) (id : ℕ)
      (y : Payment) (p : Platform mongo) (a : Answer)
      → (handle_payment mongo f during now c id y p).0 ≡ ok a
      → moves_money a ≡ true
      → (booking : ℕ × Booking) × (group : List (ℕ × Booking)) × (located mongo y p.bookings
          ≡ some (booking, group))
        × (handle_payment mongo f during now c id y p
            ≡ apply_callback mongo f now c id y booking.1
                (card_targets mongo y booking group p.bookings)
                (during p))
  unfolding handle_payment
  handle_payment_moves f during now c id y p a h moved =
      elim (Option-cases (located mongo y p.bookings)) [
        | inl missing ↦ absurd (cc (told _ a (rw (handle_payment, missing) at h) moved))
        | inr (found, there) ↦ elim (Bool-cases (is_duplicate mongo c id p.payments)) [
          | inl twice ↦ absurd (cc (told _ a (rw (handle_payment, there, twice) at h) moved))
          | inr once ↦ elim (Bool-cases (payment_status_eq y.status paid)) [
            | inl full ↦ absurd (cc (told _ a (rw (handle_payment, there, once, full) at h) moved))
            | inr open_yet ↦ elim (Bool-cases (payment_status_eq y.status refunded)) [
              | inl back ↦
                  absurd
                    (cc (told _ a (rw (handle_payment, there, once, open_yet, back) at h) moved))
              | inr kept ↦
                  (found.0, found.1, there, simp (handle_payment, there, once, open_yet, kept) refl)
            ]
          ]
        ]
      ]

  pub handle_paymob_webhook-Run :
      (f : Faults) (during : Platform mongo → Platform mongo) (now : ℕ) (c : Callback)
      (p : Platform mongo) (a : Answer)
      → (handle_paymob_webhook mongo f during now true (some c) p).0 ≡ ok a
      → moves_money a ≡ true
      → Run f during now c p (handle_paymob_webhook mongo f during now true (some c) p)
  handle_paymob_webhook-Run f during now c p a h moved =
      let (reference, e, named, found) = handle_paymob_webhook-names f during now c p a h moved in
      let first = handle_paymob_webhook-found f during now reference c p e named found in
      let (booking, group, there, second) =
        handle_payment_moves f during now c e.0 e.1 p a (cc (h, first)) moved in
      let targets = card_targets mongo e.1 booking group p.bookings in
      let both = first ∙ second in
      record {
        reference = reference;
        id = e.0;
        payment = e.1;
        booking = booking;
        group = group;
        named = named;
        found = found;
        there = there;
        ran =
            elim (apply_callback_moves f now c e.0 e.1 booking.1 targets (during p) a (cc (h, both))
              moved) [ inl gone ↦ inl (both ∙ gone) | inr live ↦ inr (both ∙ live) ];
      }
