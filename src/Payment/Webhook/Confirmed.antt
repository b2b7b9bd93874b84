-- ===== src/Payment/Webhook/Confirmed.antt =====
-- A callback that confirms the bookings of its payment.
use sports_venue_management.Common.{
  ℕ, ◌+◌, ◌≡◌, ◌≢◌, ◌≤◌, ◌<◌, ◌⊎◌, ◌↔◌, min, ◌&&◌, refl, inl, inr, Bool, true, false, some, List,
  [], ◌∷◌, ◌==◌, ==_iff, if◌then◌else◌, Bool-cases, Option-cases, arith, sym, ap, ◌∙◌, ltb,
}
use mathlib.Core.Path.{subst}
use sports_venue_management.Common.Outcome.{ok, Result-cases}
use sports_venue_management.Entities.{Booking, Payment, PaymentStatus, paid, confirmed}
use sports_venue_management.Mongo.{Mongo, Found, update_here}
use sports_venue_management.Wallet.{Faults, balance_of}
use sports_venue_management.Wallet.Payments.{pay_for_booking_either}
use sports_venue_management.Platform.{Platform, refund}
use sports_venue_management.Booking.Settle.{booking_final, paid_share, group_final, target_status}
use sports_venue_management.Booking.Settle.Amounts.{paid_share-le}
use sports_venue_management.Booking.Pay.Settled.{HasShare, share_bounds}
use sports_venue_management.Payment.Service.{reference_of}
use sports_venue_management.Payment.Fulfilment.{
  Callback, fulfilled, is_fulfilled, fulfil, total_paid, card_share, confirm_card, confirm_each,
  card_paid, deduct, refund_late, confirm_payment,
}
use sports_venue_management.Payment.Webhook.{
  located, card_targets, payment_of, handle_paymob_webhook,
}
use sports_venue_management.Payment.Webhook.Targets.{
  Sound, WasRead, Sound-WasRead, Sound-Found, located-Sound, card_targets-Sound,
}
use sports_venue_management.Payment.Webhook.Runs.{handle_paymob_webhook-Run}

-- The booking as it was read, and as it is stored afterwards, when `total` came in for a group that
-- costs `due`: a deposit on a booking that had nothing paid is shared out by the prices, and
-- otherwise what came in is added to what was paid, up to the price.
abbrev pub IsConfirmed : ℕ → ℕ → Booking → Booking → Type 0
IsConfirmed due total b c =
    (c.status ≡ confirmed)
    × (c.paid_amount + c.remaining_amount ≡ booking_final b)
    × ((c.payment_status ≡ paid) ↔ (c.remaining_amount ≡ 0))
    × (total < due → b.paid_amount ≡ 0 → HasShare true due total b c)
    × (((due ≤ total) ⊎ (0 < b.paid_amount))
        → c.paid_amount ≡ min (booking_final b) (b.paid_amount + total))

paid_share-le_whole : (due total : ℕ) (b : Booking) → paid_share false due total b ≤ booking_final b
unfolding paid_share
paid_share-le_whole due total b = omega arith

card_share-le :
    (due total : ℕ) (b : Booking) → card_share (ltb total due) due total b ≤ booking_final b
unfolding card_share
card_share-le due total b = elim (Bool-cases (ltb total due && (b.paid_amount == 0))) [
  | inl part ↦ rw part (paid_share-le true due total b (ground arith))
  | inr whole ↦ rw whole (paid_share-le_whole due total b)
]

card_share_deposit :
    (due total : ℕ) (b : Booking)
    → total < due
    → b.paid_amount ≡ 0
    → card_share (ltb total due) due total b ≡ paid_share true due total b
unfolding card_share
card_share_deposit due total b less fresh =
    let part : (ltb total due && (b.paid_amount == 0)) ≡ true = ground arith in rw part refl

card_share_rest :
    (due total : ℕ) (b : Booking)
    → ((due ≤ total) ⊎ (0 < b.paid_amount))
    → card_share (ltb total due) due total b ≡ min (booking_final b) (b.paid_amount + total)
unfolding card_share paid_share
card_share_rest due total b other =
    let whole : (ltb total due && (b.paid_amount == 0)) ≡ false = ground arith in rw whole refl

confirm_card-IsConfirmed :
    (due total : ℕ) (b stored : Booking)
    → IsConfirmed due total b (confirm_card (ltb total due) due total b stored)
unfolding confirm_card
confirm_card-IsConfirmed due total b stored =
    let bounded = card_share-le due total b in
    (
      refl,
      omega (arith, bounded),
      ground arith,
      (λ less fresh.
          rw (card_share_deposit due total b less fresh) (share_bounds due total b (omega arith))),
      λ other. card_share_rest due total b other,
    )

module _ (mongo : Mongo) where
  open mongo use {Docs, find_by_id, update, find_by_id-update}

  confirm_each-again :
      (dep : Bool) (due total : ℕ) (xs : List (ℕ × Booking)) (d : Docs Booking) (i : ℕ)
      (b w : Booking)
      → WasRead mongo i b xs
      → find_by_id d i ≡ some (confirm_card dep due total b w)
      → find_by_id (confirm_each mongo dep due total xs d) i ≡ some (confirm_card dep due total b w)
  unfolding confirm_each confirm_card
  confirm_each-again dep due total [] d i b w read h = h
  confirm_each-again dep due total (e ∷ rest) d i b w read h =
      confirm_each-again dep due total rest (update e.0 (confirm_card dep due total e.1) d) i b w
        read.1
        (elim (Bool-cases (e.0 == i)) [
          | inl same ↦
              rw (find_by_id-update e.0 i (confirm_card dep due total e.1) d, same, h)
                (rw (read.0 ((==_iff e.0 i).0 same)) refl)
          | inr other ↦ rw (find_by_id-update e.0 i (confirm_card dep due total e.1) d, other) h
        ])

  confirm_each-Found :
      (dep : Bool) (due total : ℕ) (xs : List (ℕ × Booking)) (d : Docs Booking) (i : ℕ)
      (b w : Booking)
      → WasRead mongo i b xs
      → Found i b xs
      → find_by_id d i ≡ some w
      → find_by_id (confirm_each mongo dep due total xs d) i ≡ some (confirm_card dep due total b w)
  unfolding confirm_each
  confirm_each-Found dep due total [] d i b w read there h = absurd there
  confirm_each-Found dep due total (e ∷ rest) d i b w read there h =
      let law = find_by_id-update e.0 i (confirm_card dep due total e.1) d in
      elim (Bool-cases (e.0 == i)) [
        | inl same ↦
            confirm_each-again dep due total rest _ i b w read.1
              (rw (law, same, h) (rw (read.0 ((==_iff e.0 i).0 same)) refl))
        | inr other ↦ elim there [
          | inl here ↦ absurd (cc (other, (==_iff e.0 i).1 here.0))
          | inr later ↦
              confirm_each-Found dep due total rest _ i b w read.1 later (rw (law, other) h)
        ]
      ]

  -- the wallet has paid its part of the payment, or nothing of it
  abbrev pub Deducted : Payment → Platform mongo → Platform mongo → Type 0
  Deducted y p q =
      ((v : ℕ) → balance_of mongo v q.accounts.wallets ≡ balance_of mongo v p.accounts.wallets)
      ⊎ ((v : ℕ)
          → balance_of mongo v q.accounts.wallets
              + (if y.user_id == v then y.wallet_deduction else 0)
            ≡ balance_of mongo v p.accounts.wallets)

  deduct-Deducted :
      (f : Faults) (y : Payment) (p q : Platform mongo)
      → q.accounts ≡ deduct mongo f y p.accounts
      → Deducted y p q
  unfolding deduct
  deduct-Deducted f y p q h = elim (Bool-cases (ltb 0 y.wallet_deduction)) [
    | inl some_amount ↦
        rw (h, deduct, some_amount)
          (pay_for_booking_either mongo f y.user_id y.wallet_deduction (reference_of y) p.accounts)
    | inr nothing ↦ inl (λ v. rw (h, deduct, nothing) refl)
  ]

  abbrev pub Confirms :
      PaymentStatus
      → ℕ
      → Callback
      → ℕ
      → Payment
      → List (ℕ × Booking)
      → Platform mongo
      → Platform mongo
      → Type 0
  Confirms s now c id y targets p q =
      ((z : Payment) × (find_by_id p.payments id ≡ some z)
        × (is_fulfilled z ≡ false)
        × (find_by_id q.payments id ≡ some (fulfil s now c.txn z)))
      × (s ≡ target_status (ltb (total_paid c y) (group_final targets)))
      × ((i : ℕ) (b w : Booking)
          → Found i b targets
          → find_by_id p.bookings i ≡ some w
          → (v : Booking) × (find_by_id q.bookings i ≡ some v)
            × IsConfirmed (group_final targets) (total_paid c y) b v)
      × Deducted y p q

  confirm_payment-Confirms :
      (f : Faults) (now : ℕ) (c : Callback) (id : ℕ) (y : Payment) (b : Booking)
      (targets : List (ℕ × Booking)) (d : Docs Booking) (p : Platform mongo) (s : PaymentStatus)
      → Sound mongo targets d
      → (confirm_payment mongo f now c id y b targets p).0 ≡ ok (fulfilled s)
      → Confirms s now c id y targets p (confirm_payment mongo f now c id y b targets p).1
  unfolding confirm_payment
  confirm_payment-Confirms f now c id y b targets d p s sound h =
      let due = group_final targets in
      let total = total_paid c y in
      let t = target_status (ltb total due) in
      elim (Option-cases (find_by_id p.payments id)) [
        | inl missing ↦ absurd (cc (rw (confirm_payment, missing) at h))
        | inr (z, stored) ↦ elim (Bool-cases (is_fulfilled z)) [
          | inl twice ↦ absurd (cc (rw (confirm_payment, stored, twice) at h))
          | inr fresh ↦
              let same : t ≡ s = cc (rw (confirm_payment, stored, fresh) at h) in
              rw (confirm_payment, stored, fresh)
                (
                  (
                    z,
                    refl,
                    fresh,
                    subst
                        (λ u.
                          find_by_id (update id (fulfil t now c.txn) p.payments) id
                          ≡ some (fulfil u now c.txn z))
                        same (update_here mongo id (fulfil t now c.txn) p.payments z stored),
                  ),
                  sym same,
                  (λ i e w there here. (
                    confirm_card (ltb total due) due total e w,
                    confirm_each-Found (ltb total due) due total targets p.bookings i e w
                        (Sound-WasRead mongo targets d i e sound
                          (Sound-Found mongo targets d i e sound there))
                        there here,
                    confirm_card-IsConfirmed due total e w,
                  )),
                  deduct-Deducted f y p (record p { accounts = deduct mongo f y p.accounts }) refl,
                )
        ]
      ]

  refund_late-not_fulfilled :
      (f : Faults) (now : ℕ) (c : Callback) (id : ℕ) (y : Payment) (targets : List (ℕ × Booking))
      (p : Platform mongo) (s : PaymentStatus)
      → (refund_late mongo f now c id y targets p).0 ≢ ok (fulfilled s)
  unfolding refund_late
  refund_late-not_fulfilled f now c id y targets p s h =
      elim (Result-cases (refund mongo f y.user_id (card_paid c y) (reference_of y) p.accounts).0) [
        | inl (e, failed) ↦ cc (rw (refund_late, failed) at h)
        | inr (t, done) ↦ cc (rw (refund_late, done) at h)
      ]

  -- A callback that is answered as fulfilled, whatever the store throws and other requests do
  -- before its first write, meets a payment that nobody has fulfilled and stores it under the
  -- answered status, which is a partial one exactly if less came in than the bookings cost. Each
  -- stored booking that it was for is confirmed: its paid and remaining amounts make up its price,
  -- and it counts as paid exactly if nothing remains. Of what came in, card and wallet together, a
  -- booking that was read with nothing paid gets the share of its price, to within half a hundredth,
  -- where less came in than the group costs; any other booking has, up to its price, what came in
  -- paid on top of what was paid when it was read. The wallet pays the whole of its part or nothing.
  pub handle_paymob_webhook-fulfilled :
      (f : Faults) (during : Platform mongo → Platform mongo) (now : ℕ) (c : Callback)
      (p : Platform mongo) (s : PaymentStatus)
      → (handle_paymob_webhook mongo f during now true (some c) p).0 ≡ ok (fulfilled s)
      → (reference : ℕ) × (e : ℕ × Payment) × (booking : ℕ × Booking) × (group : List (ℕ × Booking))
        × (c.reference ≡ some reference)
        × (payment_of mongo reference p.payments ≡ some e)
        × (located mongo e.1 p.bookings ≡ some (booking, group))
        × Confirms s now c e.0 e.1
            (card_targets mongo e.1 booking group p.bookings)
            (during p)
            (handle_paymob_webhook mongo f during now true (some c) p).1
  handle_paymob_webhook-fulfilled f during now c p s h =
      let run = handle_paymob_webhook-Run mongo f during now c p (fulfilled s) h refl in
      let targets = card_targets mongo run.payment run.booking run.group p.bookings in
      (
        run.reference,
        (run.id, run.payment),
        run.booking,
        run.group,
        run.named,
        run.found,
        run.there,
        elim run.ran [
          | inl gone ↦ absurd (
              refund_late-not_fulfilled f now c run.id run.payment targets (during p) s
                (sym (ap (λ r. r.0) gone) ∙ h))
          | inr live ↦
              subst (λ x. Confirms s now c run.id run.payment targets (during p) x.1) (sym live)
                (confirm_payment-Confirms f now c run.id run.payment run.booking.1 targets
                  p.bookings (during p) s
                  (card_targets-Sound mongo run.payment run.booking run.group p.bookings
                    (located-Sound mongo run.payment run.booking run.group p.bookings run.there))
                  (sym (ap (λ r. r.0) live) ∙ h))
        ],
      )
