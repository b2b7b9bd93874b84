-- ===== src/Booking/Status/Money.antt =====
-- What a change of status by hand does to the money.
use sports_venue_management.Common.{
  ℕ, ◌+◌, ◌≡◌, ◌≢◌, ◌⊎◌, refl, true, false, Option, none, some, arith, ltb, if◌then◌else◌, inl, inr,
  Bool-cases,
}
use sports_venue_management.Entities.{Booking, completed, Payment, paid, status_eq}
use sports_venue_management.Mongo.{Mongo}
use sports_venue_management.Platform.{Platform}
use sports_venue_management.Booking.Settle.{booking_final}
use sports_venue_management.Booking.Lifecycle.{actual_paid_amount}
use sports_venue_management.Booking.Status.{
  StatusBody, Setting, collected, asks_payment, change, update_data, remaining_due, records_cash,
  cash_payment, is_empty, update_stored, update_status,
}

-- the staff collects what is left
abbrev pub Collects : StatusBody → Type 0
Collects u = (asks_payment u paid ≡ true) ⊎ (u.collect_cash ≡ true)

change-Collects : (u : StatusBody) (b : Booking) → Collects u → change u b ≡ collected
unfolding change
change-Collects u b (inl h) = rw h refl
change-Collects u b (inr h) = ground arith

Collects-is_empty : (u : StatusBody) → Collects u → is_empty u ≡ false
unfolding is_empty
Collects-is_empty u h = ground arith

-- What was paid and what is left make up the price.
abbrev pub AddsUp : Booking → Type 0
AddsUp b = actual_paid_amount b + b.remaining_amount ≡ booking_final b

due_of :
    (u : StatusBody) (b : Booking)
    → u.cash_amount ≡ none
    → AddsUp b
    → actual_paid_amount b + remaining_due u b ≡ booking_final b
unfolding remaining_due
due_of u b h e = rw h (ground arith)

amount_of : Option Payment → ℕ
amount_of none = 0
amount_of (some y) = y.amount

module _ (mongo : Mongo) where
  open mongo use {Docs, find_by_id, update, insert, find_by_id-update, find_by_id-insert}

  -- the amount of a stored payment, 0 where there is none
  unfoldable pub stored_amount : ℕ → Platform mongo → ℕ
  unfolding amount_of
  stored_amount i p = amount_of (find_by_id p.payments i)

  recorded_amount :
      (s : Setting) (id : ℕ) (u : StatusBody) (b : Booking) (d : Docs Payment)
      → find_by_id d s.fresh ≡ none
      → s.payment_fails ≡ false
      → amount_of (
          find_by_id
            (if records_cash s collected u b
              then insert s.fresh
                  (cash_payment s.now s.transaction s.staff id b (remaining_due u b))
                  d
              else d)
            s.fresh)
        ≡ remaining_due u b
  unfolding records_cash cash_payment amount_of
  recorded_amount s id u b d new fine = elim (Bool-cases (ltb 0 (remaining_due u b))) [
    | inl some_due ↦
        let y = cash_payment s.now s.transaction s.staff id b (remaining_due u b) in
        ground (arith, some_due, fine, find_by_id-insert s.fresh s.fresh y d new)
    | inr nothing ↦ ground (arith, nothing, new)
  ]

  -- The staff collects what is left of a booking that is not completed and whose payments add up.
  -- Where the request names no amount and the new payment can be stored, the booking is then paid in
  -- full, and the cash payment that is recorded is exactly its price less what had been paid.
  pub update_status-Collects :
      (s : Setting) (id : ℕ) (u : StatusBody) (p : Platform mongo) (b : Booking)
      → find_by_id p.bookings id ≡ some b
      → b.status ≢ completed
      → Collects u
      → u.cash_amount ≡ none
      → AddsUp b
      → find_by_id p.payments s.fresh ≡ none
      → s.payment_fails ≡ false
      → let q = (update_status mongo s id u p).1 in
        ((c : Booking) × (find_by_id q.bookings id ≡ some c)
          × (c.payment_status ≡ paid)
          × (c.paid_amount ≡ booking_final b)
          × (c.remaining_amount ≡ 0))
        × (actual_paid_amount b + stored_amount s.fresh q ≡ booking_final b)
  unfolding update_status update_stored update_data stored_amount
  update_status-Collects s id u p b stored live collects named adds new fine =
      let not_closed : status_eq b.status completed ≡ false = ground arith in
      let amount = recorded_amount s id u b p.payments new fine in
      let due = due_of u b named adds in
      let asked = Collects-is_empty u collects in
      let branch = change-Collects u b collects in
      rw (stored, update_status, not_closed, asked, branch)
        (
          (
            update_data collected s.staff (records_cash s collected u b) u b,
            rw
                (
                  find_by_id-update id id
                      (update_data collected s.staff (records_cash s collected u b) u) p.bookings,
                  stored,
                )
                (ground arith),
            refl,
            refl,
            refl,
          ),
          rw amount due,
        )
