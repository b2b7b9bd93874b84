-- ===== src/Booking/Lifecycle/Cancel.antt =====
-- Who may cancel which booking, and what happens to the money.
use sports_venue_management.Common.{
  ℕ, ◌+◌, ◌*◌, ◌≤◌, ◌<◌, ◌≡◌, ◌≢◌, ◌↔◌, ◌⊎◌, refl, true, arith, if◌then◌else◌, inl, inr,
  Option-cases,
}
use sports_venue_management.Common.Outcome.{Error, ok, err, Result-cases}
use sports_venue_management.Entities.{
  Booking, cancelled, completed, pending, paid, partially_paid, Role, is_staff,
}
use sports_venue_management.Mongo.{Mongo}
use sports_venue_management.Wallet.{Faults}
use sports_venue_management.Platform.{Platform}
use sports_venue_management.Booking.Settle.{booking_final}
use sports_venue_management.Booking.Lifecycle.{
  ms_per_hour, cancellation_deadline, was_paid, actual_paid_amount, instant, is_within,
  check_cancel, cancel_booking,
}

-- the owner or the staff, an open booking, and early enough unless it is only a hold or the staff asks
abbrev pub MayCancel : ℕ → ℕ → Role → Booking → Type 0
MayCancel now user role b =
    ((b.user_id ≡ user) ⊎ (is_staff role ≡ true))
    × (b.status ≢ cancelled)
    × (b.status ≢ completed)
    × ((b.status ≡ pending)
        ⊎ ((is_staff role ≡ true)
            ⊎ (now + cancellation_deadline * ms_per_hour ≤ instant b b.start_time)))

-- A cancellation passes the guards exactly if the customer owns the booking or the staff asks, the
-- booking is neither cancelled nor completed, and it is a hold, or the staff asks, or its start is
-- at least 24 hours away.
pub check_cancel_iff :
    (now user : ℕ) (role : Role) (b : Booking)
    → (check_cancel now user role b ≡ ok tt) ↔ MayCancel now user role b
unfolding check_cancel is_within
check_cancel_iff now user role b = ground arith

-- What a booking that counts as paid or partially paid has to be paid back: what was paid, or, where
-- no amount was recorded, its price.
abbrev pub IsPaidBack : Booking → ℕ → Type 0
IsPaidBack b amount =
    ((b.payment_status ≢ paid) → (b.payment_status ≢ partially_paid) → amount ≡ 0)
    × (((b.payment_status ≡ paid) ⊎ (b.payment_status ≡ partially_paid))
        → (0 < b.paid_amount → amount ≡ b.paid_amount)
          × (b.paid_amount ≡ 0 → amount ≡ booking_final b))

-- what `cancelBooking` pays back
abbrev paid_back : Booking → ℕ
paid_back b = if was_paid b then actual_paid_amount b else 0

module _ (mongo : Mongo) where
  open mongo use {Docs, find_by_id, update, find_by_id-update}

  -- A cancellation that throws has changed nothing.
  cancel_booking-err :
      (f : Faults) (now id user : ℕ) (role : Role) (p : Platform mongo) (e : Error)
      → (cancel_booking mongo f now id user role p).0 ≡ err e
      → (cancel_booking mongo f now id user role p).1 ≡ p
  unfolding cancel_booking
  cancel_booking-err f now id user role p e h = elim (Option-cases (find_by_id p.bookings id)) [
    | inl missing ↦ rw (missing, cancel_booking) refl
    | inr (b, stored) ↦ elim (Result-cases (check_cancel now user role b)) [
      | inl (g, refused) ↦ rw (stored, cancel_booking, refused) refl
      | inr (u, fine) ↦ absurd (cc (rw (stored, cancel_booking, fine) at h))
    ]
  ]
