-- ===== src/Booking/Final.antt =====
-- The operations on the bookings as steps of one state machine.
pub mod Skips
pub mod Completed
use sports_venue_management.Common.{
  ℕ, ◌+◌, ◌≤◌, ◌≡◌, refl, Bool, true, false, ◌&&◌, ◌||◌, not, Option, none, some, List, [], ◌∷◌,
  ◌++◌, arith, ◌==◌, ==_iff, All, filter, Bool-cases, Option-cases, inl, inr, if◌then◌else◌, ltb,
}
use mathlib.Core.Option.{some-injective}
use sports_venue_management.Common.Outcome.{Error, Result, ok, err, Result-cases}
use sports_venue_management.Entities.{
  Booking, BookingStatus, completed, expired, no_show, Role, status_eq,
}
use sports_venue_management.Mongo.{Mongo}
use sports_venue_management.Wallet.{Faults}
use sports_venue_management.Platform.{Platform}
use sports_venue_management.Booking.Slots.{Slot}
use sports_venue_management.Booking.Discount.{SlotCalculation}
use sports_venue_management.Booking.Reserve.{
  GroupDetails, new_booking, delete_all, create_all, clear_slots, valid_overlaps, in_the_way,
  is_third_party,
}
use sports_venue_management.Booking.Reserve.Atomic.{AreFresh, AreFresh-insert}
use sports_venue_management.Booking.Lifecycle.{
  SuspendFaults, check_cancel, cancel, cancel_booking, cancel_stored, suspend_one, suspend_each,
  cancel_upcoming, cancel_suspended, is_upcoming, is_expired_hold, is_overdue, mark, mark_all,
  clean,
}
use sports_venue_management.Booking.Status.{
  StatusBody, Setting, update_status, update_stored, change, is_empty,
}

module _ (mongo : Mongo) where
  -- One operation on the bookings, whether it succeeds or throws.
  pub data Step : Platform mongo → Platform mongo → Type 0 where
    cancelling :
        (f : Faults) (now id user : ℕ) (role : Role) (p : Platform mongo)
        → Step p (cancel_booking mongo f now id user role p).1
    updating :
        (s : Setting) (id : ℕ) (u : StatusBody) (p : Platform mongo)
        → Step p (update_status mongo s id u p).1
    suspending :
        (f : SuspendFaults) (now user : ℕ) (p : Platform mongo)
        → Step p (cancel_upcoming mongo f now user p)
    cleaning :
        (now : ℕ) (p : Platform mongo) → Step p (record p { bookings = clean mongo now p.bookings })
    clearing :
        (now user venue day : ℕ) (slots : List Slot) (p : Platform mongo)
        → Step p (record p { bookings = (clear_slots mongo now user venue day slots p.bookings).1 })
    creating :
        (g : GroupDetails) (ids : ℕ → ℕ) (faults : ℕ → Option Error) (cs : List SlotCalculation)
        (p : Platform mongo)
        → AreFresh mongo ids 0 p.bookings
        → Step p (record p { bookings = (create_all mongo g ids faults 0 cs [] p.bookings).1 })

  pub data Steps : Platform mongo → Platform mongo → Type 0 where
    nothing : (p : Platform mongo) → Steps p p
    before : {p q r : Platform mongo} → Steps p q → Step q r → Steps p r
