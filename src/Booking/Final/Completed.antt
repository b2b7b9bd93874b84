-- ===== src/Booking/Final/Completed.antt =====
-- A completed booking is final.
use sports_venue_management.Common.{
  ℕ, ◌≡◌, refl, Bool, false, not, Option, some, List, [], ◌∷◌, arith, ◌==◌, ==_iff, filter,
  Bool-cases, Option-cases, inl, inr,
}
use mathlib.Core.Option.{some-injective}
use sports_venue_management.Common.Outcome.{Result, ok, err, slot_taken, Result-cases}
use sports_venue_management.Entities.{
  Booking, BookingStatus, completed, expired, no_show, Role, status_eq,
}
use sports_venue_management.Mongo.{Mongo}
use sports_venue_management.Wallet.{Faults}
use sports_venue_management.Platform.{Platform}
use sports_venue_management.Booking.Slots.{Slot}
use sports_venue_management.Booking.Reserve.{
  delete_all, clear_slots, valid_overlaps, in_the_way, is_third_party, has_run_out,
}
use sports_venue_management.Booking.Lifecycle.{
  SuspendFaults, check_cancel, cancel, cancel_booking, cancel_stored, cancel_upcoming, is_upcoming,
  is_expired_hold, is_overdue, mark_all, clean,
}
use sports_venue_management.Booking.Status.{
  StatusBody, Setting, update_status, update_stored, change, is_empty, update_data, records_cash,
}
use sports_venue_management.Booking.Final.{
  Step, Steps, cancelling, updating, suspending, cleaning, clearing, creating, nothing, before,
}
use sports_venue_management.Booking.Final.Skips.{
  Skips-filter, Skips-found, All-stored, All-filter_kept, mark_all-Skips, delete_all-Skips,
  suspend_each-Skips, create_all-Skips,
}

module _ (mongo : Mongo) where
  open mongo use {Docs, find, find_by_id, update, find_by_id-update, find_sound}

  other_update :
      (f : Booking → Booking) (id i : ℕ) (o : Option Booking) (d : Docs Booking)
      → (id == i) ≡ false
      → find_by_id d i ≡ o
      → find_by_id (update id f d) i ≡ o
  other_update f id i o d apart h = rw (find_by_id-update id i f d, apart) h

  cancel_keeps :
      (f : Faults) (now id user i : ℕ) (role : Role) (p : Platform mongo) (b : Booking)
      → find_by_id p.bookings i ≡ some b
      → b.status ≡ completed
      → find_by_id (cancel_booking mongo f now id user role p).1.bookings i ≡ some b
  unfolding cancel_booking cancel_stored check_cancel
  cancel_keeps f now id user i role p b stored c = elim (Option-cases (find_by_id p.bookings id)) [
    | inl missing ↦ rw (missing, cancel_booking) stored
    | inr (x, found) ↦ elim (Result-cases (check_cancel now user role x)) [
      | inl (e, refused) ↦ rw (found, cancel_booking, refused) stored
      | inr (u, fine) ↦ elim (Bool-cases (id == i)) [
        | inl same ↦
            let e = (==_iff id i).0 same in
            let is_b = some-injective x b (cc (found, stored, e)) in
            let closed : x.status ≡ completed = cc (is_b, c) in
            absurd (ground (arith, closed, fine))
        | inr apart ↦
            rw (found, cancel_booking, fine)
              (other_update cancel id i (some b) p.bookings apart stored)
      ]
    ]
  ]

  update_keeps :
      (s : Setting) (id i : ℕ) (u : StatusBody) (p : Platform mongo) (b : Booking)
      → find_by_id p.bookings i ≡ some b
      → b.status ≡ completed
      → find_by_id (update_status mongo s id u p).1.bookings i ≡ some b
  unfolding update_status update_stored
  update_keeps s id i u p b stored c = elim (Option-cases (find_by_id p.bookings id)) [
    | inl missing ↦ rw (missing, update_status) stored
    | inr (x, found) ↦ elim (Bool-cases (status_eq x.status completed)) [
      | inl closed ↦ rw (found, update_status, closed) stored
      | inr open_still ↦ elim (Bool-cases (is_empty u)) [
        | inl blank ↦ rw (found, update_status, open_still, blank) stored
        | inr asked ↦ elim (Bool-cases (id == i)) [
          | inl same ↦
              let e = (==_iff id i).0 same in
              let is_b = some-injective x b (cc (found, stored, e)) in
              let closed : x.status ≡ completed = cc (is_b, c) in
              absurd (ground (arith, closed, open_still))
          | inr apart ↦
              rw (found, update_status, open_still, asked)
                (other_update (update_data (change u x) s.staff (records_cash s (change u x) u x) u)
                  id i (some b) p.bookings apart stored)
        ]
      ]
    ]
  ]

  upcoming_open :
      (now user : ℕ) (b : Booking) → b.status ≡ completed → is_upcoming now user b ≡ false
  unfolding is_upcoming
  upcoming_open now user b c = rw c (ground arith)

  suspend_keeps :
      (f : SuspendFaults) (now user i : ℕ) (p : Platform mongo) (b : Booking)
      → find_by_id p.bookings i ≡ some b
      → b.status ≡ completed
      → find_by_id (cancel_upcoming mongo f now user p).bookings i ≡ some b
  unfolding cancel_upcoming
  suspend_keeps f now user i p b stored c =
      let upcoming = find (is_upcoming now user) p.bookings in
      let kept =
        suspend_each-Skips mongo f now i (some b) upcoming p
          (Skips-found mongo (is_upcoming now user) i b upcoming p.bookings
            (find_sound (is_upcoming now user) p.bookings) stored (upcoming_open now user b c))
          stored in
      elim (Option-cases f.query) [
        | inr (e, thrown) ↦ rw (cancel_upcoming, thrown) stored
        | inl found ↦ rw (cancel_upcoming, found) kept
      ]

  mark_keeps :
      (s : BookingStatus) (q : Booking → Bool) (i : ℕ) (d : Docs Booking) (b : Booking)
      → find_by_id d i ≡ some b
      → q b ≡ false
      → find_by_id (mark_all mongo s (find q d) d) i ≡ some b
  mark_keeps s q i d b stored out =
      mark_all-Skips mongo s i (some b) (find q d) d
        (Skips-found mongo q i b (find q d) d (find_sound q d) stored out) stored

  hold_open : (now : ℕ) (b : Booking) → b.status ≡ completed → is_expired_hold now b ≡ false
  unfolding is_expired_hold
  hold_open now b c = rw c refl

  overdue_open : (now : ℕ) (b : Booking) → b.status ≡ completed → is_overdue now b ≡ false
  unfolding is_overdue
  overdue_open now b c = rw c refl

  clean_keeps :
      (now i : ℕ) (d : Docs Booking) (b : Booking)
      → find_by_id d i ≡ some b
      → b.status ≡ completed
      → find_by_id (clean mongo now d) i ≡ some b
  unfolding clean
  clean_keeps now i d b stored c =
      mark_keeps no_show (is_overdue now) i
        (mark_all mongo expired (find (is_expired_hold now) d) d) b
        (mark_keeps expired (is_expired_hold now) i d b stored (hold_open now b c))
        (overdue_open now b c)

  third_party_completed :
      (user : ℕ) (b : Booking) → b.status ≡ completed → not (is_third_party user b) ≡ false
  unfolding is_third_party
  third_party_completed user b c = rw c refl

  clear_keeps :
      (now user venue day i : ℕ) (slots : List Slot) (d : Docs Booking) (b : Booking)
      → find_by_id d i ≡ some b
      → b.status ≡ completed
      → find_by_id (clear_slots mongo now user venue day slots d).1 i ≡ some b
  unfolding clear_slots valid_overlaps
  clear_keeps now user venue day i slots d b stored c =
      let found = find (in_the_way venue day slots) d in
      let overlaps = valid_overlaps mongo now venue day slots d in
      let mine = filter (λ e. not (is_third_party user e.1)) overlaps in
      let skip =
        Skips-filter mongo (λ x. not (is_third_party user x)) i b overlaps d
          (All-filter_kept mongo (λ e. not (has_run_out now e.1)) found d
            (All-stored mongo (in_the_way venue day slots) found d
              (find_sound (in_the_way venue day slots) d)))
          stored (third_party_completed user b c) in
      clear_cases (filter (λ e. is_third_party user e.1) overlaps)
        (delete_all-Skips mongo i (some b) mine d skip stored)
    where
      clear_cases :
          (theirs : List (ℕ × Booking))
          → find_by_id
              (delete_all mongo
                (filter
                  (λ e. not (is_third_party user e.1))
                  (valid_overlaps mongo now venue day slots d))
                d)
              i
            ≡ some b
          → find_by_id
              (elim theirs as (λ xs. Result (Unit {0}) × Docs Booking) [
                | conflict ∷ more ↦ (err slot_taken, d)
                | [] ↦ (
                  ok tt,
                  delete_all mongo
                      (filter
                        (λ e. not (is_third_party user e.1))
                        (valid_overlaps mongo now venue day slots d))
                      d,
                )
              ]).1
              i
            ≡ some b
      clear_cases [] h = h
      clear_cases (x ∷ xs) h = stored

  Step-keeps :
      (p q : Platform mongo) (i : ℕ) (b : Booking)
      → Step mongo p q
      → find_by_id p.bookings i ≡ some b
      → b.status ≡ completed
      → find_by_id q.bookings i ≡ some b
  Step-keeps _ _ i b (cancelling f now id user role p) h c =
      cancel_keeps f now id user i role p b h c
  Step-keeps _ _ i b (updating s id u p) h c = update_keeps s id i u p b h c
  Step-keeps _ _ i b (suspending f now user p) h c = suspend_keeps f now user i p b h c
  Step-keeps _ _ i b (cleaning now p) h c = clean_keeps now i p.bookings b h c
  Step-keeps _ _ i b (clearing now user venue day slots p) h c =
      clear_keeps now user venue day i slots p.bookings b h c
  Step-keeps _ _ i b (creating g ids faults cs p fresh) h c =
      create_all-Skips mongo g ids faults 0 i b cs [] p.bookings fresh tt h

  -- A completed booking is final: whatever sequence of cancellations, status updates, suspensions,
  -- clean-up runs and reservations follows, successful or not, the booking stays in the store
  -- exactly as it is.
  pub completed_final :
      {p q : Platform mongo} (i : ℕ) (b : Booking)
      → Steps mongo p q
      → find_by_id p.bookings i ≡ some b
      → b.status ≡ completed
      → find_by_id q.bookings i ≡ some b
  completed_final i b (nothing p) h c = h
  completed_final i b (before {q = q} {r = r} steps last) h c =
      Step-keeps q r i b last (completed_final i b steps h c) c
