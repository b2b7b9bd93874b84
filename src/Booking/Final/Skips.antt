-- ===== src/Booking/Final/Skips.antt =====
-- The loops over the results of a query leave a booking alone that does not fit the query.
use sports_venue_management.Common.{
  ℕ, ◌+◌, ◌≡◌, Bool, true, false, Option, some, List, [], ◌∷◌, ◌++◌, arith, ◌==◌, ==_iff, All,
  filter, Bool-cases, Option-cases, inl, inr,
}
use mathlib.Core.Option.{some-injective}
use sports_venue_management.Common.Outcome.{Error}
use sports_venue_management.Entities.{Booking, BookingStatus}
use sports_venue_management.Mongo.{Mongo}
use sports_venue_management.Platform.{Platform}
use sports_venue_management.Booking.Discount.{SlotCalculation}
use sports_venue_management.Booking.Reserve.{GroupDetails, new_booking, delete_all, create_all}
use sports_venue_management.Booking.Reserve.Atomic.{AreFresh, AreFresh-insert}
use sports_venue_management.Booking.Lifecycle.{
  SuspendFaults, refund_suspended, suspend_one, suspend_each, cancel_suspended, mark, mark_all,
}

module _ (mongo : Mongo) where
  open mongo use {
    Docs, find, find_by_id, update, insert, delete, find_by_id-update, find_by_id-insert,
    find_by_id-delete, find_sound,
  }

  -- no entry of the list is about the booking `i`
  abbrev pub Skips : ℕ → List (ℕ × Booking) → Type 0
  Skips i xs = All (λ e. (e.0 == i) ≡ false) xs

  -- what a query returned and a filter kept, apart from a booking that does not fit
  pub Skips-filter :
      (q : Booking → Bool) (i : ℕ) (b : Booking) (xs : List (ℕ × Booking)) (d : Docs Booking)
      → All (λ e. (find_by_id d e.0 ≡ some e.1)) xs
      → find_by_id d i ≡ some b
      → q b ≡ false
      → Skips i (filter (λ e. q e.1) xs)
  Skips-filter q i b [] d sound stored out = tt
  Skips-filter q i b (x ∷ xs) d sound stored out =
      let rest = Skips-filter q i b xs d sound.1 stored out in
      elim (Bool-cases (q x.1)) [
        | inl kept ↦ elim (Bool-cases (x.0 == i)) [
          | inl same ↦
              let e = (==_iff x.0 i).0 same in
              let is_b = some-injective x.1 b (cc (sound.0, stored, e)) in
              absurd (cc (kept, out, is_b))
          | inr other ↦ rw kept (other, rest)
        ]
        | inr dropped ↦ rw dropped rest
      ]

  pub All-stored :
      (p : Booking → Bool) (xs : List (ℕ × Booking)) (d : Docs Booking)
      → All (λ e. (find_by_id d e.0 ≡ some e.1) × (p e.1 ≡ true)) xs
      → All (λ e. find_by_id d e.0 ≡ some e.1) xs
  All-stored p [] d h = tt
  All-stored p (x ∷ xs) d h = (h.0.0, All-stored p xs d h.1)

  pub Skips-found :
      (p : Booking → Bool) (i : ℕ) (b : Booking) (xs : List (ℕ × Booking)) (d : Docs Booking)
      → All (λ e. (find_by_id d e.0 ≡ some e.1) × (p e.1 ≡ true)) xs
      → find_by_id d i ≡ some b
      → p b ≡ false
      → Skips i xs
  Skips-found p i b [] d sound stored out = tt
  Skips-found p i b (x ∷ xs) d sound stored out = (
    elim (Bool-cases (x.0 == i)) [
      | inl same ↦
          let e = (==_iff x.0 i).0 same in
          let is_b = some-injective x.1 b (cc (sound.0.0, stored, e)) in
          absurd (cc (sound.0.1, out, is_b))
      | inr other ↦ other
    ],
    Skips-found p i b xs d sound.1 stored out,
  )

  pub All-filter_kept :
      (r : ℕ × Booking → Bool) (xs : List (ℕ × Booking)) (d : Docs Booking)
      → All (λ e. find_by_id d e.0 ≡ some e.1) xs
      → All (λ e. find_by_id d e.0 ≡ some e.1) (filter r xs)
  All-filter_kept r [] d h = tt
  All-filter_kept r (x ∷ xs) d h = elim (Bool-cases (r x)) [
    | inl kept ↦ rw kept (h.0, All-filter_kept r xs d h.1)
    | inr dropped ↦ rw dropped (All-filter_kept r xs d h.1)
  ]

  -- the loops leave the bookings alone that their list does not name
  pub mark_all-Skips :
      (s : BookingStatus) (i : ℕ) (o : Option Booking) (xs : List (ℕ × Booking)) (d : Docs Booking)
      → Skips i xs
      → find_by_id d i ≡ o
      → find_by_id (mark_all mongo s xs d) i ≡ o
  unfolding mark_all
  mark_all-Skips s i o [] d skip h = h
  mark_all-Skips s i o (x ∷ xs) d skip h =
      mark_all-Skips s i o xs (update x.0 (mark s) d) skip.1
        (rw (find_by_id-update x.0 i (mark s) d, skip.0) h)

  pub delete_all-Skips :
      (i : ℕ) (o : Option Booking) (xs : List (ℕ × Booking)) (d : Docs Booking)
      → Skips i xs
      → find_by_id d i ≡ o
      → find_by_id (delete_all mongo xs d) i ≡ o
  unfolding delete_all
  delete_all-Skips i o [] d skip h = h
  delete_all-Skips i o (x ∷ xs) d skip h =
      delete_all-Skips i o xs (delete x.0 d) skip.1 (rw (find_by_id-delete x.0 i d, skip.0) h)

  pub suspend_each-Skips :
      (f : SuspendFaults) (now i : ℕ) (o : Option Booking) (xs : List (ℕ × Booking))
      (p : Platform mongo)
      → Skips i xs
      → find_by_id p.bookings i ≡ o
      → find_by_id (suspend_each mongo f now xs p).bookings i ≡ o
  unfolding suspend_each suspend_one refund_suspended
  suspend_each-Skips f now i o [] p skip h = h
  suspend_each-Skips f now i o (x ∷ xs) p skip h = elim (Option-cases (f.write x.0)) [
    | inr (e, thrown) ↦ rw (suspend_each, thrown, refund_suspended) h
    | inl fine ↦
        rw (suspend_each, fine)
          (suspend_each-Skips f now i o xs (suspend_one mongo (f.refund x.0) now x.0 x.1 p) skip.1
            (rw (find_by_id-update x.0 i (cancel_suspended now) p.bookings, skip.0) h))
  ]

  pub Skips-append :
      (i k : ℕ) (b : Booking) (xs : List (ℕ × Booking))
      → Skips i xs
      → (k == i) ≡ false
      → Skips i (xs ++ (k, b) ∷ [])
  Skips-append i k b [] h e = (e, tt)
  Skips-append i k b (x ∷ xs) h e = (h.0, Skips-append i k b xs h.1 e)

  pub create_all-Skips :
      (g : GroupDetails) (ids : ℕ → ℕ) (faults : ℕ → Option Error) (k i : ℕ) (b : Booking)
      (cs : List SlotCalculation) (created : List (ℕ × Booking)) (d : Docs Booking)
      → AreFresh mongo ids k d
      → Skips i created
      → find_by_id d i ≡ some b
      → find_by_id (create_all mongo g ids faults k cs created d).1 i ≡ some b
  unfolding create_all
  create_all-Skips g ids faults k i b [] created d fresh skip h = h
  create_all-Skips g ids faults k i b (c ∷ cs) created d fresh skip h =
      let new = new_booking g c in
      let absent = fresh.0 k (omega arith) in
      let apart : (ids k == i) ≡ false = elim (Bool-cases (ids k == i)) [
        | inl same ↦ let e = (==_iff (ids k) i).0 same in absurd (cc (absent, h, e))
        | inr other ↦ other
      ] in
      elim (Option-cases (faults k)) [
        | inl fine ↦
            rw (fine, create_all)
              (create_all-Skips g ids faults (k + 1) i b cs (created ++ (ids k, new) ∷ [])
                (insert (ids k) new d) (AreFresh-insert mongo ids k new d fresh)
                (Skips-append i (ids k) new created skip apart)
                (rw (find_by_id-insert (ids k) i new d absent, apart) h))
        | inr (e, failed) ↦ rw (failed, create_all) (delete_all-Skips i (some b) created d skip h)
      ]
