-- ===== src/Booking/Reserve/Atomic.antt =====
-- A creation that throws leaves no booking behind.
use sports_venue_management.Common.{
  ℕ, ◌+◌, ◌≤◌, ◌≡◌, refl, false, Option, none, List, [], ◌∷◌, ◌++◌, arith, ◌==◌, Bool-cases,
  Option-cases, inl, inr, ◌∙◌,
}
use sports_venue_management.Common.Outcome.{Error, ok, err, ok-injective}
use mathlib.Core.Path.{subst}
use sports_venue_management.Entities.{Booking}
use sports_venue_management.Mongo.{Mongo}
use sports_venue_management.Booking.Discount.{SlotCalculation}
use sports_venue_management.Booking.Reserve.{GroupDetails, new_booking, delete_all, create_all}

module _ (mongo : Mongo) where
  open mongo use {Docs, find_by_id, insert, delete, find_by_id-insert, find_by_id-delete}

  -- the driver gives identifiers that are not in the store, and never the same one twice
  abbrev pub AreFresh : (ℕ → ℕ) → ℕ → Docs Booking → Type 0
  AreFresh ids k d =
      ((j : ℕ) → k ≤ j → find_by_id d (ids j) ≡ none) × ((i j : ℕ) → ids i ≡ ids j → i ≡ j)

  pub AreFresh-insert :
      (ids : ℕ → ℕ) (k : ℕ) (b : Booking) (d : Docs Booking)
      → AreFresh ids k d
      → AreFresh ids (k + 1) (insert (ids k) b d)
  AreFresh-insert ids k b d h = (
    (λ j later.
        let new : (ids k == ids j) ≡ false = ground (arith, h.1 k j) in
        rw (find_by_id-insert (ids k) (ids j) b d (h.0 k (omega arith)), new)
          (h.0 j (omega arith))),
    h.1,
  )

  -- deleting the created bookings undoes their creation
  abbrev pub Undoes : List (ℕ × Booking) → Docs Booking → Docs Booking → Type 0
  Undoes created d before =
      (j : ℕ) → find_by_id (delete_all mongo created d) j ≡ find_by_id before j

  pub find_by_id-delete_all :
      (created : List (ℕ × Booking)) (j : ℕ) (d e : Docs Booking)
      → find_by_id d j ≡ find_by_id e j
      → find_by_id (delete_all mongo created d) j ≡ find_by_id (delete_all mongo created e) j
  unfolding delete_all
  find_by_id-delete_all [] j d e h = h
  find_by_id-delete_all (x ∷ rest) j d e h =
      find_by_id-delete_all rest j (delete x.0 d) (delete x.0 e)
        (rw (find_by_id-delete x.0 j d, find_by_id-delete x.0 j e, h) refl)

  delete_all-append :
      (xs ys : List (ℕ × Booking)) (d : Docs Booking)
      → delete_all mongo (xs ++ ys) d ≡ delete_all mongo ys (delete_all mongo xs d)
  unfolding delete_all
  delete_all-append [] ys d = refl
  delete_all-append (x ∷ xs) ys d = delete_all-append xs ys (delete x.0 d)

  delete_all-missing :
      (created : List (ℕ × Booking)) (j : ℕ) (d : Docs Booking)
      → find_by_id d j ≡ none
      → find_by_id (delete_all mongo created d) j ≡ none
  unfolding delete_all
  delete_all-missing [] j d h = h
  delete_all-missing (x ∷ rest) j d h =
      delete_all-missing rest j (delete x.0 d) (ground (arith, find_by_id-delete x.0 j d))

  Undoes-insert :
      (created : List (ℕ × Booking)) (i : ℕ) (b : Booking) (d before : Docs Booking)
      → find_by_id d i ≡ none
      → Undoes created d before
      → Undoes (created ++ (i, b) ∷ []) (insert i b d) before
  unfolding delete_all
  Undoes-insert created i b d before new undo j =
      let law = find_by_id-insert i j b d new in
      let gone = find_by_id-delete i j (delete_all mongo created (insert i b d)) in
      elim (Bool-cases (i == j)) [
        | inl same ↦
            let e : i ≡ j = ground arith in
            let absent : find_by_id before j ≡ none =
              rw (← undo j) (delete_all-missing created j d (rw (← e) new)) in
            rw (delete_all-append created ((i, b) ∷ []) (insert i b d), gone, same, absent) refl
        | inr other ↦
            rw (delete_all-append created ((i, b) ∷ []) (insert i b d), gone, other)
              (find_by_id-delete_all created j (insert i b d) d (rw (law, other) refl) ∙ undo j)
      ]

  create_all_undone :
      (g : GroupDetails) (ids : ℕ → ℕ) (faults : ℕ → Option Error) (k : ℕ)
      (cs : List SlotCalculation) (created : List (ℕ × Booking)) (d before : Docs Booking)
      (e : Error)
      → AreFresh ids k d
      → Undoes created d before
      → (create_all mongo g ids faults k cs created d).0 ≡ err e
      → (j : ℕ)
      → find_by_id (create_all mongo g ids faults k cs created d).1 j ≡ find_by_id before j
  unfolding create_all
  create_all_undone g ids faults k [] created d before e fresh undo h j = cc
  create_all_undone g ids faults k (c ∷ cs) created d before e fresh undo h j =
      elim (Option-cases (faults k)) [
        | inl fine ↦
            rw (fine, create_all)
              (create_all_undone g ids faults (k + 1) cs (created ++ (ids k, new_booking g c) ∷ [])
                (insert (ids k) (new_booking g c) d) before e
                (AreFresh-insert ids k (new_booking g c) d fresh)
                (Undoes-insert created (ids k) (new_booking g c) d before (fresh.0 k (omega arith))
                  undo)
                (rw (fine, create_all) at h) j)
        | inr (f, failed) ↦ rw (failed, create_all) (undo j)
      ]

  pub nothing_created : (d : Docs Booking) → Undoes [] d d
  unfolding delete_all
  nothing_created d j = refl

  -- Deleting the bookings of a creation that returned undoes it.
  pub create_all_done :
      (g : GroupDetails) (ids : ℕ → ℕ) (faults : ℕ → Option Error) (k : ℕ)
      (cs : List SlotCalculation) (created made : List (ℕ × Booking)) (d before : Docs Booking)
      → AreFresh ids k d
      → Undoes created d before
      → (create_all mongo g ids faults k cs created d).0 ≡ ok made
      → Undoes made (create_all mongo g ids faults k cs created d).1 before
  unfolding create_all
  create_all_done g ids faults k [] created made d before fresh undo h =
      subst (λ xs. Undoes xs d before) (ok-injective h) undo
  create_all_done g ids faults k (c ∷ rest) created made d before fresh undo h =
      elim (Option-cases (faults k)) [
        | inr (f, failed) ↦ absurd (cc (rw (failed, create_all) at h))
        | inl fine ↦
            let b = new_booking g c in
            rw (fine, create_all)
              (create_all_done g ids faults (k + 1) rest (created ++ (ids k, b) ∷ []) made
                (insert (ids k) b d) before (AreFresh-insert ids k b d fresh)
                (Undoes-insert created (ids k) b d before (fresh.0 k (omega arith)) undo)
                (rw (fine, create_all) at h))
      ]

  -- If the creation of a group throws at any of its bookings, the store holds afterwards exactly the
  -- documents that it held before: the bookings created so far are gone.
  pub create_all_atomic :
      (g : GroupDetails) (ids : ℕ → ℕ) (faults : ℕ → Option Error) (cs : List SlotCalculation)
      (d : Docs Booking) (e : Error)
      → AreFresh ids 0 d
      → (create_all mongo g ids faults 0 cs [] d).0 ≡ err e
      → (j : ℕ) → find_by_id (create_all mongo g ids faults 0 cs [] d).1 j ≡ find_by_id d j
  create_all_atomic g ids faults cs d e fresh h =
      create_all_undone g ids faults 0 cs [] d d e fresh (λ j. nothing_created d j) h
