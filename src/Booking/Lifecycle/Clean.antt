-- ===== src/Booking/Lifecycle/Clean.antt =====
-- The clean-up job, booking by booking.
use sports_venue_management.Common.{
  ℕ, ◌≡◌, refl, Bool, true, false, Option, none, some, List, [], ◌∷◌, ◌==◌, ==_iff, inl, inr,
  Bool-cases, Option-cases, if◌then◌else◌, All,
}
use mathlib.Core.Option.{some-injective}
use mathlib.Core.Option
use sports_venue_management.Entities.{Booking, BookingStatus, expired, no_show}
use sports_venue_management.Mongo.{Mongo, Found}
use sports_venue_management.Booking.Lifecycle.{is_expired_hold, is_overdue, mark, mark_all, clean}

-- What becomes of one booking.
unfoldable pub clean_one : ℕ → Booking → Booking
unfolding is_expired_hold is_overdue
clean_one now b =
    if is_expired_hold now b then mark expired b else if is_overdue now b then mark no_show b else b

module _ (mongo : Mongo) where
  open mongo use {Docs, find, find_by_id, update, find_by_id-update, find_sound, find_complete}

  abbrev Sound : (Booking → Bool) → List (ℕ × Booking) → Docs Booking → Type 0
  Sound p xs d = All (λ e. (find_by_id d e.0 ≡ some e.1) × (p e.1 ≡ true)) xs

  -- marking twice is marking once
  mark_all-marked :
      (s : BookingStatus) (xs : List (ℕ × Booking)) (i : ℕ) (b : Booking) (d : Docs Booking)
      → find_by_id d i ≡ some (mark s b)
      → find_by_id (mark_all mongo s xs d) i ≡ some (mark s b)
  unfolding mark_all
  mark_all-marked s [] i b d h = h
  mark_all-marked s (x ∷ xs) i b d h =
      mark_all-marked s xs i b (update x.0 (mark s) d) (elim (Bool-cases (x.0 == i)) [
        | inl same ↦ rw (find_by_id-update x.0 i (mark s) d, same, h) refl
        | inr other ↦ rw (find_by_id-update x.0 i (mark s) d, other) h
      ])

  mark_all-Found :
      (s : BookingStatus) (xs : List (ℕ × Booking)) (i : ℕ) (b v : Booking) (d : Docs Booking)
      → find_by_id d i ≡ some b
      → Found i v xs
      → find_by_id (mark_all mongo s xs d) i ≡ some (mark s b)
  unfolding mark_all
  mark_all-Found s [] i b v d h f = absurd f
  mark_all-Found s (x ∷ xs) i b v d h (inl same) =
      mark_all-marked s xs i b (update x.0 (mark s) d)
        (let e = (==_iff x.0 i).1 same.0 in rw (find_by_id-update x.0 i (mark s) d, e, h) refl)
  mark_all-Found s (x ∷ xs) i b v d h (inr later) = elim (Bool-cases (x.0 == i)) [
    | inl same ↦
        mark_all-marked s xs i b (update x.0 (mark s) d)
          (rw (find_by_id-update x.0 i (mark s) d, same, h) refl)
    | inr other ↦
        mark_all-Found s xs i b v (update x.0 (mark s) d)
          (rw (find_by_id-update x.0 i (mark s) d, other) h) later
  ]

  -- a booking that the query does not return is left alone
  mark_all-others :
      (s : BookingStatus) (p : Booking → Bool) (xs : List (ℕ × Booking)) (i : ℕ)
      (o : Option Booking) (d before : Docs Booking)
      → Sound p xs before
      → find_by_id before i ≡ o
      → ((b : Booking) → o ≡ some b → p b ≡ false)
      → find_by_id d i ≡ o
      → find_by_id (mark_all mongo s xs d) i ≡ o
  unfolding mark_all
  mark_all-others s p [] i o d before sound was out h = h
  mark_all-others s p (x ∷ xs) i o d before sound was out h =
      mark_all-others s p xs i o (update x.0 (mark s) d) before sound.1 was out
        (elim (Bool-cases (x.0 == i)) [
          | inl same ↦
              let e = (==_iff x.0 i).0 same in
              let here : o ≡ some x.1 = cc (sound.0.0, e, was) in
              absurd (cc (out x.1 here, sound.0.1))
          | inr other ↦ rw (find_by_id-update x.0 i (mark s) d, other) h
        ])

  -- one query with its loop
  mark_found :
      (s : BookingStatus) (p : Booking → Bool) (i : ℕ) (d : Docs Booking)
      → find_by_id (mark_all mongo s (find p d) d) i
        ≡ Option.map (λ b. if p b then mark s b else b) (find_by_id d i)
  mark_found s p i d = elim (Option-cases (find_by_id d i)) [
    | inl missing ↦
        rw missing
          (mark_all-others s p (find p d) i none d d (find_sound p d) missing (λ b e. cc) missing)
    | inr (b, stored) ↦ elim (Bool-cases (p b)) [
      | inl hit ↦
          rw (stored, hit)
            (mark_all-Found s (find p d) i b b d stored (find_complete p d i b stored hit))
      | inr miss ↦
          rw (stored, miss)
            (mark_all-others s p (find p d) i (some b) d d (find_sound p d) stored
              (λ c e. let same = some-injective b c e in rw (← same) miss) stored)
    ]
  ]

  -- The two passes of the job over the collection change every booking as one decision about it
  -- would: a hold that has run out expires, another open booking whose end has passed becomes a
  -- no-show, and everything else stays as it is.
  pub clean_each :
      (now i : ℕ) (d : Docs Booking)
      → find_by_id (clean mongo now d) i ≡ Option.map (clean_one now) (find_by_id d i)
  unfolding clean clean_one
  clean_each now i d =
      let first = mark_found expired (is_expired_hold now) i d in
      let second =
        mark_found no_show (is_overdue now) i
          (mark_all mongo expired (find (is_expired_hold now) d) d) in
      elim (Option-cases (find_by_id d i)) [
        | inl missing ↦ rw (second, first, missing) refl
        | inr (b, stored) ↦ elim (Bool-cases (is_expired_hold now b)) [
          | inl hit ↦ rw (second, first, stored, hit) refl
          | inr miss ↦ rw (second, first, stored, miss) refl
        ]
      ]
