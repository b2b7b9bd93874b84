-- ===== src/Booking/Reserve/Cleared.antt =====
-- Once the slots of a request have been cleared, no live booking is in their way; so a reservation
-- that goes through keeps the bookings of the store apart.
use sports_venue_management.Common.{
  List-cases, ℕ, ◌≡◌, ◌≢◌, refl, Bool, true, false, ◌||◌, not, some, List, [], ◌∷◌, arith, any, All,
  filter, Bool-cases, inl, inr,
}
use sports_venue_management.Common.Outcome.{ok}
use sports_venue_management.Entities.{Booking}
use sports_venue_management.Mongo.{Mongo, Found}
use sports_venue_management.Booking.Slots.{Slot, overlap}
use sports_venue_management.Booking.Slots.Disjoint.{Disjoint, overlap-Covers}
use sports_venue_management.Booking.Reserve.{
  delete_all, clear_slots, valid_overlaps, in_the_way, is_third_party, has_run_out, slot_of,
}
use sports_venue_management.Booking.Reserve.Exclusive.{IsLive, IsExclusive, AreFree}

pub Found-filter :
    (p : ℕ × Booking → Bool) (i : ℕ) (v : Booking) (xs : List (ℕ × Booking))
    → Found i v xs
    → p (i, v) ≡ true
    → Found i v (filter p xs)
Found-filter p i v [] f h = f
Found-filter p i v (x ∷ xs) (inl same) h =
    let e : x ≡ (i, v) = cc (same.0, same.1) in rw (e, h) (inl (refl, refl))
Found-filter p i v (x ∷ xs) (inr later) h = elim (Bool-cases (p x)) [
  | inl kept ↦ rw kept (inr (Found-filter p i v xs later h))
  | inr dropped ↦ rw dropped (Found-filter p i v xs later h)
]

-- no booking of somebody else among the overlaps
nobody_else :
    (user i : ℕ) (b : Booking) (xs : List (ℕ × Booking))
    → filter (λ e. is_third_party user e.1) xs ≡ []
    → Found i b xs
    → not (is_third_party user b) ≡ true
nobody_else user i b [] h f = absurd f
nobody_else user i b (x ∷ xs) h (inl same) = elim (Bool-cases (is_third_party user x.1)) [
  | inl bad ↦ absurd (cc (rw bad at h))
  | inr good ↦ rw (← same.1, good) refl
]
nobody_else user i b (x ∷ xs) h (inr later) = elim (Bool-cases (is_third_party user x.1)) [
  | inl bad ↦ absurd (cc (rw bad at h))
  | inr good ↦ nobody_else user i b xs (rw good at h) later
]

none_overlap :
    (b : Booking) (slots : List Slot)
    → any (overlap (slot_of b)) slots ≡ false
    → All (Disjoint (slot_of b)) slots
none_overlap b [] h = tt
none_overlap b (s ∷ rest) h = (
  (λ hour in_b in_s. cc (overlap-Covers (slot_of b) s hour in_b in_s, head_false h)),
  none_overlap b rest (tail_false h),
)
  where
    head_false :
        (overlap (slot_of b) s || any (overlap (slot_of b)) rest) ≡ false
        → overlap (slot_of b) s ≡ false
    head_false e = ground arith

    tail_false :
        (overlap (slot_of b) s || any (overlap (slot_of b)) rest) ≡ false
        → any (overlap (slot_of b)) rest ≡ false
    tail_false e = ground arith

module _ (mongo : Mongo) where
  open mongo use {Docs, find, find_by_id, delete, find_by_id-delete, find_complete}

  pub delete_all-stored :
      (xs : List (ℕ × Booking)) (i : ℕ) (b : Booking) (d : Docs Booking)
      → find_by_id (delete_all mongo xs d) i ≡ some b
      → find_by_id d i ≡ some b
  unfolding delete_all
  delete_all-stored [] i b d h = h
  delete_all-stored (x ∷ xs) i b d h =
      let before = delete_all-stored xs i b (delete x.0 d) h in
      ground (arith, find_by_id-delete x.0 i d)

  delete_all-Found :
      (xs : List (ℕ × Booking)) (i : ℕ) (v b : Booking) (d : Docs Booking)
      → Found i v xs
      → find_by_id (delete_all mongo xs d) i ≢ some b
  unfolding delete_all
  delete_all-Found [] i v b d f h = f
  delete_all-Found (x ∷ xs) i v b d (inl same) h =
      let before = delete_all-stored xs i b (delete x.0 d) h in
      ground (arith, find_by_id-delete x.0 i d)
  delete_all-Found (x ∷ xs) i v b d (inr later) h = delete_all-Found xs i v b (delete x.0 d) later h

  delete_all-IsExclusive :
      (now : ℕ) (xs : List (ℕ × Booking)) (d : Docs Booking)
      → IsExclusive mongo now d
      → IsExclusive mongo now (delete_all mongo xs d)
  delete_all-IsExclusive now xs d ex i j b c at_i at_j =
      ex i j b c (delete_all-stored xs i b d at_i) (delete_all-stored xs j c d at_j)

  in_the_way-true :
      (now venue day : ℕ) (slots : List Slot) (b : Booking)
      → b.venue_id ≡ venue
      → b.date ≡ day
      → IsLive now b
      → any (overlap (slot_of b)) slots ≡ true
      → in_the_way venue day slots b ≡ true
  unfolding in_the_way
  in_the_way-true now venue day slots b v e live meets = rw (v, e, live.0, meets) (ground arith)

  -- a live booking that meets a slot is among the overlaps that the code looks at
  overlaps_complete :
      (now venue day : ℕ) (slots : List Slot) (d : Docs Booking) (i : ℕ) (b : Booking)
      → find_by_id d i ≡ some b
      → b.venue_id ≡ venue
      → b.date ≡ day
      → IsLive now b
      → any (overlap (slot_of b)) slots ≡ true
      → Found i b (valid_overlaps mongo now venue day slots d)
  unfolding valid_overlaps
  overlaps_complete now venue day slots d i b stored v e live meets =
      Found-filter (λ x. not (has_run_out now x.1)) i b (find (in_the_way venue day slots) d)
        (find_complete (in_the_way venue day slots) d i b stored
          (in_the_way-true now venue day slots b v e live meets))
        (rw live.1 refl)

  -- what a successful `clear_slots` did
  cleared :
      (now user venue day : ℕ) (slots : List Slot) (d : Docs Booking) (u : Unit {0})
      → (clear_slots mongo now user venue day slots d).0 ≡ ok u
      → let overlaps = valid_overlaps mongo now venue day slots d in
        (filter (λ e. is_third_party user e.1) overlaps ≡ [])
        × ((clear_slots mongo now user venue day slots d).1
            ≡ delete_all mongo (filter (λ e. not (is_third_party user e.1)) overlaps) d)
  unfolding clear_slots
  cleared now user venue day slots d u h =
      elim (List-cases
        (filter (λ e. is_third_party user e.1) (valid_overlaps mongo now venue day slots d))) [
          | inl nobody ↦ (nobody, rw (nobody, clear_slots) refl)
          | inr (x, xs, somebody) ↦ absurd (cc (rw (somebody, clear_slots) at h))
        ]

  pub clear_slots-IsExclusive :
      (now user venue day : ℕ) (slots : List Slot) (d : Docs Booking) (u : Unit {0})
      → IsExclusive mongo now d
      → (clear_slots mongo now user venue day slots d).0 ≡ ok u
      → IsExclusive mongo now (clear_slots mongo now user venue day slots d).1
  clear_slots-IsExclusive now user venue day slots d u ex h =
      let c = cleared now user venue day slots d u h in
      rw c.1 (
        delete_all-IsExclusive now
          (filter (λ e. not (is_third_party user e.1)) (valid_overlaps mongo now venue day slots d))
          d ex)

  pub clear_slots-AreFree :
      (now user venue day : ℕ) (slots : List Slot) (d : Docs Booking) (u : Unit {0})
      → (clear_slots mongo now user venue day slots d).0 ≡ ok u
      → AreFree mongo now venue day slots (clear_slots mongo now user venue day slots d).1
  clear_slots-AreFree now user venue day slots d u h i b stored v e live =
      let overlaps = valid_overlaps mongo now venue day slots d in
      let mine = filter (λ e. not (is_third_party user e.1)) overlaps in
      let c = cleared now user venue day slots d u h in
      let kept = rw c.1 at stored in
      elim (Bool-cases (any (overlap (slot_of b)) slots)) [
        | inl meets ↦ absurd (
            delete_all-Found mine i b b d
              (Found-filter (λ e. not (is_third_party user e.1)) i b overlaps
                (overlaps_complete now venue day slots d i b (delete_all-stored mine i b d kept) v e
                  live meets)
                (nobody_else user i b overlaps c.0 (
                  overlaps_complete now venue day slots d i b (delete_all-stored mine i b d kept) v
                    e live meets)))
              kept)
        | inr apart ↦ none_overlap b slots apart
      ]
