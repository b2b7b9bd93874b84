-- ===== src/Booking/Reserve/Exclusive.antt =====
-- No two bookings of a venue hold the same hour of a day.
use mathlib.Core.Path.{subst}
use mathlib.Core.Option.{some-injective}
use sports_venue_management.Common.{
  ℕ, ◌+◌, ◌≡◌, ◌≢◌, sym, true, false, Option, none, some, List, [], ◌∷◌, ◌++◌, map, arith, ◌==◌,
  All, Bool-cases, Option-cases, inl, inr,
}
use sports_venue_management.Common.Outcome.{Error, ok}
use sports_venue_management.Entities.{Booking}
use sports_venue_management.Mongo.{Mongo}
use sports_venue_management.Booking.Slots.{Slot}
use sports_venue_management.Booking.Slots.Disjoint.{Disjoint, AreBookable}
use sports_venue_management.Booking.Discount.{SlotCalculation}
use sports_venue_management.Booking.Reserve.{
  GroupDetails, new_booking, create_all, is_active, has_run_out, slot_of,
}
use sports_venue_management.Booking.Reserve.Atomic.{AreFresh, AreFresh-insert}

-- The booking keeps its slot at the instant `now`.
abbrev pub IsLive : ℕ → Booking → Type 0
IsLive now b = (is_active b.status ≡ true) × (has_run_out now b ≡ false)

abbrev pub slot_of_calculation : SlotCalculation → Slot
slot_of_calculation c = record { start_time = c.start_time; end_time = c.end_time }

module _ (mongo : Mongo) where
  open mongo use {
    Docs, find, find_by_id, insert, delete, find_by_id-insert, find_by_id-delete, find_complete,
  }

  -- Two different live bookings of a venue on one day share no hour.
  abbrev pub IsExclusive : ℕ → Docs Booking → Type 0
  IsExclusive now d =
      (i j : ℕ) (b c : Booking)
      → find_by_id d i ≡ some b
      → find_by_id d j ≡ some c
      → i ≢ j
      → b.venue_id ≡ c.venue_id
      → b.date ≡ c.date
      → IsLive now b
      → IsLive now c
      → Disjoint (slot_of b) (slot_of c)

  -- no live booking of the venue and the day shares an hour with one of the slots
  abbrev pub AreFree : ℕ → ℕ → ℕ → List Slot → Docs Booking → Type 0
  AreFree now venue day slots d =
      (i : ℕ) (b : Booking)
      → find_by_id d i ≡ some b
      → b.venue_id ≡ venue
      → b.date ≡ day
      → IsLive now b
      → All (Disjoint (slot_of b)) slots

  -- the new booking and a stored one
  new_apart :
      (now k : ℕ) (b x y : Booking) (d : Docs Booking)
      → AreFree now b.venue_id b.date (slot_of b ∷ []) d
      → b ≡ x
      → find_by_id d k ≡ some y
      → x.venue_id ≡ y.venue_id
      → x.date ≡ y.date
      → IsLive now y
      → Disjoint (slot_of y) (slot_of x)
  new_apart now k b x y d free same stored venue day live =
      subst (λ (z : Booking). Disjoint (slot_of y) (slot_of z)) same
        (free k y stored (cc (venue, same)) (cc (day, same)) live).0

  insert-IsExclusive :
      (now i : ℕ) (b : Booking) (d : Docs Booking)
      → find_by_id d i ≡ none
      → AreFree now b.venue_id b.date (slot_of b ∷ []) d
      → IsExclusive now d
      → IsExclusive now (insert i b d)
  insert-IsExclusive now i b d new free ex j k x y at_j at_k ne venue day live_x live_y =
      let p = rw (find_by_id-insert i j b d new) at at_j in
      let q = rw (find_by_id-insert i k b d new) at at_k in
      elim (Bool-cases (i == j)) [
        | inl is_j ↦ elim (Bool-cases (i == k)) [
          | inl is_k ↦ absurd (ground arith)
          | inr not_k ↦ λ h in_x in_y.
              new_apart now k b x y d free (some-injective b x (rw is_j at p)) (rw not_k at q) venue
                day live_y h in_y in_x
        ]
        | inr not_j ↦ elim (Bool-cases (i == k)) [
          | inl is_k ↦
              new_apart now j b y x d free (some-injective b y (rw is_k at q)) (rw not_j at p)
                (sym venue) (sym day) live_x
          | inr not_k ↦ ex j k x y (rw not_j at p) (rw not_k at q) ne venue day live_x live_y
        ]
      ]

  free_head :
      (now : ℕ) (g : GroupDetails) (c : SlotCalculation) (rest : List Slot) (d : Docs Booking)
      → AreFree now g.venue_id g.day (slot_of_calculation c ∷ rest) d
      → let b = new_booking g c in AreFree now b.venue_id b.date (slot_of b ∷ []) d
  unfolding new_booking
  free_head now g c rest d free i b stored venue day live = ((free i b stored venue day live).0, tt)

  -- the first of the remaining slots is booked
  insert-AreFree :
      (now i : ℕ) (g : GroupDetails) (c : SlotCalculation) (rest : List Slot) (d : Docs Booking)
      → find_by_id d i ≡ none
      → All (Disjoint (slot_of_calculation c)) rest
      → AreFree now g.venue_id g.day (slot_of_calculation c ∷ rest) d
      → AreFree now g.venue_id g.day rest (insert i (new_booking g c) d)
  unfolding new_booking
  insert-AreFree now i g c rest d new apart free j b stored venue day live =
      let p = rw (find_by_id-insert i j (new_booking g c) d new) at stored in
      elim (Bool-cases (i == j)) [
        | inl is_j ↦
            subst (λ (z : Booking). All (Disjoint (slot_of z)) rest)
              (some-injective (new_booking g c) b (rw is_j at p)) apart
        | inr not_j ↦ (free j b (rw not_j at p) venue day live).1
      ]

  pub create_all-IsExclusive :
      (now : ℕ) (g : GroupDetails) (ids : ℕ → ℕ) (faults : ℕ → Option Error) (k : ℕ)
      (cs : List SlotCalculation) (created made : List (ℕ × Booking)) (d : Docs Booking)
      → AreFresh mongo ids k d
      → AreBookable (map slot_of_calculation cs)
      → AreFree now g.venue_id g.day (map slot_of_calculation cs) d
      → IsExclusive now d
      → (create_all mongo g ids faults k cs created d).0 ≡ ok made
      → IsExclusive now (create_all mongo g ids faults k cs created d).1
  unfolding create_all
  create_all-IsExclusive now g ids faults k [] created made d fresh apart free ex h = ex
  create_all-IsExclusive now g ids faults k (c ∷ cs) created made d fresh apart free ex h =
      elim (Option-cases (faults k)) [
        | inl fine ↦
            let b = new_booking g c in
            rw (fine, create_all)
              (create_all-IsExclusive now g ids faults (k + 1) cs (created ++ (ids k, b) ∷ []) made
                (insert (ids k) b d) (AreFresh-insert mongo ids k b d fresh) apart.2
                (insert-AreFree now (ids k) g c (map slot_of_calculation cs) d
                  (fresh.0 k (omega arith)) apart.1 free)
                (insert-IsExclusive now (ids k) b d (fresh.0 k (omega arith))
                  (free_head now g c (map slot_of_calculation cs) d free) ex)
                (rw (fine, create_all) at h))
        | inr (f, failed) ↦ absurd (ground arith)
      ]
