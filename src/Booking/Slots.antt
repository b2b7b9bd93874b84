-- ===== src/Booking/Slots.antt =====
-- The slots of a request: `createBooking` up to its check of the venue's hours. Hours are whole
-- numbers from 0 (the DTO's `@IsInt` and `@Min(0)`), so that a start below 0 does not arise.
pub mod Disjoint
use sports_venue_management.Common.{
  ℕ, Bool, ◌&&◌, ◌||◌, Option, none, some, List, [], ◌∷◌, any, ltb, leb, if◌then◌else◌,
}
use sports_venue_management.Common.Outcome.{
  Result, ok, err, ◌>>=◌, ◌>>◌, throw_if, no_slots, start_out_of_day, end_out_of_day,
  start_not_before_end, slots_overlap, outside_hours,
}
use sports_venue_management.Entities.{Venue}

pub record Slot : Type 0 where
  pub start_time : ℕ
  pub end_time : ℕ

-- `body.slots` where it has elements, else the pair of `startTime` and `endTime`
unfoldable pub raw_slots : Option (List Slot) → Option ℕ → Option ℕ → List Slot
raw_slots (some (s ∷ slots)) start_time end_time = s ∷ slots
raw_slots _ (some start_time) (some end_time) =
    record { start_time = start_time; end_time = end_time } ∷ []
raw_slots _ _ _ = []

-- `s1.startTime < s2.endTime && s1.endTime > s2.startTime`
unfoldable pub overlap : Slot → Slot → Bool
overlap s t = ltb s.start_time t.end_time && ltb t.start_time s.end_time

-- the body of the outer loop, the inner loop as a test of the slots behind
unfoldable pub check_slot : Slot → List Slot → Result (Unit {0})
unfolding overlap
check_slot s rest = do
  throw_if (ltb 23 s.start_time) start_out_of_day
  throw_if (ltb s.end_time 1 || ltb 24 s.end_time) end_out_of_day
  throw_if (leb s.end_time s.start_time) start_not_before_end
  throw_if (any (overlap s) rest) slots_overlap

unfoldable pub check_each : List Slot → Result (Unit {0})
check_each [] = ok tt
check_each (s ∷ rest) = do check_slot s rest; check_each rest

unfoldable pub check_slots : List Slot → Result (Unit {0})
unfolding check_each
check_slots [] = err no_slots
check_slots (s ∷ rest) = check_each (s ∷ rest)

-- the loop over the venue's working hours
unfoldable pub check_hours : Venue → List Slot → Result (Unit {0})
check_hours venue slots =
    throw_if
      (any
        (λ s. ltb s.start_time venue.start_working_hours || ltb venue.end_working_hours s.end_time)
        slots)
      outside_hours
