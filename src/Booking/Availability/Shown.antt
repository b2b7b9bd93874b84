-- ===== src/Booking/Availability/Shown.antt =====
-- What the customers see agrees with what a reservation checks.
use sports_venue_management.Common.{
  ℕ, ◌+◌, ◌≡◌, refl, true, false, not, some, List, [], ◌∷◌, map, arith, any, All, filter,
  Bool-cases, inl, inr,
}
use sports_venue_management.Common.Outcome.{ok}
use sports_venue_management.Entities.{Booking}
use sports_venue_management.Mongo.{Mongo, Found}
use sports_venue_management.Booking.Slots.{Slot, overlap}
use sports_venue_management.Booking.Reserve.{
  clear_slots, delete_all, valid_overlaps, in_the_way, has_run_out, slot_of,
}
use sports_venue_management.Booking.Reserve.Cleared.{Found-filter}
use sports_venue_management.Booking.Availability.{
  Taken, taken, is_asked, shown_bookings, get_availability,
}

-- no entry of the answer overlaps one of the slots
abbrev pub ShowsFree : List Slot → List Taken → Type 0
ShowsFree slots shown =
    All
      (λ t.
        any (overlap (record { start_time = t.start_time; end_time = t.end_time })) slots ≡ false)
      shown

Found-ShowsFree :
    (slots : List Slot) (i : ℕ) (b : Booking) (xs : List (ℕ × Booking))
    → ShowsFree slots (map taken xs)
    → Found i b xs
    → any (overlap (slot_of b)) slots ≡ false
Found-ShowsFree slots i b [] h f = absurd f
Found-ShowsFree slots i b (x ∷ xs) h (inl same) = rw (← same.1) h.0
Found-ShowsFree slots i b (x ∷ xs) h (inr later) = Found-ShowsFree slots i b xs h.1 later

in_the_way-is_asked :
    (venue day : ℕ) (slots : List Slot) (b : Booking)
    → in_the_way venue day slots b ≡ true
    → (is_asked venue (some day) (some (day + 86399999)) b ≡ true)
      × (any (overlap (slot_of b)) slots ≡ true)
unfolding in_the_way is_asked
in_the_way-is_asked venue day slots b h = ground arith

module _ (mongo : Mongo) where
  open mongo use {Docs, find, find_by_id, find_sound, find_complete}

  nothing_in_the_way :
      (now venue day : ℕ) (slots : List Slot) (d : Docs Booking) (xs : List (ℕ × Booking))
      → ShowsFree slots (get_availability mongo now venue (some day) (some (day + 86399999)) d)
      → All (λ e. (find_by_id d e.0 ≡ some e.1) × (in_the_way venue day slots e.1 ≡ true)) xs
      → filter (λ e. not (has_run_out now e.1)) xs ≡ []
  unfolding get_availability shown_bookings
  nothing_in_the_way now venue day slots d [] free sound = refl
  nothing_in_the_way now venue day slots d (x ∷ xs) free sound =
      let rest = nothing_in_the_way now venue day slots d xs free sound.1 in
      let fits = in_the_way-is_asked venue day slots x.1 sound.0.1 in
      let last = day + 86399999 in
      elim (Bool-cases (has_run_out now x.1)) [
        | inl gone ↦ rw gone rest
        | inr live ↦
            let found =
              Found-filter (λ e. not (has_run_out now e.1)) x.0 x.1
                (find (is_asked venue (some day) (some last)) d)
                (find_complete (is_asked venue (some day) (some last)) d x.0 x.1 sound.0.0 fits.0)
                (rw live refl) in
            let none_meets =
              Found-ShowsFree slots x.0 x.1
                (shown_bookings mongo now venue (some day) (some last) d) free found in
            absurd (cc (fits.1, none_meets))
      ]

  no_overlaps :
      (now venue day : ℕ) (slots : List Slot) (d : Docs Booking)
      → ShowsFree slots (get_availability mongo now venue (some day) (some (day + 86399999)) d)
      → valid_overlaps mongo now venue day slots d ≡ []
  unfolding valid_overlaps
  no_overlaps now venue day slots d free =
      nothing_in_the_way now venue day slots d (find (in_the_way venue day slots) d) free
        (find_sound (in_the_way venue day slots) d)

  -- If the availability of a venue on a day shows no taken slot that overlaps the requested ones,
  -- then a reservation of these slots on that day, at that instant and by any customer, meets no
  -- conflict and deletes nothing.
  pub get_availability-clear_slots :
      (now user venue day : ℕ) (slots : List Slot) (d : Docs Booking)
      → ShowsFree slots (get_availability mongo now venue (some day) (some (day + 86399999)) d)
      → clear_slots mongo now user venue day slots d ≡ (ok tt, d)
  unfolding clear_slots delete_all
  get_availability-clear_slots now user venue day slots d free =
      let e = no_overlaps now venue day slots d free in
      rw (e, clear_slots) (rw (e, delete_all) refl)
