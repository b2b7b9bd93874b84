-- ===== src/Booking/Availability.antt =====
-- `getAvailability` of src/modules/booking/booking.service.ts: the slots of a venue that are shown as
-- taken.
pub mod Shown
use sports_venue_management.Common.{
  ℕ, Bool, true, ◌&&◌, not, Option, none, some, List, [], ◌∷◌, filter, map, leb, ◌==◌,
}
use sports_venue_management.Entities.{Booking, BookingStatus}
use sports_venue_management.Mongo.{Mongo}
use sports_venue_management.Booking.Reserve.{is_active, has_run_out}

-- an entry of the answer; the date stands for its text
pub record Taken : Type 0 where
  pub date : ℕ
  pub start_time : ℕ
  pub end_time : ℕ
  pub status : BookingStatus
  pub user_id : ℕ
  pub expires_at : Option ℕ

abbrev pub taken : ℕ × Booking → Taken
taken e = record {
  date = e.1.date;
  start_time = e.1.start_time;
  end_time = e.1.end_time;
  status = e.1.status;
  user_id = e.1.user_id;
  expires_at = e.1.expires_at;
}

-- the bounds of the date filter, where the request gives them: the first instant of the first day
-- and the last one of the last day
abbrev pub is_from : Option ℕ → ℕ → Bool
is_from none date = true
is_from (some first) date = leb first date

abbrev pub is_until : Option ℕ → ℕ → Bool
is_until none date = true
is_until (some last) date = leb date last

unfoldable pub is_asked : ℕ → Option ℕ → Option ℕ → Booking → Bool
is_asked venue first last b =
    (b.venue_id == venue) && (is_active b.status && (is_from first b.date && is_until last b.date))

module _ (mongo : Mongo) where
  open mongo use {Docs, find}

  unfoldable pub shown_bookings : ℕ → ℕ → Option ℕ → Option ℕ → Docs Booking → List (ℕ × Booking)
  unfolding is_asked
  shown_bookings now venue first last d =
      filter (λ e. not (has_run_out now e.1)) (find (is_asked venue first last) d)

  unfoldable pub get_availability : ℕ → ℕ → Option ℕ → Option ℕ → Docs Booking → List Taken
  unfolding shown_bookings
  get_availability now venue first last d = map taken (shown_bookings now venue first last d)
