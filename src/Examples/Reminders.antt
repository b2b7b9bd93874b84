-- ===== src/Examples/Reminders.antt =====
-- The theorem on reminders, applied.
use sports_venue_management.Common.{ℕ, ◌+◌, ◌≡◌, refl, true, List, [], ◌∷◌, inl}
use sports_venue_management.Entities.{Booking}
use sports_venue_management.Mongo.{list_mongo}
use sports_venue_management.Mongo.ListStore.{matching, drop_id}
use sports_venue_management.Booking.Lifecycle.{cancel}
use sports_venue_management.Booking.Reminders.{
  Reminder, match_reminder_morning, match_reminder_kickoff, handle_match_reminders, reminder_sent,
  remind_each, remind, is_due, is_today, current_minutes,
}
use sports_venue_management.Booking.Reminders.Marks.{IsSent}
use sports_venue_management.Booking.Reminders.Once.{
  running, editing, nothing, before, handle_match_reminders_once,
}
use sports_venue_management.Examples.Data.{day_start, paid_booking}

-- nine o'clock of the day of the booking, which begins at ten
abbrev nine : ℕ
nine = day_start + 32400000

abbrev bookings : List (ℕ × Booking)
bookings = (100, paid_booking) ∷ []

abbrev first_run : List (ℕ × Booking)
first_run = (handle_match_reminders list_mongo nine bookings).bookings

cancel-keeps :
    (k : Reminder) (b : Booking) → reminder_sent k b ≡ true → reminder_sent k (cancel b) ≡ true
unfolding cancel reminder_sent
cancel-keeps match_reminder_morning b h = h
cancel-keeps match_reminder_kickoff b h = h

abbrev second_run : List (ℕ × Booking)
second_run = (handle_match_reminders list_mongo (nine + 10000) first_run).bookings

handle_match_reminders_once_example :
    ¬ IsSent match_reminder_kickoff 100
      (handle_match_reminders list_mongo
        (nine + 20000)
        (list_mongo.update 100 cancel second_run)).sent
unfolding handle_match_reminders remind_each remind is_due is_today current_minutes matching drop_id
handle_match_reminders_once_example =
    handle_match_reminders_once list_mongo match_reminder_kickoff nine (nine + 20000) 100 bookings
      (list_mongo.update 100 cancel second_run) (inl (refl, refl))
      (before (before (nothing first_run) (running (nine + 10000) first_run))
        (editing 100 cancel second_run cancel-keeps))
