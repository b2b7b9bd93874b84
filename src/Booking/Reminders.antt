-- ===== src/Booking/Reminders.antt =====
-- The job of the match reminders, `handleMatchReminders` of
-- src/modules/booking/booking.service.ts. A message is its event, its customer and its booking;
-- the texts, and what becomes of a message when it is sent, are left out, as is a fault of the
-- store, which ends the run.
pub mod Marks
pub mod Once
use sports_venue_management.Common.{
  ℕ, ◌+◌, ◌*◌, ◌/◌, ◌%◌, Bool, true, ◌&&◌, not, List, [], ◌∷◌, ltb, leb, if◌then◌else◌,
}
use sports_venue_management.Entities.{Booking, confirmed, status_eq}
use sports_venue_management.Mongo.{Mongo}
use sports_venue_management.Booking.Reserve.{ms_per_day}

-- the two events of the job
pub data Reminder : Type 0 where
  match_reminder_morning match_reminder_kickoff : Reminder

pub record Message : Type 0 where
  pub event : Reminder
  pub user_id : ℕ
  pub booking_id : ℕ

-- the query of the job: today's confirmed bookings
unfoldable pub is_today : ℕ → Booking → Bool
is_today now b =
    let today_start = now / ms_per_day * ms_per_day in
    status_eq b.status confirmed && (leb today_start b.date && leb b.date (today_start + 86399999))

-- `currentTimeDecimal` in minutes: the hour and the minute, without the seconds
unfoldable pub current_minutes : ℕ → ℕ
current_minutes now = now % ms_per_day / 60000

-- `morningReminderSent` and `twoHourReminderSent`
unfoldable pub reminder_sent : Reminder → Booking → Bool
reminder_sent match_reminder_morning b = b.morning_reminder_sent
reminder_sent match_reminder_kickoff b = b.two_hour_reminder_sent

unfoldable pub mark_sent : Reminder → Booking → Booking
mark_sent match_reminder_morning b = record b { morning_reminder_sent = true }
mark_sent match_reminder_kickoff b = record b { two_hour_reminder_sent = true }

-- the conditions of the two reminders; 135 minutes are 2.25 hours
unfoldable pub is_due : Reminder → ℕ → Booking → Bool
unfolding current_minutes reminder_sent
is_due match_reminder_morning now b =
    leb 9 (current_minutes now / 60) && not (reminder_sent match_reminder_morning b)
is_due match_reminder_kickoff now b =
    ltb (current_minutes now) (b.start_time * 60)
    && (leb (b.start_time * 60) (current_minutes now + 135)
        && not (reminder_sent match_reminder_kickoff b))

module _ (mongo : Mongo) where
  open mongo use {Docs, find, update}

  -- the bookings and the messages so far, the latest first
  pub record Reminded : Type 0 where
    pub bookings : Docs Booking
    pub sent : List Message

  -- one of the two reminders in a round of the loop, whose booking is as the query returned it
  unfoldable pub remind : Reminder → ℕ → ℕ × Booking → Reminded → Reminded
  unfolding is_due mark_sent
  remind k now e s =
      if is_due k now e.1
      then record {
        bookings = update e.0 (mark_sent k) s.bookings;
        sent = record { event = k; user_id = e.1.user_id; booking_id = e.0 } ∷ s.sent;
      }
      else s

  unfoldable pub remind_each : ℕ → List (ℕ × Booking) → Reminded → Reminded
  unfolding remind
  remind_each now [] s = s
  remind_each now (e ∷ rest) s =
      remind_each now rest
        (remind match_reminder_kickoff now e (remind match_reminder_morning now e s))

  unfoldable pub handle_match_reminders : ℕ → Docs Booking → Reminded
  unfolding remind_each is_today
  handle_match_reminders now d =
      remind_each now (find (is_today now) d) (record { bookings = d; sent = [] })
