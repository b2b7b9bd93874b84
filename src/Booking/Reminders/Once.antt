-- ===== src/Booking/Reminders/Once.antt =====
-- No run of the reminder job sends a reminder that an earlier run has sent.
use sports_venue_management.Common.{ℕ, ◌≡◌, inl, inr, true, false, none, ◌==◌, Bool-cases, arith}
use sports_venue_management.Entities.{Booking}
use sports_venue_management.Mongo.{Mongo}
use sports_venue_management.Booking.Reminders.{
  Reminder, is_today, reminder_sent, handle_match_reminders,
}
use sports_venue_management.Booking.Reminders.Marks.{
  IsSent, IsMarked, IsDueAt, is_due-fresh, update-IsMarked, remind_each-AllMarked,
  remind_each-IsMarked, remind_each-IsSent,
}

module _ (mongo : Mongo) where
  open mongo use {
    Docs, find_by_id, find, update, insert, delete, find_by_id-insert, find_by_id-delete,
    find_sound,
  }

  -- What happens to the collection between two runs, seen from the booking `i`: other runs, changes
  -- of bookings that take no mark away, new bookings under other identifiers, and deletions.
  pub data Step (i : ℕ) : Docs Booking → Docs Booking → Type 0 where
    running : (now : ℕ) (d : Docs Booking) → Step i d (handle_match_reminders mongo now d).bookings
    editing :
        (j : ℕ) (f : Booking → Booking) (d : Docs Booking)
        → ((k : Reminder) (b : Booking) → reminder_sent k b ≡ true → reminder_sent k (f b) ≡ true)
        → Step i d (update j f d)
    inserting :
        (j : ℕ) (b : Booking) (d : Docs Booking)
        → find_by_id d j ≡ none
        → (j == i) ≡ false
        → Step i d (insert j b d)
    deleting : (j : ℕ) (d : Docs Booking) → Step i d (delete j d)

  pub data Steps (i : ℕ) : Docs Booking → Docs Booking → Type 0 where
    nothing : (d : Docs Booking) → Steps i d d
    before : {d e f : Docs Booking} → Steps i d e → Step i e f → Steps i d f

  Step-IsMarked :
      (k : Reminder) (i : ℕ) {d e : Docs Booking}
      → Step i d e
      → IsMarked mongo k i d
      → IsMarked mongo k i e
  unfolding IsMarked handle_match_reminders
  Step-IsMarked k i (running now d) h =
      remind_each-IsMarked mongo k now i (find (is_today now) d) _ h
  Step-IsMarked k i (editing j f d keeps) h = update-IsMarked mongo k i j f d (keeps k) h
  Step-IsMarked k i (inserting j b d unused other) h =
      λ v here. h v (rw (find_by_id-insert j i b d unused, other) at here)
  Step-IsMarked k i (deleting j d) h = λ v here. elim (Bool-cases (j == i)) [
    | inl same ↦ absurd (ground (arith, find_by_id-delete j i d, same, here))
    | inr other ↦ h v (rw (find_by_id-delete j i d, other) at here)
  ]

  Steps-IsMarked :
      (k : Reminder) (i : ℕ) {d e : Docs Booking}
      → Steps i d e
      → IsMarked mongo k i d
      → IsMarked mongo k i e
  Steps-IsMarked k i (nothing d) h = h
  Steps-IsMarked k i (before first last) h = Step-IsMarked k i last (Steps-IsMarked k i first h)

  -- A run sends a reminder only of a stored booking for which it is due.
  pub handle_match_reminders-IsDueAt :
      (k : Reminder) (now i : ℕ) (d : Docs Booking)
      → IsSent k i (handle_match_reminders mongo now d).sent
      → IsDueAt mongo k now i d
  unfolding handle_match_reminders
  handle_match_reminders-IsDueAt k now i d sent =
      elim (remind_each-IsSent mongo k now i (find (is_today now) d) d _
        (find_sound (is_today now) d) sent) [ inl none_yet ↦ absurd none_yet | inr due ↦ due ]

  -- A reminder of a booking that one run of the job sends is sent by no later run, whatever other
  -- runs, changes that take no mark away, new bookings under other identifiers and deletions come
  -- between the two.
  pub handle_match_reminders_once :
      (k : Reminder) (now later i : ℕ) (d e : Docs Booking)
      → IsSent k i (handle_match_reminders mongo now d).sent
      → Steps i (handle_match_reminders mongo now d).bookings e
      → ¬ IsSent k i (handle_match_reminders mongo later e).sent
  unfolding handle_match_reminders IsMarked
  handle_match_reminders_once k now later i d e sent steps again =
      let marked =
        remind_each-AllMarked mongo now (find (is_today now) d) _ (λ l j. absurd) k i sent in
      let (b, stored, today, due) = handle_match_reminders-IsDueAt k later i e again in
      cc (Steps-IsMarked k i steps marked b stored, is_due-fresh k later b due)
