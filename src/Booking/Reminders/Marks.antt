-- ===== src/Booking/Reminders/Marks.antt =====
-- What a run of the job marks and sends.
use sports_venue_management.Common.{
  ℕ, ◌≡◌, refl, ◌⊎◌, inl, inr, true, false, some, List, [], ◌∷◌, All, Bool-cases, arith,
}
use sports_venue_management.Entities.{Booking}
use sports_venue_management.Mongo.{Mongo, update_was}
use sports_venue_management.Booking.Reminders.{
  Reminder, match_reminder_morning, match_reminder_kickoff, Message, is_today, reminder_sent,
  mark_sent, is_due, Reminded, remind, remind_each,
}

-- One of the messages is this reminder of this booking.
abbrev pub IsSent : Reminder → ℕ → List Message → Type 0
IsSent k i [] = ⊥
IsSent k i (m ∷ ms) = ((m.event ≡ k) × (m.booking_id ≡ i)) ⊎ IsSent k i ms

pub is_due-fresh :
    (k : Reminder) (now : ℕ) (b : Booking) → is_due k now b ≡ true → reminder_sent k b ≡ false
unfolding is_due
is_due-fresh match_reminder_morning now b h = ground arith
is_due-fresh match_reminder_kickoff now b h = ground arith

mark_sent-marks : (k : Reminder) (b : Booking) → reminder_sent k (mark_sent k b) ≡ true
unfolding mark_sent reminder_sent
mark_sent-marks match_reminder_morning b = refl
mark_sent-marks match_reminder_kickoff b = refl

mark_sent-keeps :
    (k l : Reminder) (b : Booking)
    → reminder_sent k b ≡ true
    → reminder_sent k (mark_sent l b) ≡ true
unfolding mark_sent reminder_sent
mark_sent-keeps match_reminder_morning match_reminder_morning b h = refl
mark_sent-keeps match_reminder_morning match_reminder_kickoff b h = h
mark_sent-keeps match_reminder_kickoff match_reminder_morning b h = h
mark_sent-keeps match_reminder_kickoff match_reminder_kickoff b h = refl

module _ (mongo : Mongo) where
  open mongo use {
    Docs, find_by_id, find, update, insert, delete, find_by_id-insert, find_by_id-delete,
    find_sound,
  }

  -- the booking, if it is stored, is marked as reminded
  unfoldable pub IsMarked : Reminder → ℕ → Docs Booking → Type 0
  IsMarked k i d = (b : Booking) → find_by_id d i ≡ some b → reminder_sent k b ≡ true

  pub update-IsMarked :
      (k : Reminder) (i j : ℕ) (f : Booking → Booking) (d : Docs Booking)
      → ((b : Booking) → reminder_sent k b ≡ true → reminder_sent k (f b) ≡ true)
      → IsMarked k i d
      → IsMarked k i (update j f d)
  unfolding IsMarked
  update-IsMarked k i j f d keeps marked v here =
      let (w, stored, either) = update_was mongo j i f d v here in
      elim either [
        | inl (same, now) ↦ rw now (keeps w (marked w stored))
        | inr (other, now) ↦ rw now (marked w stored)
      ]

  mark-IsMarked :
      (k : Reminder) (i : ℕ) (d : Docs Booking) → IsMarked k i (update i (mark_sent k) d)
  unfolding IsMarked
  mark-IsMarked k i d v here =
      let (w, stored, either) = update_was mongo i i (mark_sent k) d v here in
      elim either [
        | inl (same, now) ↦ rw now (mark_sent-marks k w)
        | inr (other, now) ↦ absurd (ground (arith, other))
      ]

  remind-IsMarked :
      (k l : Reminder) (now i : ℕ) (e : ℕ × Booking) (s : Reminded mongo)
      → IsMarked k i s.bookings
      → IsMarked k i (remind mongo l now e s).bookings
  unfolding remind
  remind-IsMarked k l now i e s h = elim (Bool-cases (is_due l now e.1)) [
    | inl due ↦
        rw due (update-IsMarked k i e.0 (mark_sent l) s.bookings (λ b. mark_sent-keeps k l b) h)
    | inr not_due ↦ rw not_due h
  ]

  -- The bookings of the messages so far are marked.
  abbrev pub AllMarked : Reminded mongo → Type 0
  AllMarked s = (k : Reminder) (i : ℕ) → IsSent k i s.sent → IsMarked k i s.bookings

  remind-AllMarked :
      (l : Reminder) (now : ℕ) (e : ℕ × Booking) (s : Reminded mongo)
      → AllMarked s
      → AllMarked (remind mongo l now e s)
  unfolding remind
  remind-AllMarked l now e s all k i = elim (Bool-cases (is_due l now e.1)) [
    | inr not_due ↦ rw not_due (all k i)
    | inl due ↦ rw due (λ sent. elim sent [
      | inl (kind, here) ↦ rw (← kind, ← here) (mark-IsMarked l e.0 s.bookings)
      | inr earlier ↦
          update-IsMarked k i e.0 (mark_sent l) s.bookings (λ b. mark_sent-keeps k l b)
            (all k i earlier)
    ])
  ]

  pub remind_each-AllMarked :
      (now : ℕ) (xs : List (ℕ × Booking)) (s : Reminded mongo)
      → AllMarked s
      → AllMarked (remind_each mongo now xs s)
  unfolding remind_each
  remind_each-AllMarked now [] s all = all
  remind_each-AllMarked now (e ∷ rest) s all = remind_each-AllMarked now rest _ (
      remind-AllMarked match_reminder_kickoff now e _
        (remind-AllMarked match_reminder_morning now e s all))

  pub remind_each-IsMarked :
      (k : Reminder) (now i : ℕ) (xs : List (ℕ × Booking)) (s : Reminded mongo)
      → IsMarked k i s.bookings
      → IsMarked k i (remind_each mongo now xs s).bookings
  unfolding remind_each
  remind_each-IsMarked k now i [] s h = h
  remind_each-IsMarked k now i (e ∷ rest) s h = remind_each-IsMarked k now i rest _ (
      remind-IsMarked k match_reminder_kickoff now i e _
        (remind-IsMarked k match_reminder_morning now i e s h))

  -- a booking that a run of the job reminds of
  abbrev pub IsDueAt : Reminder → ℕ → ℕ → Docs Booking → Type 0
  IsDueAt k now i d =
      (b : Booking) × (find_by_id d i ≡ some b) × (is_today now b ≡ true) × (is_due k now b ≡ true)

  abbrev pub AllToday : ℕ → Docs Booking → List (ℕ × Booking) → Type 0
  AllToday now d = All (λ e. (find_by_id d e.0 ≡ some e.1) × (is_today now e.1 ≡ true))

  remind-IsSent :
      (k l : Reminder) (now i : ℕ) (e : ℕ × Booking) (d : Docs Booking) (s : Reminded mongo)
      → find_by_id d e.0 ≡ some e.1
      → is_today now e.1 ≡ true
      → IsSent k i (remind mongo l now e s).sent
      → IsSent k i s.sent ⊎ IsDueAt k now i d
  unfolding remind
  remind-IsSent k l now i e d s stored today sent = elim (Bool-cases (is_due l now e.1)) [
    | inr not_due ↦ inl (rw not_due at sent)
    | inl due ↦
        let parts : ((l ≡ k) × (e.0 ≡ i)) ⊎ IsSent k i s.sent = rw due at sent in
        elim parts [
          | inl (kind, here) ↦ inr (e.1, rw (← here) stored, today, rw (← kind) due)
          | inr earlier ↦ inl earlier
        ]
  ]

  pub remind_each-IsSent :
      (k : Reminder) (now i : ℕ) (xs : List (ℕ × Booking)) (d : Docs Booking) (s : Reminded mongo)
      → AllToday now d xs
      → IsSent k i (remind_each mongo now xs s).sent
      → IsSent k i s.sent ⊎ IsDueAt k now i d
  unfolding remind_each
  remind_each-IsSent k now i [] d s all sent = inl sent
  remind_each-IsSent k now i (e ∷ rest) d s all sent =
      elim (remind_each-IsSent k now i rest d _ all.1 sent) [
        | inr due ↦ inr due
        | inl this ↦
            elim (remind-IsSent k match_reminder_kickoff now i e d _ all.0.0 all.0.1 this) [
              | inr due ↦ inr due
              | inl before ↦
                  remind-IsSent k match_reminder_morning now i e d s all.0.0 all.0.1 before
            ]
      ]
