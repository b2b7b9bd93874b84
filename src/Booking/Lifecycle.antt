-- ===== src/Booking/Lifecycle.antt =====
-- What becomes of a stored booking: `cancelBooking`, `updateStatus`, the cancellation of a suspended
-- customer's bookings and the clean-up job. A refund that throws is caught and logged, and the
-- booking is changed all the same; `Faults` says what the calls of the wallet throw.
pub mod Cancel
pub mod Suspension
pub mod Clean
pub mod Released
use sports_venue_management.Common.{
  ℕ, ◌+◌, ◌-◌, ◌*◌, ◌/◌, ◌%◌, Bool, true, false, ◌&&◌, ◌||◌, not, Option, none, some, List, [], ◌∷◌,
  filter, first, ltb, leb, ◌==◌, if◌then◌else◌,
}
use sports_venue_management.Common.Decimal.{round_div}
use sports_venue_management.Common.Text.{text_eq}
use sports_venue_management.Common.Outcome.{
  Error, Result, ok, err, ◌>>◌, throw_if, booking_not_found, not_your_booking, already_cancelled,
  completed_final, too_late_to_cancel,
}
use sports_venue_management.Entities.{
  Booking, BookingStatus, pending, confirmed, cancelled, completed, expired, no_show, PaymentStatus,
  unpaid, paid, partially_paid, refunded, Coupon, Role, is_staff, status_eq, payment_status_eq,
}
use sports_venue_management.Mongo.{Mongo}
use sports_venue_management.Wallet.{Faults}
use sports_venue_management.Platform.{Platform, refund}
use sports_venue_management.Booking.Settle.{booking_final}
use sports_venue_management.Booking.Reserve.{ms_per_day}

abbrev pub ms_per_hour : ℕ
ms_per_hour = 3600000

-- `CANCELLATION_DEADLINE_HOURS`
abbrev pub cancellation_deadline : ℕ
cancellation_deadline = 24

unfoldable pub was_paid : Booking → Bool
was_paid b =
    payment_status_eq b.payment_status paid || payment_status_eq b.payment_status partially_paid

-- `actualPaidAmount`
unfoldable pub actual_paid_amount : Booking → ℕ
unfolding was_paid booking_final
actual_paid_amount b =
    if ltb 0 b.paid_amount then b.paid_amount else if was_paid b then booking_final b else 0

-- the instant at which an hour of the booking's day begins: `setHours(hour, 0, 0, 0)`
unfoldable pub instant : Booking → ℕ → ℕ
instant b hour = b.date / ms_per_day * ms_per_day + hour * ms_per_hour

-- `hoursDifference < hours`
unfoldable pub is_within : ℕ → ℕ → Booking → Bool
unfolding instant
is_within now hours b = ltb (instant b b.start_time) (now + hours * ms_per_hour)

-- The guards of `cancelBooking`, in order.
unfoldable pub check_cancel : ℕ → ℕ → Role → Booking → Result (Unit {0})
unfolding is_within
check_cancel now user role b = do
  throw_if (not (b.user_id == user) && not (is_staff role)) not_your_booking
  throw_if (status_eq b.status cancelled) already_cancelled
  throw_if (status_eq b.status completed) completed_final
  throw_if
      (not (status_eq b.status pending)
        && (is_within now cancellation_deadline b && not (is_staff role)))
      too_late_to_cancel

-- the update of a cancelled booking
unfoldable pub cancel : Booking → Booking
unfolding actual_paid_amount was_paid
cancel b = record b {
  status = cancelled;
  payment_status =
      if was_paid b && ltb 0 (actual_paid_amount b) then refunded else b.payment_status;
  paid_amount = 0;
  remaining_amount = 0;
  expires_at = none;
}

-- `coupon.usesCount = Math.max(0, coupon.usesCount - 1)`
abbrev pub give_back : Coupon → Coupon
give_back c = record c { uses_count = c.uses_count - 1 }

-- the refund of the tiers: how much of the payment comes back, in per cent
unfoldable pub refund_percentage : ℕ → Booking → ℕ
unfolding is_within
refund_percentage now b = if is_within now 3 b then 0 else if is_within now 24 b then 50 else 100

-- `Math.round` of a part of the payment, to whole pounds
unfoldable pub suspension_refund : ℕ → Booking → ℕ
unfolding refund_percentage actual_paid_amount
suspension_refund now b = 100 * round_div (actual_paid_amount b * refund_percentage now b) 10000

-- the update of a booking that is cancelled because its customer is suspended
unfoldable pub cancel_suspended : ℕ → Booking → Booking
unfolding suspension_refund was_paid
cancel_suspended now b = record b {
  status = cancelled;
  payment_status =
      if was_paid b then if ltb 0 (suspension_refund now b) then refunded else paid else unpaid;
  paid_amount = 0;
  remaining_amount = 0;
  cancelled_by_system = true;
}

-- the query of the suspension and its filter: today's bookings that are not over, and later ones
unfoldable pub is_upcoming : ℕ → ℕ → Booking → Bool
is_upcoming now user b =
    (b.user_id == user)
    && ((status_eq b.status confirmed || status_eq b.status pending)
        && (ltb (now / ms_per_day) (b.date / ms_per_day)
            || ((b.date / ms_per_day == now / ms_per_day)
                && ltb (now % ms_per_day / ms_per_hour)
                    (if b.end_time == 0 then b.start_time else b.end_time))))

-- the two queries of the clean-up job
unfoldable pub is_expired_hold : ℕ → Booking → Bool
is_expired_hold now b =
    status_eq b.status pending && elim b.expires_at [ none ↦ false | some t ↦ leb t now ]

unfoldable pub is_overdue : ℕ → Booking → Bool
unfolding instant
is_overdue now b =
    (status_eq b.status confirmed || status_eq b.status pending)
    && (leb b.date now && leb (instant b b.end_time) now)

abbrev pub mark : BookingStatus → Booking → Booking
mark s b = record b { status = s }

-- What throws when the bookings of a suspended customer are cancelled: their query, and for each
-- booking its refund and its update.
pub record SuspendFaults : Type 0 where
  pub query : Option Error
  pub refund : ℕ → Faults
  pub write : ℕ → Option Error

module _ (mongo : Mongo) where
  open mongo use {Docs, find_by_id, find, update}

  -- the coupon of a booking, by its identifier or else by its code
  unfoldable pub coupon_of : Booking → Docs Coupon → Option (ℕ × Coupon)
  coupon_of b d = elim b.coupon_id [
    | some i ↦ elim (find_by_id d i) [ none ↦ none | some c ↦ some (i, c) ]
    | none ↦ elim b.coupon_code [
      | none ↦ none
      | some code ↦ first (find (λ c. text_eq c.code code) d)
    ]
  ]

  -- A confirmed booking gives its use of a coupon back.
  unfoldable pub restore_coupon : Booking → Docs Coupon → Docs Coupon
  unfolding coupon_of
  restore_coupon b d =
      if status_eq b.status confirmed
      then elim (coupon_of b d) [
        | none ↦ d
        | some e ↦ if ltb 0 e.1.uses_count then update e.0 give_back d else d
      ]
      else d

  -- `cancelBooking` after its guards
  unfoldable pub cancel_stored : Faults → ℕ → Booking → Platform mongo → Platform mongo
  unfolding was_paid actual_paid_amount cancel restore_coupon
  cancel_stored f id b p = record p {
    bookings = update id cancel p.bookings;
    accounts =
        if was_paid b && ltb 0 (actual_paid_amount b)
        then (refund mongo f b.user_id (actual_paid_amount b) id p.accounts).1
        else p.accounts;
    coupons = restore_coupon b p.coupons;
  }

  unfoldable pub cancel_booking :
      Faults → ℕ → ℕ → ℕ → Role → Platform mongo → Result Booking × Platform mongo
  unfolding check_cancel cancel_stored cancel
  cancel_booking f now id user role p = elim (find_by_id p.bookings id) [
    | none ↦ (err booking_not_found, p)
    | some b ↦ elim (check_cancel now user role b) [
      | err e ↦ (err e, p)
      | ok u ↦ (ok (cancel b), cancel_stored f id b p)
    ]
  ]

  -- the refund in a round of the loop of `cancelUpcomingBookingsForSuspendedUser`; what it throws is
  -- logged
  unfoldable pub refund_suspended : Faults → ℕ → ℕ → Booking → Platform mongo → Platform mongo
  unfolding was_paid suspension_refund
  refund_suspended f now id b p = record p {
    accounts =
        if was_paid b && ltb 0 (suspension_refund now b)
        then (refund mongo f b.user_id (suspension_refund now b) id p.accounts).1
        else p.accounts;
  }

  -- a whole round
  unfoldable pub suspend_one : Faults → ℕ → ℕ → Booking → Platform mongo → Platform mongo
  unfolding refund_suspended cancel_suspended
  suspend_one f now id b p = record (refund_suspended f now id b p) {
    bookings = update id (cancel_suspended now) p.bookings;
  }

  -- An update of a booking that throws ends the loop after its refund.
  unfoldable pub suspend_each :
      SuspendFaults → ℕ → List (ℕ × Booking) → Platform mongo → Platform mongo
  unfolding suspend_one
  suspend_each f now [] p = p
  suspend_each f now (e ∷ rest) p = elim (f.write e.0) [
    | some x ↦ refund_suspended (f.refund e.0) now e.0 e.1 p
    | none ↦ suspend_each f now rest (suspend_one (f.refund e.0) now e.0 e.1 p)
  ]

  -- what `cancelUpcomingBookingsForSuspendedUser` leaves, whether it returns or throws
  unfoldable pub cancel_upcoming : SuspendFaults → ℕ → ℕ → Platform mongo → Platform mongo
  unfolding suspend_each is_upcoming
  cancel_upcoming f now user p = elim f.query [
    | some x ↦ p
    | none ↦ suspend_each f now (find (is_upcoming now user) p.bookings) p
  ]

  unfoldable pub mark_all : BookingStatus → List (ℕ × Booking) → Docs Booking → Docs Booking
  mark_all s [] d = d
  mark_all s (e ∷ rest) d = mark_all s rest (update e.0 (mark s) d)

  -- `cleanExpiredAndNoShowBookings`, the bookings
  unfoldable pub clean : ℕ → Docs Booking → Docs Booking
  unfolding mark_all is_expired_hold is_overdue
  clean now d =
      let e = mark_all expired (find (is_expired_hold now) d) d in
      mark_all no_show (find (is_overdue now) e) e
