-- ===== src/Examples/Bookings.antt =====
-- The theorems on bookings, applied.
use sports_venue_management.Common.{
  ℕ, ◌+◌, ◌-◌, ◌*◌, ◌≡◌, refl, true, false, Option, none, some, List, [], ◌∷◌, arith, if◌then◌else◌,
  ◌==◌, inl, inr,
}
use mathlib.Core.Option
use sports_venue_management.Common.Outcome.{ok, Error, duplicate_key}
use sports_venue_management.Entities.{Booking, BookingStatus, PaymentStatus, Role}
use sports_venue_management.Mongo.{list_mongo}
use sports_venue_management.Mongo.ListStore.{get, matching, drop_id}
use sports_venue_management.Wallet.{no_faults}
use sports_venue_management.Booking.Slots.{overlap, check_slots, check_slot, check_hours}
use sports_venue_management.Booking.Discount.{SlotCalculation, slot_final_calculations}
use sports_venue_management.Booking.Pricing.{price_slots, hour_price}
use sports_venue_management.Booking.Plan.{payment_plan}
use sports_venue_management.Booking.Settle.{booking_final}
use sports_venue_management.Booking.Create.{create_booking, GroupPrice}
use sports_venue_management.Booking.Create.Exclusive.{create_booking-IsExclusive}
use sports_venue_management.Booking.Reserve.{create_all, clear_slots, is_active}
use sports_venue_management.Booking.Reserve.Exclusive.{IsExclusive}
use sports_venue_management.Booking.Lifecycle.{
  cancel_booking, clean, actual_paid_amount, ms_per_hour,
}
use sports_venue_management.Booking.Lifecycle.Released.{clean_all, clean_all-releases}
use sports_venue_management.Booking.Final.{Steps, cancelling, cleaning, nothing, before}
use sports_venue_management.Booking.Final.Completed.{completed_final}
use sports_venue_management.Booking.Status.{StatusBody, Setting, update_status}
use sports_venue_management.Booking.Status.Money.{update_status-Collects, stored_amount}
use sports_venue_management.Booking.Availability.{get_availability}
use sports_venue_management.Booking.Availability.Shown.{get_availability-clear_slots}
use sports_venue_management.Examples.Data.{
  now, day_start, evening, night, paid_booking, deposit_booking, completed_booking, platform, venue,
  body, context, platform-AreFresh, platform-IsExclusive,
}

create_booking-IsExclusive_example :
    IsExclusive list_mongo now
      (create_booking list_mongo context body ((3, venue) ∷ []) (platform paid_booking)).1.bookings
create_booking-IsExclusive_example =
    create_booking-IsExclusive list_mongo context body ((3, venue) ∷ []) (platform paid_booking)
      (platform-AreFresh paid_booking) (platform-IsExclusive paid_booking)

-- the first of the two slots costs 700 pounds
create_booking_test :
    Option.map
      (λ (b : Booking). b.total_price)
      (get
        (create_booking list_mongo context body
          ((3, venue) ∷ [])
          (platform paid_booking)).1.bookings
        1000)
    ≡ some 70000
unfolding create_booking get matching drop_id create_all check_slots check_slot check_hours
    payment_plan slot_final_calculations price_slots hour_price
create_booking_test = refl

abbrev group : GroupPrice
group = record { discount = 0; final = 100000; coupon = none }

abbrev calculations : List SlotCalculation
calculations = slot_final_calculations 0 100000 (price_slots venue 20000 (evening ∷ night ∷ []))

-- the second creation meets a duplicate key
abbrev second_fails : ℕ → Option Error
second_fails k = if k == 1 then some duplicate_key else none

get_availability-clear_slots_example :
    clear_slots list_mongo now 8 3 day_start (evening ∷ night ∷ []) ((100, paid_booking) ∷ [])
    ≡ (ok tt, (100, paid_booking) ∷ [])
unfolding get_availability matching drop_id overlap
get_availability-clear_slots_example =
    get_availability-clear_slots list_mongo now 8 3 day_start (evening ∷ night ∷ [])
      ((100, paid_booking) ∷ []) (refl, tt)

-- the customer cancels the booking 46 hours before it starts
abbrev early : ℕ
early = day_start - 36 * ms_per_hour

-- three days later the booking is over
abbrev late : ℕ
late = day_start + 3 * 86400000

-- a cancellation by the staff and a run of the clean-up job
abbrev history :
    Steps list_mongo
      (platform completed_booking)
      (record (cancel_booking list_mongo no_faults late 100 1 Role.admin
        (platform completed_booking)).1 {
          bookings =
              clean list_mongo late
                (cancel_booking list_mongo no_faults late 100 1 Role.admin
                  (platform completed_booking)).1.bookings;
        })
history =
    before
      (before (nothing (platform completed_booking))
        (cancelling no_faults late 100 1 Role.admin (platform completed_booking)))
      (cleaning late
        (cancel_booking list_mongo no_faults late 100 1 Role.admin (platform completed_booking)).1)

completed_final_example :
    get
      (clean list_mongo late
        (cancel_booking list_mongo no_faults late 100 1 Role.admin
          (platform completed_booking)).1.bookings)
      100
    ≡ some completed_booking
unfolding get
completed_final_example = completed_final list_mongo 100 completed_booking history refl refl

abbrev collect : StatusBody
collect = record {
  status = some BookingStatus.completed;
  payment_status = some PaymentStatus.paid;
  collect_cash = true;
  cash_amount = none;
  paid_amount = none;
}

abbrev desk : Setting
desk = record {
  now = late;
  fresh = 201;
  transaction = 2;
  staff = some 1;
  faults = no_faults;
  payment_fails = false;
}

update_status-Collects_example :
    let q = (update_status list_mongo desk 100 collect (platform deposit_booking)).1 in
    ((c : Booking) × (get q.bookings 100 ≡ some c)
      × (c.payment_status ≡ PaymentStatus.paid)
      × (c.paid_amount ≡ booking_final deposit_booking)
      × (c.remaining_amount ≡ 0))
    × (actual_paid_amount deposit_booking + stored_amount list_mongo 201 q
        ≡ booking_final deposit_booking)
unfolding get actual_paid_amount booking_final
update_status-Collects_example =
    update_status-Collects list_mongo desk 100 collect (platform deposit_booking) deposit_booking
      refl (λ e. cc) (inl refl) refl refl refl refl

-- the job runs before the end of a hold and after it
abbrev hold : Booking
hold = record paid_booking { status = BookingStatus.pending; expires_at = some 5000 }

clean_all-releases_example :
    (c : Booking) × (get (clean_all list_mongo (1000 ∷ 6000 ∷ []) ((100, hold) ∷ [])) 100 ≡ some c)
    × (is_active c.status ≡ false)
unfolding get
clean_all-releases_example =
    clean_all-releases list_mongo (1000 ∷ 6000 ∷ []) ((100, hold) ∷ []) 100 5000 hold refl refl refl
      (inr (inl (omega arith)))
