-- ===== src/Booking/Reserve.antt =====
-- Conflicts and creation: the part of `createBooking` under the lock of the venue's day that looks
-- for bookings in the way, drops the customer's own holds and creates the bookings of a group.
pub mod Atomic
pub mod Exclusive
pub mod Cleared
use sports_venue_management.Common.{
  ℕ, ◌+◌, ◌*◌, Bool, true, false, ◌&&◌, ◌||◌, not, Option, none, some, List, [], ◌∷◌, ◌++◌, any,
  filter, leb, ◌==◌, if◌then◌else◌,
}
use sports_venue_management.Common.Outcome.{
  Error, Result, ok, err, slot_taken, just_booked, duplicate_key,
}
use sports_venue_management.Entities.{
  Booking, BookingStatus, pending, confirmed, completed, unpaid, PaymentMethod, DiscountType,
  status_eq,
}
use sports_venue_management.Mongo.{Mongo}
use sports_venue_management.Booking.Slots.{Slot, overlap}
use sports_venue_management.Booking.Discount.{SlotCalculation}

abbrev pub ms_per_day : ℕ
ms_per_day = 86400000

-- `HOLD_DURATION_MINUTES` in milliseconds
abbrev pub hold_duration : ℕ
hold_duration = 15 * 60 * 1000

-- the statuses that keep a slot
abbrev pub is_active : BookingStatus → Bool
is_active confirmed = true
is_active pending = true
is_active completed = true
is_active _ = false

-- a hold that has run out: `status === pending && expiresAt && expiresAt <= now`
abbrev pub has_run_out : ℕ → Booking → Bool
has_run_out now b =
    status_eq b.status pending && elim b.expires_at [ none ↦ false | some t ↦ leb t now ]

-- the slot of a stored booking
abbrev pub slot_of : Booking → Slot
slot_of b = record { start_time = b.start_time; end_time = b.end_time }

-- The bookings on the day that begins at `day`, as the date filter of the queries.
abbrev pub is_on_day : ℕ → Booking → Bool
is_on_day day b = leb day b.date && leb b.date (day + 86399999)

-- the filter of the query for existing bookings
unfoldable pub in_the_way : ℕ → ℕ → List Slot → Booking → Bool
in_the_way venue day slots b =
    (b.venue_id == venue)
    && (is_on_day day b && (is_active b.status && any (overlap (slot_of b)) slots))

-- a conflict for this customer: settled, or the hold of somebody else
unfoldable pub is_third_party : ℕ → Booking → Bool
is_third_party user b = not (status_eq b.status pending) || not (b.user_id == user)

-- What `createBooking` has computed for the whole group before it creates the bookings.
pub record GroupDetails : Type 0 where
  pub user_id : ℕ
  pub venue_id : ℕ
  pub group_id : ℕ
  pub day : ℕ
  pub coupon_id : Option ℕ
  pub coupon_code : Option (List ℕ)
  pub discount_type : Option DiscountType
  pub discount_value : Option ℕ
  pub payment_method : PaymentMethod
  pub expires_at : ℕ
  pub idempotency_key : Option ℕ
  pub request_hash : ℕ

unfoldable pub new_booking : GroupDetails → SlotCalculation → Booking
new_booking g c = record {
  user_id = g.user_id;
  venue_id = g.venue_id;
  group_id = some g.group_id;
  date = g.day;
  start_time = c.start_time;
  end_time = c.end_time;
  total_price = c.total_price;
  status = pending;
  payment_status = unpaid;
  coupon_id = g.coupon_id;
  coupon_code = g.coupon_code;
  discount_type = g.discount_type;
  discount_value = g.discount_value;
  discount_amount = c.discount_amount;
  final_price = some c.final_price;
  paid_amount = 0;
  remaining_amount = c.final_price;
  payment_method = some g.payment_method;
  expires_at = some g.expires_at;
  idempotency_key = g.idempotency_key;
  request_hash = some g.request_hash;
  morning_reminder_sent = false;
  two_hour_reminder_sent = false;
  cancelled_by_system = false;
  cash_collected_by = none;
}

-- what the handlers of `createError` and `payError` throw on
abbrev pub as_conflict : Error → Error
as_conflict duplicate_key = just_booked
as_conflict e = e

module _ (mongo : Mongo) where
  open mongo use {Docs, find, find_by_id, insert, delete}

  -- `validOverlaps`
  unfoldable pub valid_overlaps : ℕ → ℕ → ℕ → List Slot → Docs Booking → List (ℕ × Booking)
  unfolding in_the_way
  valid_overlaps now venue day slots d =
      filter (λ e. not (has_run_out now e.1)) (find (in_the_way venue day slots) d)

  unfoldable pub delete_all : List (ℕ × Booking) → Docs Booking → Docs Booking
  delete_all [] d = d
  delete_all (e ∷ rest) d = delete_all rest (delete e.0 d)

  -- Throws if a booking of somebody else is in the way, and deletes the customer's own holds.
  unfoldable pub clear_slots :
      ℕ → ℕ → ℕ → ℕ → List Slot → Docs Booking → Result (Unit {0}) × Docs Booking
  unfolding valid_overlaps is_third_party delete_all
  clear_slots now user venue day slots d =
      let overlaps = valid_overlaps now venue day slots d in
      elim (filter (λ e. is_third_party user e.1) overlaps) [
        | conflict ∷ more ↦ (err slot_taken, d)
        | [] ↦ (ok tt, delete_all (filter (λ e. not (is_third_party user e.1)) overlaps) d)
      ]

  -- The loop over `slotFinalCalculations`: the k-th creation gets the identifier `ids k`, or throws
  -- as `faults k` says, and then what was created is deleted again.
  unfoldable pub create_all :
      GroupDetails
      → (ℕ → ℕ)
      → (ℕ → Option Error)
      → ℕ
      → List SlotCalculation
      → List (ℕ × Booking)
      → Docs Booking
      → Result (List (ℕ × Booking)) × Docs Booking
  unfolding new_booking delete_all
  create_all g ids faults k [] created d = (ok created, d)
  create_all g ids faults k (c ∷ rest) created d =
      let b = new_booking g c in
      let next =
        create_all g ids faults (k + 1) rest (created ++ (ids k, b) ∷ []) (insert (ids k) b d) in
      elim (faults k) [ some e ↦ (err (as_conflict e), delete_all created d) | none ↦ next ]
