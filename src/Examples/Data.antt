-- ===== src/Examples/Data.antt =====
-- A venue, a customer with a wallet, a paid booking and a request for other hours of its day.
use sports_venue_management.Common.{ℕ, ◌+◌, ◌*◌, ◌≡◌, true, false, none, some, [], ◌∷◌, arith}
use sports_venue_management.Common.Int.{pos}
use sports_venue_management.Entities.{
  Booking, BookingStatus, PaymentStatus, PaymentMethod, Payment, Venue,
}
use sports_venue_management.Mongo.{list_mongo}
use sports_venue_management.Mongo.ListStore.{get}
use sports_venue_management.Wallet.{Accounts}
use sports_venue_management.Platform.{Platform}
use sports_venue_management.Booking.Slots.{Slot}
use sports_venue_management.Booking.Create.{CreateBody, Context}
use sports_venue_management.Booking.Reserve.Atomic.{AreFresh}
use sports_venue_management.Booking.Reserve.Exclusive.{IsExclusive}

abbrev pub day_start : ℕ
day_start = 20000 * 86400000

-- noon of the day before
abbrev pub now : ℕ
now = 19999 * 86400000 + 43200000

abbrev pub morning : Slot
morning = record { start_time = 10; end_time = 11 }

abbrev pub evening : Slot
evening = record { start_time = 18; end_time = 20 }

abbrev pub night : Slot
night = record { start_time = 21; end_time = 22 }

abbrev pub paid_booking : Booking
paid_booking = record {
  user_id = 7;
  venue_id = 3;
  group_id = some 50;
  date = day_start;
  start_time = 10;
  end_time = 11;
  total_price = 30000;
  status = BookingStatus.confirmed;
  payment_status = PaymentStatus.paid;
  coupon_id = none;
  coupon_code = none;
  discount_type = none;
  discount_value = none;
  discount_amount = pos 0;
  final_price = some 30000;
  paid_amount = 30000;
  remaining_amount = 0;
  payment_method = some PaymentMethod.wallet;
  expires_at = none;
  idempotency_key = none;
  request_hash = none;
  morning_reminder_sent = false;
  two_hour_reminder_sent = false;
  cancelled_by_system = false;
  cash_collected_by = none;
}

-- a deposit of a third has been paid
abbrev pub deposit_booking : Booking
deposit_booking = record paid_booking {
  payment_status = PaymentStatus.partially_paid;
  paid_amount = 10000;
  remaining_amount = 20000;
}

abbrev pub completed_booking : Booking
completed_booking = record paid_booking { status = BookingStatus.completed }

abbrev pub payment : Payment
payment = record {
  booking_id = some 100;
  group_id = none;
  user_id = 7;
  amount = 30000;
  payment_method = PaymentMethod.wallet;
  transaction_id = 1;
  paymob_transaction_id = none;
  status = PaymentStatus.paid;
  paid_at = some 0;
  refunded_amount = 10000;
  wallet_deduction = 0;
  collected_by = none;
}

abbrev pub accounts : Accounts list_mongo
accounts = record { wallets = (7, record { balance = 50000 }) ∷ []; ledger = [] }

abbrev pub platform : Booking → Platform list_mongo
platform b = record {
  bookings = (100, b) ∷ [];
  payments = (200, payment) ∷ [];
  coupons = [];
  accounts = accounts;
}

abbrev pub venue : Venue
venue = record {
  name = 65 ∷ [];
  images = [];
  amenities = [];
  working_hours = pos 15;
  start_working_hours = 8;
  end_working_hours = 23;
  default_hour_price = 30000;
  custom_hour_prices = record { hour = 19; price_per_hour = 40000 } ∷ [];
  custom_date_prices = [];
  minimum_deposit_amount = some 10000;
  is_active = true;
  created_by = none;
  is_deleted = false;
}

abbrev pub body : CreateBody
body = record {
  venue_id = 3;
  day = 20000;
  slots = evening ∷ night ∷ [];
  coupon_code = none;
  payment_method = PaymentMethod.cash;
  custom_amount = none;
}

abbrev pub ids : ℕ → ℕ
ids k = 1000 + k

abbrev pub context : Context
context = record {
  user = 8;
  customer = none;
  now = now;
  lock_acquired = true;
  group_id = 51;
  ids = ids;
  faults = λ k. none;
  wallet_fault = none;
  idempotency_key = none;
  request_hash = 0;
}

pub stored_at : (i : ℕ) (b c : Booking) → get ((100, b) ∷ []) i ≡ some c → i ≡ 100
unfolding get
stored_at i b c h = ground arith

pub platform-AreFresh : (b : Booking) → AreFresh list_mongo ids 0 ((100, b) ∷ [])
unfolding get
platform-AreFresh b = ((λ j later. ground arith), λ i j h. omega arith)

pub platform-IsExclusive : (b : Booking) → IsExclusive list_mongo now ((100, b) ∷ [])
platform-IsExclusive b i j x y at_i at_j ne venue day live_x live_y h p q =
    ne (omega (arith, stored_at i b x at_i, stored_at j b y at_j))
