-- ===== src/Booking/Status.antt =====
-- `updateStatus` of src/modules/booking/booking.service.ts: what the staff may set by hand.
pub mod Money
use sports_venue_management.Common.{
  ℕ, ◌-◌, Bool, true, false, ◌&&◌, ◌||◌, not, Option, none, some, ltb, ◌==◌, if◌then◌else◌,
}
use sports_venue_management.Common.Outcome.{
  Error, Result, ok, err, booking_not_found, completed_final, nothing_to_update,
}
use sports_venue_management.Entities.{
  Booking, BookingStatus, completed, cancelled, Payment, PaymentStatus, unpaid, paid,
  partially_paid, refunded, pay_at_venue, cash, status_eq, payment_status_eq,
}
use sports_venue_management.Mongo.{Mongo}
use sports_venue_management.Wallet.{Accounts, Faults}
use sports_venue_management.Platform.{Platform, refund}
use sports_venue_management.Booking.Settle.{booking_final}
use sports_venue_management.Booking.Lifecycle.{was_paid, actual_paid_amount}

-- UpdateBookingStatusDto
pub record StatusBody : Type 0 where
  pub status : Option BookingStatus
  pub payment_status : Option PaymentStatus
  pub collect_cash : Bool
  pub cash_amount : Option ℕ
  pub paid_amount : Option ℕ

abbrev pub asks_status : StatusBody → BookingStatus → Bool
asks_status u s = elim u.status [ none ↦ false | some t ↦ status_eq t s ]

abbrev pub asks_payment : StatusBody → PaymentStatus → Bool
asks_payment u s = elim u.payment_status [ none ↦ false | some t ↦ payment_status_eq t s ]

abbrev or_default : {A : Type 0} → Option A → A → A
or_default none a = a
or_default (some b) a = b

-- `remainingDue`
unfoldable pub remaining_due : StatusBody → Booking → ℕ
unfolding actual_paid_amount booking_final
remaining_due u b = elim u.cash_amount [
  | some given ↦ given
  | none ↦
      if ltb 0 b.remaining_amount
      then b.remaining_amount
      else booking_final b - actual_paid_amount b
]

-- the branches of the chain of conditions
pub data Change : Type 0 where
  collected part_paid cancelled_refunded reopened refunded_only status_only : Change

unfoldable pub change : StatusBody → Booking → Change
unfolding was_paid actual_paid_amount
change u b =
    if asks_payment u paid || u.collect_cash
    then collected
    else if asks_payment u partially_paid
    then part_paid
    else if asks_status u cancelled
        && (was_paid b
            && (ltb 0 (actual_paid_amount b)
                && (not (payment_status_eq b.payment_status refunded)
                    && not (asks_payment u refunded))))
    then cancelled_refunded
    else if asks_payment u unpaid || asks_payment u pay_at_venue
    then reopened
    else if asks_payment u refunded
    then refunded_only
    else status_only

-- the fields that are set before the chain
unfoldable pub with_status : StatusBody → Booking → Booking
with_status u b = record b {
  status = or_default u.status b.status;
  payment_status = or_default u.payment_status b.payment_status;
}

-- `updateData`, laid over the booking; `recorded` tells whether a cash payment was stored
unfoldable pub update_data : Change → Option ℕ → Bool → StatusBody → Booking → Booking
unfolding with_status booking_final
update_data collected staff recorded u b = record (with_status u b) {
  paid_amount = booking_final b;
  remaining_amount = 0;
  payment_status = paid;
  expires_at = none;
  cash_collected_by = elim staff [ none ↦ b.cash_collected_by | some s ↦ some s ];
  payment_method = if recorded && (b.paid_amount == 0) then some cash else b.payment_method;
}
update_data part_paid staff recorded u b =
    let amount = or_default u.paid_amount b.paid_amount in
    record (with_status u b) { paid_amount = amount; remaining_amount = booking_final b - amount }
update_data cancelled_refunded staff recorded u b = record (with_status u b) {
  payment_status = refunded;
  paid_amount = 0;
  remaining_amount = 0;
}
update_data reopened staff recorded u b = record (with_status u b) {
  paid_amount = 0;
  remaining_amount = booking_final b;
}
update_data refunded_only staff recorded u b = record (with_status u b) {
  paid_amount = 0;
  remaining_amount = 0;
}
update_data status_only staff recorded u b = with_status u b

-- whether the branch pays the customer back
unfoldable pub pays_back : Change → Booking → Bool
unfolding was_paid actual_paid_amount
pays_back cancelled_refunded b = true
pays_back refunded_only b =
    was_paid b
    && (ltb 0 (actual_paid_amount b) && not (payment_status_eq b.payment_status refunded))
pays_back _ b = false

unfoldable pub cash_payment : ℕ → ℕ → Option ℕ → ℕ → Booking → ℕ → Payment
cash_payment now transaction staff id b amount = record {
  booking_id = some id;
  group_id = b.group_id;
  user_id = b.user_id;
  amount = amount;
  payment_method = cash;
  transaction_id = transaction;
  paymob_transaction_id = none;
  status = paid;
  paid_at = some now;
  refunded_amount = 0;
  wallet_deduction = 0;
  collected_by = staff;
}

-- What the request meets: the clock, the new payment's identifier and transaction code, who asks,
-- what the wallet throws and whether storing the payment throws.
pub record Setting : Type 0 where
  pub now : ℕ
  pub fresh : ℕ
  pub transaction : ℕ
  pub staff : Option ℕ
  pub faults : Faults
  pub payment_fails : Bool

-- whether a cash payment is stored
unfoldable pub records_cash : Setting → Change → StatusBody → Booking → Bool
unfolding remaining_due
records_cash s collected u b = ltb 0 (remaining_due u b) && not s.payment_fails
records_cash s _ u b = false

unfoldable pub is_empty : StatusBody → Bool
is_empty u = elim u.status [
  | some _ ↦ false
  | none ↦ elim u.payment_status [ some _ ↦ false | none ↦ not u.collect_cash ]
]

module _ (mongo : Mongo) where
  open mongo use {Docs, find_by_id, update, insert}

  unfoldable pub update_stored :
      Setting → ℕ → StatusBody → Booking → Platform mongo → Platform mongo
  unfolding change update_data pays_back records_cash cash_payment remaining_due actual_paid_amount
  update_stored s id u b p =
      let c = change u b in
      let recorded = records_cash s c u b in
      record p {
        bookings = update id (update_data c s.staff recorded u) p.bookings;
        payments =
            if recorded
            then insert s.fresh (cash_payment s.now s.transaction s.staff id b (remaining_due u b))
                p.payments
            else p.payments;
        accounts =
            if pays_back c b
            then (refund mongo s.faults b.user_id (actual_paid_amount b) id p.accounts).1
            else p.accounts;
      }

  unfoldable pub update_status :
      Setting → ℕ → StatusBody → Platform mongo → Result Booking × Platform mongo
  unfolding is_empty update_stored change update_data records_cash
  update_status s id u p = elim (find_by_id p.bookings id) [
    | none ↦ (err booking_not_found, p)
    | some b ↦
        if status_eq b.status completed
        then (err completed_final, p)
        else if is_empty u
        then (err nothing_to_update, p)
        else (
          ok (update_data (change u b) s.staff (records_cash s (change u b) u b) u b),
          update_stored s id u b p,
        )
  ]
