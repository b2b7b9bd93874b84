-- ===== src/Payment/Service.antt =====
-- `markCashPaid` and `refundPayment`, with their loops over the bookings of the payment.
use sports_venue_management.Common.{
  ℕ, ◌+◌, ◌-◌, Bool, false, ◌&&◌, not, Option, none, some, List, [], ◌∷◌, ltb, leb, ◌==◌,
  if◌then◌else◌,
}
use sports_venue_management.Common.Outcome.{
  Result, ok, err, ◌>>◌, throw_if, payment_not_found, payment_paid, payment_refunded,
  not_refundable, bad_amount, refund_too_large,
}
use sports_venue_management.Entities.{
  Booking, confirmed, cancelled, Payment, paid, partially_paid, refunded, payment_status_eq,
}
use sports_venue_management.Mongo.{Mongo}
use sports_venue_management.Wallet.{Faults}
use sports_venue_management.Platform.{Platform, refund}

-- the update of a booking whose cash payment has been received
unfoldable pub confirm_cash : Option ℕ → Booking → Booking
confirm_cash staff b = record b {
  payment_status = paid;
  status = confirmed;
  expires_at = none;
  cash_collected_by = elim staff [ none ↦ b.cash_collected_by | some s ↦ some s ];
}

unfoldable pub receive : ℕ → Option ℕ → Payment → Payment
receive now staff y = record y {
  status = paid;
  paid_at = some now;
  collected_by = elim staff [ none ↦ y.collected_by | some s ↦ some s ];
}

unfoldable pub check_receive : Payment → Result (Unit {0})
check_receive y = do
  throw_if (payment_status_eq y.status paid) payment_paid
  throw_if (payment_status_eq y.status refunded) payment_refunded

-- `availableToRefund` and `refundAmount`
unfoldable pub available : Payment → ℕ
available y = y.amount - y.refunded_amount

unfoldable pub refund_amount : Option ℕ → Payment → ℕ
unfolding available
refund_amount asked y = elim asked [
  | none ↦ available y
  | some n ↦ if n == 0 then available y else n
]

unfoldable pub check_refund : Option ℕ → Payment → Result (Unit {0})
unfolding refund_amount available
check_refund asked y = do
  throw_if
      (not (payment_status_eq y.status paid) && not (payment_status_eq y.status partially_paid))
      not_refundable
  throw_if (refund_amount asked y == 0) bad_amount
  throw_if (ltb (available y) (refund_amount asked y)) refund_too_large

-- the payment after a refund of `amount`
unfoldable pub refund_part : ℕ → Payment → Payment
refund_part amount y =
    let total = y.refunded_amount + amount in
    record y { refunded_amount = total; status = if leb y.amount total then refunded else y.status }

unfoldable pub cancel_refunded : Booking → Booking
cancel_refunded b = record b {
  status = cancelled;
  payment_status = refunded;
  paid_amount = 0;
  remaining_amount = 0;
  expires_at = none;
}

-- `payment.bookingId ? … : payment.groupId || 'GROUP_REFUND'`; 0 stands for the constant
abbrev pub reference_of : Payment → ℕ
reference_of y = elim y.booking_id [ some b ↦ b | none ↦ elim y.group_id [ some g ↦ g | none ↦ 0 ] ]

abbrev pub is_in_group : ℕ → Booking → Bool
is_in_group g b = elim b.group_id [ none ↦ false | some h ↦ h == g ]

module _ (mongo : Mongo) where
  open mongo use {Docs, find_by_id, find, update}

  -- `targetBookings`
  unfoldable pub target_bookings : Payment → Docs Booking → List (ℕ × Booking)
  target_bookings y d = elim y.group_id [
    | some g ↦ find (is_in_group g) d
    | none ↦ elim y.booking_id [
      | none ↦ []
      | some i ↦ elim (find_by_id d i) [ none ↦ [] | some b ↦ (i, b) ∷ [] ]
    ]
  ]

  unfoldable pub update_each :
      (Booking → Booking) → List (ℕ × Booking) → Docs Booking → Docs Booking
  update_each f [] d = d
  update_each f (e ∷ rest) d = update_each f rest (update e.0 f d)

  unfoldable pub mark_cash_paid :
      ℕ → Option ℕ → ℕ → Platform mongo → Result Payment × Platform mongo
  unfolding check_receive receive confirm_cash target_bookings update_each
  mark_cash_paid now staff id p = elim (find_by_id p.payments id) [
    | none ↦ (err payment_not_found, p)
    | some y ↦ elim (check_receive y) [
      | err e ↦ (err e, p)
      | ok u ↦ (
        ok (receive now staff y),
        record p {
          payments = update id (receive now staff) p.payments;
          bookings = update_each (confirm_cash staff) (target_bookings y p.bookings) p.bookings;
        },
      )
    ]
  ]

  -- `refundPayment` once the wallet has been credited
  unfoldable pub refund_stored : ℕ → ℕ → Payment → Platform mongo → Platform mongo
  unfolding refund_part cancel_refunded target_bookings update_each
  refund_stored id amount y p = record p {
    payments = update id (refund_part amount) p.payments;
    bookings = update_each cancel_refunded (target_bookings y p.bookings) p.bookings;
  }

  unfoldable pub refund_payment :
      Faults → ℕ → Option ℕ → Platform mongo → Result Payment × Platform mongo
  unfolding check_refund refund_amount refund_stored refund_part
  refund_payment f id asked p = elim (find_by_id p.payments id) [
    | none ↦ (err payment_not_found, p)
    | some y ↦ elim (check_refund asked y) [
      | err e ↦ (err e, p)
      | ok u ↦
          let (credited, a) =
            refund mongo f y.user_id (refund_amount asked y) (reference_of y) p.accounts in
          let charged = record p { accounts = a } in
          elim credited [
            | err e ↦ (err e, charged)
            | ok t ↦ (
              ok (refund_part (refund_amount asked y) y),
              refund_stored id (refund_amount asked y) y charged,
            )
          ]
    ]
  ]
