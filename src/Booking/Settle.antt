-- ===== src/Booking/Settle.antt =====
-- What a payment does to the bookings of a group: the loops of `processGroupPayment`,
-- `processGroupPaymentCompensating` and of the wallet branch of `createPayment` in
-- src/modules/payment/payment.service.ts.
pub mod Amounts
use sports_venue_management.Common.{
  ℕ, ◌+◌, ◌-◌, ◌*◌, min, max, Bool, true, false, Option, none, some, List, sum_by, any, ltb, leb,
  ◌==◌, if◌then◌else◌, ◌&&◌,
}
use sports_venue_management.Common.Decimal.{round_div}
use sports_venue_management.Entities.{
  Booking, PaymentStatus, paid, partially_paid, pay_at_venue, confirmed, wallet, cash, paymob,
  status_eq,
}

-- `b.finalPrice ?? b.totalPrice ?? 0`
unfoldable pub booking_final : Booking → ℕ
booking_final b = elim b.final_price [ some final ↦ final | none ↦ b.total_price ]

-- `totalGroupFinalPrice`
unfoldable pub group_final : List (ℕ × Booking) → ℕ
group_final = sum_by (λ e. booking_final e.1)

-- the sum of what remains to be paid
unfoldable pub group_remaining : List (ℕ × Booking) → ℕ
group_remaining = sum_by (λ e. e.1.remaining_amount)

-- `isPayingRemaining`
unfoldable pub is_paying_remaining : Booking → List (ℕ × Booking) → Bool
is_paying_remaining b group =
    status_eq b.status confirmed && any (λ e. ltb 0 e.1.remaining_amount) group

-- `groupFinalPrice || 1`, a pound where the group costs nothing
unfoldable pub divisor : ℕ → ℕ
divisor group_final_price = if group_final_price == 0 then 100 else group_final_price

-- `bPaid`
unfoldable pub paid_share : Bool → ℕ → ℕ → Booking → ℕ
unfolding booking_final divisor
paid_share is_deposit_only group_final_price amount b =
    if is_deposit_only
    then round_div (booking_final b * amount) (divisor group_final_price)
    else min (booking_final b) (b.paid_amount + amount)

-- `targetPaymentStatus`
unfoldable pub target_status : Bool → PaymentStatus
target_status is_deposit_only = if is_deposit_only then partially_paid else paid

-- the update of one booking of the group
unfoldable pub settle : Bool → ℕ → ℕ → Booking → Booking
unfolding paid_share target_status
settle is_deposit_only group_final_price amount b =
    let b_paid = paid_share is_deposit_only group_final_price amount b in
    let b_remaining = booking_final b - b_paid in
    record b {
      status = confirmed;
      payment_status = if b_remaining == 0 then paid else target_status is_deposit_only;
      payment_method = some wallet;
      paid_amount = b_paid;
      remaining_amount = b_remaining;
      expires_at = none;
    }

-- the update of a booking that is to be paid at the venue
unfoldable pub settle_cash : Booking → Booking
unfolding booking_final
settle_cash b = record b {
  status = confirmed;
  payment_status = pay_at_venue;
  payment_method = some cash;
  paid_amount = 0;
  remaining_amount = booking_final b;
  expires_at = none;
}

-- the update of a booking whose payment goes through the gateway
unfoldable pub choose_paymob : Booking → Booking
choose_paymob b = record b { payment_method = some paymob }
