-- ===== src/Booking/Settle/Amounts.antt =====
-- The amounts of a booking after a payment.
use sports_venue_management.Common.{
  ℕ, ◌+◌, ◌*◌, ◌≤◌, ◌<◌, ◌≡◌, ◌↔◌, ◌⊎◌, Bool, true, false, List, [], ◌∷◌, All, arith,
}
use sports_venue_management.Common.Decimal.{round_div_le}
use sports_venue_management.Entities.{Booking, paid}
use sports_venue_management.Booking.Settle.{
  booking_final, group_final, group_remaining, divisor, paid_share, settle,
}

-- What is paid and what remains are the final price.
abbrev pub IsSettled : Booking → Type 0
IsSettled b = b.paid_amount + b.remaining_amount ≡ booking_final b

le_product : (a b c : ℕ) → b ≤ c → a * b ≤ a * c
le_product a b c h = grind arith

divisor_pos : (g : ℕ) → 0 < divisor g
unfolding divisor
divisor_pos g = ground arith

divisor-le : (g amount : ℕ) → amount ≤ g → amount ≤ divisor g
unfolding divisor
divisor-le g amount h = ground arith

pub paid_share-le :
    (deposit : Bool) (g amount : ℕ) (b : Booking)
    → amount ≤ g
    → paid_share deposit g amount b ≤ booking_final b
unfolding paid_share
paid_share-le true g amount b h =
    round_div_le (booking_final b * amount) (booking_final b) (divisor g) (divisor_pos g)
      (le_product (booking_final b) amount (divisor g) (divisor-le g amount h))
paid_share-le false g amount b h = omega arith

-- A payment of at most the group's price leaves every booking of the group with a paid amount and a
-- remaining amount that add up to its final price, and marks it paid exactly if nothing remains or
-- the payment is no deposit.
pub settle-IsSettled :
    (deposit : Bool) (g amount : ℕ) (b : Booking)
    → amount ≤ g
    → IsSettled (settle deposit g amount b)
      × (((settle deposit g amount b).payment_status ≡ paid)
          ↔ (((settle deposit g amount b).remaining_amount ≡ 0) ⊎ (deposit ≡ false)))
unfolding settle
settle-IsSettled deposit g amount b h = ground (arith, paid_share-le deposit g amount b h)

abbrev pub IsPaidInFull : Booking → Booking → Type 0
IsPaidInFull b c =
    (c.payment_status ≡ paid) × (c.paid_amount ≡ booking_final b) × (c.remaining_amount ≡ 0)

settle_enough :
    (g amount : ℕ) (b : Booking)
    → IsSettled b
    → b.remaining_amount ≤ amount
    → IsPaidInFull b (settle false g amount b)
unfolding settle
settle_enough g amount b h enough = ground arith

settle_each :
    (g amount : ℕ) (group : List (ℕ × Booking))
    → All (λ e. IsSettled e.1) group
    → group_remaining group ≤ amount
    → All (λ e. IsPaidInFull e.1 (settle false g amount e.1)) group
unfolding group_remaining
settle_each g amount [] h enough = tt
settle_each g amount (e ∷ rest) h enough =
    (settle_enough g amount e.1 h.0 (omega arith), settle_each g amount rest h.1 (omega arith))

-- Paying what remains of a group settles every booking of it: each is paid, in full.
pub settle_remaining :
    (group : List (ℕ × Booking))
    → All (λ e. IsSettled e.1) group
    → All
        (λ e. IsPaidInFull e.1 (settle false (group_final group) (group_remaining group) e.1))
        group
settle_remaining group h =
    settle_each (group_final group) (group_remaining group) group h (omega arith)
