-- ===== src/Reports/Refunds.antt =====
-- How a refund of a payment appears in the report on revenue.
use sports_venue_management.Common.{
  ℕ, ◌+◌, ◌-◌, ◌*◌, ◌≤◌, ◌≡◌, ◌⊎◌, refl, false, inl, inr, Option, List, [], ◌∷◌, ◌++◌, sum_by,
  arith, ◌==◌, if◌then◌else◌,
}
use sports_venue_management.Common.Outcome.{ok}
use sports_venue_management.Entities.{
  Booking, Payment, PaymentMethod, paid, partially_paid, paymob, cash, wallet, Transaction,
  booking_refund,
}
use sports_venue_management.Payment.Service.{check_refund, refund_amount, refund_part}
use sports_venue_management.Payment.Refunds.{check_refund-ok}
use sports_venue_management.Reports.{
  revenue_summary, refunds_of, method_eq, method_stats, wallet_activity, collected, given_back,
}

-- one element of a list replaced, and a sum over the list
sum_by-replace {ℓ} :
    {A : Type ℓ} (f : A → ℕ) (before after : List A) (x y : A)
    → sum_by f (before ++ y ∷ after) + f x ≡ sum_by f (before ++ x ∷ after) + f y
sum_by-replace f [] after x y = omega arith
sum_by-replace f (z ∷ before) after x y = omega (arith, sum_by-replace f before after x y)

refunded-given_back :
    (a : ℕ) (y : Payment)
    → y.payment_method ≡ paymob
    → given_back paymob (refund_part a y) ≡ given_back paymob y + a
unfolding refund_part
refunded-given_back a y card = rw card refl

-- the sums of the other methods
refunded-elsewhere :
    (m : PaymentMethod) (a : ℕ) (y : Payment)
    → y.payment_method ≡ paymob
    → method_eq m paymob ≡ false
    → collected m (refund_part a y) ≡ collected m y
unfolding refund_part
refunded-elsewhere m a y card other = rw (card, other) refl

refunded-collected :
    (a : ℕ) (y : Payment)
    → y.payment_method ≡ paymob
    → ((y.status ≡ paid) ⊎ (y.status ≡ partially_paid))
    → y.refunded_amount + a ≤ y.amount
    → collected paymob (refund_part a y)
        + (if y.refunded_amount + a == y.amount then y.amount else 0)
      ≡ collected paymob y
unfolding refund_part
refunded-collected a y card (inl full) within = rw (card, full) (ground arith)
refunded-collected a y card (inr part) within = rw (card, part) (ground arith)

-- Refunding a part of a card payment of the period, where `refundPayment` allows it, with a refund
-- of that amount among the entries of the wallets, raises the total of the refunds by twice the
-- amount, and lowers the net revenue over the same bookings by twice the amount, down to 0 at the
-- least. Once nothing of the payment is left, all of it is also missing from the card revenue, the
-- inflow and the collected payments, which otherwise stay.
pub refund_part-revenue_summary :
    (before after : List Payment) (y : Payment) (asked : Option ℕ) (t : Transaction)
    (ts : List Transaction) (bs : List Booking) (u : Unit {0})
    → y.payment_method ≡ paymob
    → check_refund asked y ≡ ok u
    → t.type ≡ booking_refund
    → t.amount ≡ refund_amount asked y
    → let a = refund_amount asked y in
      let old = revenue_summary (before ++ y ∷ after) ts bs in
      let new = revenue_summary (before ++ refund_part a y ∷ after) (t ∷ ts) bs in
      let missing = if y.refunded_amount + a == y.amount then y.amount else 0 in
      (new.total_refunds ≡ old.total_refunds + 2 * a)
      × (new.net_revenue ≡ old.net_revenue - 2 * a)
      × (new.card_revenue + missing ≡ old.card_revenue)
      × (new.physical_cash_inflow + missing ≡ old.physical_cash_inflow)
      × (new.total_collected_payments + missing ≡ old.total_collected_payments)
unfolding revenue_summary refunds_of method_stats wallet_activity
refund_part-revenue_summary before after y asked t ts bs u card allowed kind amount =
    let a = refund_amount asked y in
    let z = refund_part a y in
    let bounds = check_refund-ok asked y u allowed in
    let back = sum_by-replace (given_back paymob) before after y z in
    let cards = sum_by-replace (collected paymob) before after y z in
    let money = refunded-given_back a y card in
    let kept = refunded-collected a y card bounds.0 bounds.2 in
    let others : (m : PaymentMethod)
        → method_eq m paymob ≡ false
        → sum_by (collected m) (before ++ z ∷ after) ≡ sum_by (collected m) (before ++ y ∷ after) =
      λ m other. omega (
        arith,
        sum_by-replace (collected m) before after y z,
        refunded-elsewhere m a y card other,
      ) in
    let refunds : refunds_of (before ++ z ∷ after) (t ∷ ts)
        ≡ refunds_of (before ++ y ∷ after) ts + 2 * a =
      rw (refunds_of, kind, amount) (omega (arith, back, money)) in
    let by_card : sum_by (collected paymob) (before ++ z ∷ after)
          + (if y.refunded_amount + a == y.amount then y.amount else 0)
        ≡ sum_by (collected paymob) (before ++ y ∷ after) =
      omega (arith, cards, kept) in
    (
      refunds,
      omega (arith, refunds),
      by_card,
      omega (arith, by_card, others cash refl),
      omega (arith, by_card, others cash refl, others wallet refl),
    )
