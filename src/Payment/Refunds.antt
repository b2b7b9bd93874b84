-- ===== src/Payment/Refunds.antt =====
-- What refunds add up to.
use sports_venue_management.Common.{
  ℕ, ◌+◌, ◌<◌, ◌≤◌, ◌≡◌, ◌⊎◌, refl, Option, some, arith, ◌==◌, if◌then◌else◌, inl, inr,
}
use sports_venue_management.Common.Outcome.{Result, ok, Result-cases}
use sports_venue_management.Entities.{
  Payment, paid, partially_paid, refunded, booking_refund, Wallet, Transaction,
}
use sports_venue_management.Mongo.{Mongo}
use sports_venue_management.Wallet.{Accounts, Faults, balance_of}
use sports_venue_management.Wallet.Payments.{refund_booking-Credited, Credited-amounts}
use sports_venue_management.Platform.{Platform, refund}
use sports_venue_management.Payment.Service.{
  available, refund_amount, check_refund, refund_part, refund_stored, refund_payment, reference_of,
}

-- what the guards of `refundPayment` leave
pub check_refund-ok :
    (asked : Option ℕ) (y : Payment) (u : Unit {0})
    → check_refund asked y ≡ ok u
    → ((y.status ≡ paid) ⊎ (y.status ≡ partially_paid))
      × (0 < refund_amount asked y)
      × (y.refunded_amount + refund_amount asked y ≤ y.amount)
unfolding check_refund refund_amount available
check_refund-ok asked y u h = ground arith

ok-injective : {A : Type 0} {a b : A} → Result.ok a ≡ Result.ok b → a ≡ b
ok-injective h = cc

module _ (mongo : Mongo) where
  open mongo use {Docs, find_by_id, update, find_by_id-update}

  pub refund_amounts :
      (u amount reference : ℕ) (a : Accounts mongo) (f : Faults) (t : Wallet × Transaction) (v : ℕ)
      → (refund mongo f u amount reference a).0 ≡ ok t
      → balance_of mongo v (refund mongo f u amount reference a).1.wallets
        ≡ balance_of mongo v a.wallets + (if u == v then amount else 0)
  unfolding refund
  refund_amounts u amount reference a f t v done =
      Credited-amounts mongo u amount booking_refund a _ t v
        (refund_booking-Credited mongo f u amount reference a) done

  -- A refund that goes through was of a payment that counted as paid. The refunded total of the
  -- payment and the balance of its customer grow by one and the same positive amount, the total
  -- stays within the payment, and the payment is marked refunded if all of it is, and otherwise
  -- keeps its status.
  pub refund_payment_totals :
      (f : Faults) (id : ℕ) (asked : Option ℕ) (p : Platform mongo) (y z : Payment)
      → find_by_id p.payments id ≡ some y
      → (refund_payment mongo f id asked p).0 ≡ ok z
      → let q = (refund_payment mongo f id asked p).1 in
        (find_by_id q.payments id ≡ some z)
        × ((y.status ≡ paid) ⊎ (y.status ≡ partially_paid))
        × (y.refunded_amount < z.refunded_amount)
        × (z.refunded_amount ≤ z.amount)
        × (z.amount ≡ y.amount)
        × (z.status ≡ (if z.refunded_amount == z.amount then refunded else y.status))
        × ((v : ℕ)
            → balance_of mongo v q.accounts.wallets
                + (if y.user_id == v then y.refunded_amount else 0)
              ≡ balance_of mongo v p.accounts.wallets
                + (if y.user_id == v then z.refunded_amount else 0))
  unfolding refund_payment refund_stored refund_part
  refund_payment_totals f id asked p y z stored h =
      let amount = refund_amount asked y in
      let r = refund mongo f y.user_id amount (reference_of y) p.accounts in
      elim (Result-cases (check_refund asked y)) [
        | inl (e, refused) ↦ absurd (cc (rw (stored, refund_payment, refused) at h))
        | inr (u, fine) ↦ elim (Result-cases r.0) [
          | inl (e, failed) ↦ absurd (cc (rw (stored, refund_payment, fine, failed) at h))
          | inr (t, done) ↦
              let law = refund_amounts y.user_id amount (reference_of y) p.accounts f t in
              let same : refund_part amount y ≡ z =
                ok-injective (rw (stored, refund_payment, fine, done) at h) in
              let bounds = check_refund-ok asked y u fine in
              rw (← same, stored, refund_payment, fine, done)
                (
                  rw (find_by_id-update id id (refund_part amount) p.payments, stored)
                      (ground arith),
                  bounds.0,
                  omega (arith, bounds.1),
                  omega (arith, bounds.2),
                  refl,
                  ground (arith, bounds.1, bounds.2),
                  λ v. let l = law v done in ground (arith, l),
                )
        ]
      ]
