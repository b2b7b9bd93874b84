-- ===== src/Payment/Create/Charged.antt =====
-- What a direct payment asks for, and what it leaves behind.
use sports_venue_management.Common.{
  ℕ, ◌≤◌, ◌≡◌, ◌≢◌, ◌⊎◌, refl, inl, inr, Bool, false, Option, none, some, List, Option-cases, arith,
  sym, ap, ◌∙◌,
}
use sports_venue_management.Common.Outcome.{Result, ok, Result-cases}
use sports_venue_management.Entities.{
  Booking, Venue, Payment, cancelled, expired, paid, wallet, booking_payment,
}
use sports_venue_management.Mongo.{Mongo}
use sports_venue_management.Wallet.{pay_for_booking}
use sports_venue_management.Wallet.Payments.{pay_for_booking-Debited, Debited-amounts}
use sports_venue_management.Platform.{Platform}
use sports_venue_management.Booking.Settle.{group_final, settle, target_status}
use sports_venue_management.Booking.Plan.{PaymentPlan, payment_plan}
use sports_venue_management.Booking.Order.{PayFaults, settle_each}
use sports_venue_management.Booking.PayBooking.{group_of, amount_due}
use sports_venue_management.Booking.Pay.Settled.{settle_each-IsPaidFor}
use sports_venue_management.Booking.Pay.Compensated.{IsCharged, ArePaidFor}
use sports_venue_management.Booking.PayBooking.Requests.{
  AreWithinPrice, group_of-IsWithinPrice, amount_due-le,
}
use sports_venue_management.Payment.Create.{
  check_create, payment_amount, record_payment, pay_group_by, create_payment, payment_for,
}

-- A direct payment asks for the same amount, and as a deposit in the same cases, as a request to pay
-- the booking that offers no amount of its own, which is never refused.
pub payment_amount-amount_due :
    (venue : Option Venue) (b : Booking) (targets : List (ℕ × Booking))
    → amount_due venue none b targets ≡ ok (payment_amount venue b targets)
unfolding amount_due payment_amount payment_plan
payment_amount-amount_due venue b targets = ground arith

-- what the guards leave
abbrev pub IsPayable : ℕ → Bool → Booking → Type 0
IsPayable user is_customer b =
    ((b.user_id ≡ user) ⊎ (is_customer ≡ false))
    × (b.status ≢ cancelled)
    × (b.status ≢ expired)
    × (b.payment_status ≢ paid)

check_create-IsPayable :
    (user : ℕ) (is_customer : Bool) (b : Booking) (u : Unit {0})
    → check_create user is_customer b ≡ ok u
    → IsPayable user is_customer b
unfolding check_create
check_create-IsPayable user is_customer b u h = ground arith

module _ (mongo : Mongo) where
  open mongo use {Docs, find_by_id, insert}

  -- a group that is recorded as paid
  abbrev Recorded :
      ℕ
      → Payment
      → PaymentPlan
      → ℕ
      → List (ℕ × Booking)
      → Platform mongo
      → Result Payment × Platform mongo
      → Type 0
  Recorded id y plan due targets p r =
      (z : Payment)
      → r.0 ≡ ok z
      → (z ≡ y)
        × (r.1.accounts ≡ p.accounts)
        × (r.1.payments ≡ insert id y p.payments)
        × ArePaidFor mongo plan.is_deposit_only due plan.amount_to_pay targets p r.1

  record_payment-Recorded :
      (f : PayFaults) (id : ℕ) (y : Payment) (plan : PaymentPlan) (due : ℕ)
      (targets : List (ℕ × Booking)) (p : Platform mongo)
      → plan.amount_to_pay ≤ due
      → let change = settle plan.is_deposit_only due plan.amount_to_pay in
        Recorded id y plan due targets p (record_payment mongo f none id y change targets p)
  unfolding record_payment
  record_payment-Recorded f id y plan due targets p bounded z h =
      let change = settle plan.is_deposit_only due plan.amount_to_pay in
      elim (Option-cases f.create) [
        | inr (e, failed) ↦ absurd (cc (rw (record_payment, failed) at h))
        | inl created ↦
            elim (Result-cases (settle_each mongo f.settle change 0 targets p.bookings).0) [
              | inl (e, failed) ↦ absurd (cc (rw (record_payment, created, failed) at h))
              | inr (u, went) ↦
                  let same : y ≡ z = cc (rw (record_payment, created, went) at h) in
                  rw (record_payment, created, went)
                    (
                      sym same,
                      refl,
                      refl,
                      λ i b w there stored.
                          settle_each-IsPaidFor mongo plan.is_deposit_only due plan.amount_to_pay
                            f.settle i b w targets p.bookings bounded went there stored,
                    )
            ]
      ]

  -- A direct payment from the wallet that returns a payment, where no stored booking owes more than
  -- its price: the booking is open and not fully paid, and the user's own unless the user is no
  -- customer; the amount of the payment is the one that was asked for, at most the price of the group, and
  -- has left the wallet of the user and no other; and every stored booking of the group is confirmed,
  -- with amounts that make up its price and its part of the payment among what is paid: the share of
  -- its price in a deposit, to within half a hundredth, and otherwise the amount on top of what was
  -- paid before, up to the price.
  pub create_payment_from_wallet :
      (f : PayFaults) (now : ℕ) (ids : ℕ × ℕ) (user : ℕ) (is_customer : Bool) (id : ℕ)
      (venues : ℕ → Option Venue) (p : Platform mongo) (y : Payment)
      → AreWithinPrice mongo p.bookings
      → (create_payment mongo f now ids user is_customer id wallet venues p).0 ≡ ok y
      → let q = (create_payment mongo f now ids user is_customer id wallet venues p).1 in
        (b : Booking) × (find_by_id p.bookings id ≡ some b)
        × IsPayable user is_customer b
        × (y.amount
            ≡ (payment_amount (venues b.venue_id) b (group_of mongo id b p.bookings)).amount_to_pay)
        × (y.amount ≤ group_final (group_of mongo id b p.bookings))
        × IsCharged mongo user y.amount p.accounts q.accounts
        × (q.payments ≡ insert ids.0 y p.payments)
        × ArePaidFor mongo
            (payment_amount (venues b.venue_id) b (group_of mongo id b p.bookings)).is_deposit_only
            (group_final (group_of mongo id b p.bookings))
            y.amount
            (group_of mongo id b p.bookings)
            p
            q
  unfolding create_payment pay_group_by
  create_payment_from_wallet f now ids user is_customer id venues p y all h =
      elim (Option-cases (find_by_id p.bookings id)) [
        | inl missing ↦ absurd (cc (rw (create_payment, missing) at h))
        | inr (b, stored) ↦ elim (Result-cases (check_create user is_customer b)) [
          | inl (e, refused) ↦ absurd (cc (rw (create_payment, stored, refused) at h))
          | inr (u, fine) ↦
              let targets = group_of mongo id b p.bookings in
              let plan = payment_amount (venues b.venue_id) b targets in
              let x =
                pay_for_booking mongo f.debit (λ a. a) false user plan.amount_to_pay id
                  p.accounts in
              let law =
                pay_for_booking-Debited mongo f.debit user plan.amount_to_pay id p.accounts in
              let le =
                amount_due-le (venues b.venue_id) none b targets plan
                  (group_of-IsWithinPrice mongo id b p.bookings all stored)
                  (payment_amount-amount_due (venues b.venue_id) b targets) in
              elim (Result-cases x.0) [
                | inl (e, failed) ↦
                    absurd (cc (rw (create_payment, stored, fine, pay_group_by, failed) at h))
                | inr (t, done) ↦
                    let due = group_final targets in
                    let amount = plan.amount_to_pay in
                    let made =
                      payment_for user id b amount wallet (target_status plan.is_deposit_only) ids.1
                        (some now) in
                    let change = settle plan.is_deposit_only due amount in
                    let debited : Platform mongo = record p { accounts = x.1 } in
                    let r = record_payment mongo f none ids.0 made change targets debited in
                    let ran : create_payment mongo f now ids user is_customer id wallet venues p
                        ≡ r =
                      simp (create_payment, stored, fine, pay_group_by, done) refl in
                    let charged : IsCharged mongo user amount p.accounts x.1 = λ v.
                      Debited-amounts mongo user amount booking_payment p.accounts x t v law done in
                    let (same, kept, recorded, are) =
                      record_payment-Recorded f ids.0 made plan due targets debited le y
                        (sym (ap (λ s. s.0) ran) ∙ h) in
                    rw (ran, kept, recorded, same)
                      (
                        b,
                        stored,
                        check_create-IsPayable user is_customer b u fine,
                        refl,
                        le,
                        charged,
                        refl,
                        are,
                      )
              ]
        ]
      ]
