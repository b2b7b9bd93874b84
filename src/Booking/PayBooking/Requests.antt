-- ===== src/Booking/PayBooking/Requests.antt =====
-- A customer's request to pay a booking.
use sports_venue_management.Common.{
  ℕ, ◌≤◌, ◌≡◌, ◌≢◌, refl, inl, inr, false, Option, none, some, List, [], ◌∷◌, Bool-cases,
  Option-cases, length, All, All-map, arith,
}
use sports_venue_management.Common.Outcome.{Result, ok, err, Result-cases}
use sports_venue_management.Entities.{
  Booking, Venue, PaymentStatus, cancelled, expired, paid, wallet,
}
use sports_venue_management.Mongo.{Mongo}
use sports_venue_management.Wallet.{no_faults, balance_of}
use sports_venue_management.Platform.{Platform}
use sports_venue_management.Booking.Settle.{
  booking_final, group_final, group_remaining, is_paying_remaining,
}
use sports_venue_management.Booking.Plan.{PaymentPlan}
use sports_venue_management.Booking.Plan.Range.{payment_plan_range}
use sports_venue_management.Booking.Reserve.{has_run_out}
use sports_venue_management.Payment.Service.{is_in_group}
use sports_venue_management.Booking.Order.{Order, PayFaults}
use sports_venue_management.Booking.Pay.{process_group_payment}
use sports_venue_management.Booking.PayBooking.{
  PayBody, check_pay, amount_due, order_of, pay_group, group_of, pay_booking,
}
use sports_venue_management.Booking.Pay.Compensated.{
  IsCharged, ArePaidFor, KeepsPayments, Outcome, process_group_payment_compensating-Outcome,
}

-- what the guards leave
abbrev pub MayPay : ℕ → ℕ → Booking → Type 0
MayPay now user b =
    (b.user_id ≡ user)
    × (b.status ≢ cancelled)
    × (b.status ≢ expired)
    × (b.payment_status ≢ paid)
    × (has_run_out now b ≡ false)

check_pay-MayPay :
    (now user : ℕ) (b : Booking) (u : Unit {0})
    → check_pay user b ≡ ok u
    → has_run_out now b ≡ false
    → MayPay now user b
unfolding check_pay
check_pay-MayPay now user b u h live = ground arith

-- A booking owes at most its price.
abbrev pub IsWithinPrice : Booking → Type 0
IsWithinPrice b = b.remaining_amount ≤ booking_final b

remaining-le :
    (xs : List (ℕ × Booking))
    → All (λ e. IsWithinPrice e.1) xs
    → group_remaining xs ≤ group_final xs
unfolding group_remaining group_final
remaining-le [] h = omega arith
remaining-le (e ∷ rest) h = omega (arith, h.0, remaining-le rest h.1)

pub planned : (x plan : PaymentPlan) → Result.ok x ≡ ok plan → x ≡ plan
planned x plan h = cc

pub amount_due-le :
    (venue : Option Venue) (custom : Option ℕ) (b : Booking) (xs : List (ℕ × Booking))
    (plan : PaymentPlan)
    → All (λ e. IsWithinPrice e.1) xs
    → amount_due venue custom b xs ≡ ok plan
    → plan.amount_to_pay ≤ group_final xs
unfolding amount_due
amount_due-le venue custom b xs plan h due = elim (Bool-cases (is_paying_remaining b xs)) [
  | inl rest ↦
      let same = planned _ plan (rw (amount_due, rest) at due) in
      let le = remaining-le xs h in rw (← same) le
  | inr fresh ↦
      (payment_plan_range (elim venue [ none ↦ none | some v ↦ v.minimum_deposit_amount ]) custom
        (length xs) (group_final xs) plan (rw (amount_due, fresh) at due)).1
]

module _ (mongo : Mongo) where
  open mongo use {Docs, find_by_id, find, find_sound}

  -- No stored booking owes more than its price.
  abbrev pub AreWithinPrice : Docs Booking → Type 0
  AreWithinPrice d = (i : ℕ) (b : Booking) → find_by_id d i ≡ some b → IsWithinPrice b

  pub group_of-IsWithinPrice :
      (id : ℕ) (b : Booking) (d : Docs Booking)
      → AreWithinPrice d
      → find_by_id d id ≡ some b
      → All (λ e. IsWithinPrice e.1) (group_of mongo id b d)
  unfolding group_of
  group_of-IsWithinPrice id b d all stored = elim (Option-cases b.group_id) [
    | inl alone ↦ rw (group_of, alone) (all id b stored, tt)
    | inr (g, grouped) ↦
        rw (group_of, grouped)
          (All-map (λ e h. all e.0 e.1 h.0) (find (is_in_group g) d) (find_sound (is_in_group g) d))
  ]

  -- No money has moved; `id` is that of a new payment.
  abbrev pub IsUnmoved : PayFaults → ℕ → Platform mongo → Platform mongo → Type 0
  IsUnmoved f id p q =
      ((v : ℕ) → balance_of mongo v q.accounts.wallets ≡ balance_of mongo v p.accounts.wallets)
      × KeepsPayments mongo f id p q
      × (q.coupons ≡ p.coupons)

  -- the customer of the booking has paid its group
  abbrev pub IsPaid :
      ℕ → ℕ → PayBody → ℕ → (ℕ → Option Venue) → Platform mongo → Platform mongo → Type 0
  IsPaid now id body user venues p q =
      (b : Booking) × (plan : PaymentPlan) × (find_by_id p.bookings id ≡ some b)
      × MayPay now user b
      × (amount_due (venues b.venue_id) body.custom_amount b (group_of mongo id b p.bookings)
          ≡ ok plan)
      × (plan.amount_to_pay ≤ group_final (group_of mongo id b p.bookings))
      × IsCharged mongo user plan.amount_to_pay p.accounts q.accounts
      × ArePaidFor mongo plan.is_deposit_only (group_final (group_of mongo id b p.bookings))
          plan.amount_to_pay (group_of mongo id b p.bookings) p q

  abbrev pub Answered :
      PayFaults
      → ℕ
      → ℕ
      → ℕ
      → PayBody
      → ℕ
      → (ℕ → Option Venue)
      → Platform mongo
      → Result PaymentStatus × Platform mongo
      → Type 0
  Answered f payment_id now id body user venues p (err e, q) = IsUnmoved f payment_id p q
  Answered f payment_id now id body user venues p (ok s, q) = IsPaid now id body user venues p q

  Outcome-Answered :
      (f : PayFaults) (now id : ℕ) (body : PayBody) (user : ℕ) (venues : ℕ → Option Venue)
      (p : Platform mongo) (o : Order) (b : Booking) (plan : PaymentPlan)
      (r : Result PaymentStatus × Platform mongo)
      → o.user ≡ user
      → o.amount ≡ plan.amount_to_pay
      → o.due ≡ group_final (group_of mongo id b p.bookings)
      → o.is_deposit_only ≡ plan.is_deposit_only
      → find_by_id p.bookings id ≡ some b
      → MayPay now user b
      → amount_due (venues b.venue_id) body.custom_amount b (group_of mongo id b p.bookings)
        ≡ ok plan
      → plan.amount_to_pay ≤ group_final (group_of mongo id b p.bookings)
      → Outcome mongo f o (group_of mongo id b p.bookings) p r
      → Answered f o.payment_id now id body user venues p r
  Outcome-Answered f now id body user venues p o b plan (err e, q) who much whole part stored may
        due le h =
      h
  Outcome-Answered f now id body user venues p o b plan (ok s, q) who much whole part stored may due
        le h =
      (
        b,
        plan,
        stored,
        may,
        due,
        le,
        (λ v. rw (← who, ← much) (h.0 v)),
        rw (← much, ← whole, ← part) h.1,
      )

  pay_group-Outcome :
      (f : PayFaults) (body : PayBody) (o : Order) (targets : List (ℕ × Booking))
      (p : Platform mongo)
      → f.refund ≡ no_faults
      → body.payment_method ≡ wallet
      → o.amount ≤ o.due
      → Outcome mongo f o targets p (pay_group mongo false f body o targets p)
  unfolding pay_group process_group_payment
  pay_group-Outcome f body o [] p works method le = ((λ v. refl), inl refl, refl)
  pay_group-Outcome f body o (e ∷ rest) p works method le =
      rw method (process_group_payment_compensating-Outcome mongo f o e.0 (e ∷ rest) p works le)

  -- A request to pay from the wallet, where the server offers no transactions, a refund does not
  -- throw and no stored booking owes more than its price: if it is answered with a status, the
  -- customer owns the booking, which is open and not fully paid, and has paid what the plan asks
  -- for, which is at most the price of the group, and every stored booking of the group is
  -- confirmed, with amounts that make up its price and its part of the payment among what is paid:
  -- the share of its price in a deposit, to within half a hundredth, and otherwise the amount on top
  -- of what was paid before, up to the price; if it throws, every balance and all coupons are as they
  -- were, and so are the payments, unless the use of a coupon threw: then the payment may stay
  -- recorded as paid.
  pub pay_booking_from_wallet :
      (f : PayFaults) (now : ℕ) (ids : ℕ × ℕ) (id : ℕ) (body : PayBody) (user : ℕ)
      (venues : ℕ → Option Venue) (p : Platform mongo)
      → f.refund ≡ no_faults
      → body.payment_method ≡ wallet
      → AreWithinPrice p.bookings
      → Answered f ids.0 now id body user venues p
          (pay_booking mongo false f now ids id body user venues p)
  unfolding pay_booking order_of
  pay_booking_from_wallet f now ids id body user venues p works method all =
      elim (Option-cases (find_by_id p.bookings id)) [
        | inl missing ↦ rw (pay_booking, missing) ((λ v. refl), inl refl, refl)
        | inr (b, stored) ↦ elim (Result-cases (check_pay user b)) [
          | inl (e, refused) ↦ rw (pay_booking, stored, refused) ((λ v. refl), inl refl, refl)
          | inr (u, fine) ↦ elim (Bool-cases (has_run_out now b)) [
            | inl over ↦ rw (pay_booking, stored, fine, over) ((λ v. refl), inl refl, refl)
            | inr live ↦
                let targets = group_of mongo id b p.bookings in
                let plans = amount_due (venues b.venue_id) body.custom_amount b targets in
                elim (Result-cases plans) [
                  | inl (e, refused) ↦
                      rw (pay_booking, stored, fine, live, refused) ((λ v. refl), inl refl, refl)
                  | inr (plan, due) ↦
                      let o = order_of now ids id body user b plan (group_final targets) in
                      let settled = group_of-IsWithinPrice id b p.bookings all stored in
                      let le =
                        amount_due-le (venues b.venue_id) body.custom_amount b targets plan settled
                          due in
                      rw (pay_booking, stored, fine, live, due)
                        (Outcome-Answered f now id body user venues p o b plan
                          (pay_group mongo false f body o targets p) refl refl refl refl stored
                          (check_pay-MayPay now user b u fine live) due le
                          (pay_group-Outcome f body o targets p works method le))
                ]
          ]
        ]
      ]
