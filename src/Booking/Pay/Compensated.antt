-- ===== src/Booking/Pay/Compensated.antt =====
-- Payment from the wallet without a transaction: what is undone by hand.
use sports_venue_management.Common.{
  ℕ, ◌+◌, ◌<◌, zero, suc, ◌≤◌, ◌≡◌, ◌≢◌, ◌⊎◌, refl, inl, inr, Bool, false, Option, none, some, List,
  ◌==◌, if◌then◌else◌, Option-cases, arith,
}
use sports_venue_management.Common.Outcome.{Error, Result, ok, err, Result-cases}
use sports_venue_management.Entities.{
  Booking, Payment, Wallet, Transaction, PaymentStatus, booking_payment, paid, wallet,
}
use sports_venue_management.Mongo.{Mongo, Found}
use sports_venue_management.Wallet.{Accounts, no_faults, balance_of, pay_for_booking}
use sports_venue_management.Wallet.Moves.{Debited}
use sports_venue_management.Wallet.Payments.{
  pay_for_booking-Debited, Debited-amounts, refund_booking_whole,
}
use sports_venue_management.Platform.{Platform, refund}
use sports_venue_management.Booking.Settle.{target_status}
use sports_venue_management.Booking.Reserve.{as_conflict}
use sports_venue_management.Booking.Pay.Settled.{At, IsPaidFor, settle_each-IsPaidFor}
use sports_venue_management.Booking.Order.{
  Order, PayFaults, coupon_fault, new_payment, settle_each, settled,
}
use sports_venue_management.Booking.Pay.{
  give_back, confirm_or_refund, process_group_payment_compensating,
}

coupon_fault-some :
    (f : PayFaults) (code : Option (List ℕ)) (e : Error)
    → coupon_fault f code ≡ some e
    → f.coupon ≢ none
unfolding coupon_fault
coupon_fault-some f none e h = cc
coupon_fault-some f (some code) e h = λ quiet. cc

module _ (mongo : Mongo) where
  open mongo use {Docs, find_by_id, insert}

  refund_some :
      (u amount reference v : ℕ) (a : Accounts mongo)
      → 0 < amount
      → balance_of mongo v (refund mongo no_faults u amount reference a).1.wallets
        ≡ balance_of mongo v a.wallets + (if u == v then amount else 0)
  unfolding refund
  refund_some u amount reference v a positive =
      refund_booking_whole mongo u amount reference v a positive

  refund_nothing :
      (u reference v : ℕ) (a : Accounts mongo)
      → balance_of mongo v (refund mongo no_faults u 0 reference a).1.wallets
        ≡ balance_of mongo v a.wallets + (if u == v then 0 else 0)
  unfolding refund
  refund_nothing u reference v a = ground arith

  refund_whole :
      (u amount reference v : ℕ) (a : Accounts mongo)
      → balance_of mongo v (refund mongo no_faults u amount reference a).1.wallets
        ≡ balance_of mongo v a.wallets + (if u == v then amount else 0)
  refund_whole u zero reference v a = refund_nothing u reference v a
  refund_whole u (suc n) reference v a = refund_some u (suc n) reference v a (omega arith)

  -- the refund that makes up for the debit
  pub give_back_balance :
      (f : PayFaults) (o : Order) (booking v : ℕ) (p : Platform mongo)
      → f.refund ≡ no_faults
      → balance_of mongo v (give_back mongo f o booking p).accounts.wallets
        ≡ balance_of mongo v p.accounts.wallets + (if o.user == v then o.amount else 0)
  unfolding give_back
  give_back_balance f o booking v p works =
      rw works (refund_whole o.user o.amount booking v p.accounts)

  -- the balances after `amount` has gone out of the wallet of `user`
  abbrev pub IsCharged : ℕ → ℕ → Accounts mongo → Accounts mongo → Type 0
  IsCharged user amount a b =
      (v : ℕ)
      → balance_of mongo v b.wallets + (if user == v then amount else 0)
        ≡ balance_of mongo v a.wallets

  -- every booking of the group is confirmed, its amounts make up its price, and it has got its part
  -- of the amount
  abbrev pub ArePaidFor :
      Bool → ℕ → ℕ → List (ℕ × Booking) → Platform mongo → Platform mongo → Type 0
  ArePaidFor deposit due amount targets p q =
      (i : ℕ) (b w : Booking)
      → Found i b targets
      → find_by_id p.bookings i ≡ some w
      → At mongo q.bookings i (IsPaidFor deposit due amount w)

  -- the payments are as they were, or, where the use of the coupon throws, hold a new one as paid
  abbrev pub KeepsPayments : PayFaults → ℕ → Platform mongo → Platform mongo → Type 0
  KeepsPayments f id p q =
      (q.payments ≡ p.payments)
      ⊎ ((f.coupon ≢ none)
          × ((y : Payment) × (y.status ≡ paid) × (q.payments ≡ insert id y p.payments)))

  -- what a payment leaves behind, by its answer
  abbrev pub Outcome :
      PayFaults
      → Order
      → List (ℕ × Booking)
      → Platform mongo
      → Result PaymentStatus × Platform mongo
      → Type 0
  Outcome f o targets p (ok s, q) =
      IsCharged o.user o.amount p.accounts q.accounts
      × ArePaidFor o.is_deposit_only o.due o.amount targets p q
      × (s ≡ target_status o.is_deposit_only)
  Outcome f o targets p (err e, q) =
      ((v : ℕ) → balance_of mongo v q.accounts.wallets ≡ balance_of mongo v p.accounts.wallets)
      × KeepsPayments f o.payment_id p q
      × (q.coupons ≡ p.coupons)

  charged_and_back :
      (f : PayFaults) (o : Order) (booking : ℕ) (p q : Platform mongo)
      → f.refund ≡ no_faults
      → IsCharged o.user o.amount p.accounts q.accounts
      → (v : ℕ)
      → balance_of mongo v (give_back mongo f o booking q).accounts.wallets
        ≡ balance_of mongo v p.accounts.wallets
  charged_and_back f o booking p q works charged v =
      let back = give_back_balance f o booking v q works in
      let went = charged v in omega (arith, back, went)

  pub give_back_keeps :
      (f : PayFaults) (o : Order) (booking : ℕ) (p : Platform mongo)
      → ((give_back mongo f o booking p).payments ≡ p.payments)
        × ((give_back mongo f o booking p).coupons ≡ p.coupons)
        × ((give_back mongo f o booking p).bookings ≡ p.bookings)
  unfolding give_back
  give_back_keeps f o booking p = (refl, refl, refl)

  confirm_or_refund-Outcome :
      (f : PayFaults) (o : Order) (booking : ℕ) (targets : List (ℕ × Booking)) (p : Platform mongo)
      (a : Accounts mongo)
      → f.refund ≡ no_faults
      → o.amount ≤ o.due
      → IsCharged o.user o.amount p.accounts a
      → Outcome f o targets p
          (confirm_or_refund mongo f o booking targets (record p { accounts = a }))
  unfolding confirm_or_refund
  confirm_or_refund-Outcome f o booking targets p a works bounded charged =
      let r = settle_each mongo f.settle (settled o) 0 targets p.bookings in
      let moved : Platform mongo = record p { accounts = a; bookings = r.1 } in
      let back = charged_and_back f o booking p moved works charged in
      let keeps = give_back_keeps f o booking moved in
      elim (Result-cases r.0) [
        | inl (e, failed) ↦ rw (confirm_or_refund, failed) (back, inl keeps.0, keeps.1)
        | inr (u, went) ↦ elim (Option-cases f.create) [
          | inr (e, failed) ↦ rw (confirm_or_refund, went, failed) (back, inl keeps.0, keeps.1)
          | inl created ↦ elim (Option-cases (coupon_fault f o.code)) [
            | inr (e, failed) ↦
                let y = new_payment o booking wallet paid 0 (some o.now) in
                let recorded : Platform mongo = record moved {
                  payments = insert o.payment_id y p.payments;
                } in
                let kept = give_back_keeps f o booking recorded in
                rw (confirm_or_refund, went, created, failed)
                  (
                    charged_and_back f o booking p recorded works charged,
                    inr (coupon_fault-some f o.code e failed, (y, refl, kept.0)),
                    kept.1,
                  )
            | inl used ↦
                rw (confirm_or_refund, went, created, used)
                  (
                    charged,
                    (λ i b w there stored.
                        settle_each-IsPaidFor mongo o.is_deposit_only o.due o.amount f.settle i b w
                          targets p.bookings bounded went there stored),
                    refl,
                  )
          ]
        ]
      ]

  Debited-Outcome :
      (f : PayFaults) (o : Order) (targets : List (ℕ × Booking)) (p : Platform mongo)
      (x : Result (Wallet × Transaction) × Accounts mongo) (e : Error)
      → Debited mongo o.user o.amount booking_payment p.accounts x
      → x.0 ≡ err e
      → Outcome f o targets p (err e, record p { accounts = x.1 })
  Debited-Outcome f o targets p (err _, b) e h failed = (h.0, inl refl, refl)
  Debited-Outcome f o targets p (ok _, b) e h failed = cc

  -- A payment of at most the group's price from the wallet without a transaction, if its refund does
  -- not throw: either it is answered with the status that it is meant to have, its amount has left
  -- the wallet of the customer and no other, and every stored booking of the group is confirmed, with
  -- amounts that make up its price and its part of the payment among what is paid: the share of its
  -- price in a deposit, to within half a hundredth, and otherwise the amount on top of what was paid
  -- before, up to the price; or it throws, every balance and all coupons are as they were, and so are
  -- the payments, unless the use of the coupon threw: then the payment may stay recorded as paid.
  pub process_group_payment_compensating-Outcome :
      (f : PayFaults) (o : Order) (booking : ℕ) (targets : List (ℕ × Booking)) (p : Platform mongo)
      → f.refund ≡ no_faults
      → o.amount ≤ o.due
      → Outcome f o targets p (process_group_payment_compensating mongo f o booking targets p)
  unfolding process_group_payment_compensating
  process_group_payment_compensating-Outcome f o booking targets p works bounded =
      let x = pay_for_booking mongo f.debit (λ b. b) false o.user o.amount booking p.accounts in
      let law = pay_for_booking-Debited mongo f.debit o.user o.amount booking p.accounts in
      elim (Result-cases x.0) [
        | inl (e, failed) ↦
            rw (process_group_payment_compensating, failed)
              (Debited-Outcome f o targets p x e law failed)
        | inr (t, done) ↦
            rw (process_group_payment_compensating, done)
              (confirm_or_refund-Outcome f o booking targets p x.1 works bounded (λ v.
                Debited-amounts mongo o.user o.amount booking_payment p.accounts x t v law done))
      ]

  -- A payment of at most the group's price whose debit goes through and whose record cannot
  -- be created is answered with an error and refunded in full, if the refund does not throw, and all
  -- the same every stored booking of the group stays confirmed, with amounts that make up its price
  -- and its part of the refunded payment among what is paid: the share of its price in a deposit, to
  -- within half a hundredth, and otherwise the amount on top of what was paid before, up to the price.
  pub process_group_payment_compensating_free :
      (f : PayFaults) (o : Order) (booking : ℕ) (targets : List (ℕ × Booking)) (p : Platform mongo)
      (t : Wallet × Transaction) (e : Error)
      → f.refund ≡ no_faults
      → o.amount ≤ o.due
      → (pay_for_booking mongo f.debit (λ b. b) false o.user o.amount booking p.accounts).0 ≡ ok t
      → (settle_each mongo f.settle (settled o) 0 targets p.bookings).0 ≡ ok tt
      → f.create ≡ some e
      → let r = process_group_payment_compensating mongo f o booking targets p in
        (r.0 ≡ err (as_conflict e))
        × ((v : ℕ)
            → balance_of mongo v r.1.accounts.wallets ≡ balance_of mongo v p.accounts.wallets)
        × ArePaidFor o.is_deposit_only o.due o.amount targets p r.1
  unfolding process_group_payment_compensating confirm_or_refund
  process_group_payment_compensating_free f o booking targets p t e works bounded done went failed =
      let x = pay_for_booking mongo f.debit (λ b. b) false o.user o.amount booking p.accounts in
      let law = pay_for_booking-Debited mongo f.debit o.user o.amount booking p.accounts in
      let d = (settle_each mongo f.settle (settled o) 0 targets p.bookings).1 in
      let moved : Platform mongo = record p { accounts = x.1; bookings = d } in
      let charged : IsCharged o.user o.amount p.accounts x.1 =
        λ v. Debited-amounts mongo o.user o.amount booking_payment p.accounts x t v law done in
      rw (process_group_payment_compensating, done, confirm_or_refund, went, failed)
        (
          refl,
          charged_and_back f o booking p moved works charged,
          (λ i b w there stored.
              let (c, at, good) =
                settle_each-IsPaidFor mongo o.is_deposit_only o.due o.amount f.settle i b w targets
                  p.bookings bounded went there stored in
              (c, rw (give_back_keeps f o booking moved).2 at, good)),
        )
