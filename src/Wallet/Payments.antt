-- ===== src/Wallet/Payments.antt =====
-- Paying a booking from the wallet, and refunding it.
use sports_venue_management.Common.{
  ℕ, ◌+◌, ◌≤◌, ◌<◌, ◌≡◌, ◌≢◌, ◌⊎◌, Bool, false, Option, some, arith, ◌==◌, if◌then◌else◌,
  Option-cases, inl, inr,
}
use sports_venue_management.Common.Outcome.{Error, Result, ok, err, Result-cases, insufficient}
use sports_venue_management.Entities.{
  Wallet, Transaction, TransactionType, booking_payment, booking_refund,
}
use sports_venue_management.Mongo.{Mongo}
use sports_venue_management.Wallet.Service.{
  Accounts, Faults, no_faults, empty_wallet, add_balance, get_or_create_wallet, debit,
  process_deduction, pay_for_booking, refund_booking,
}
use sports_venue_management.Wallet.Moves.{
  Credited, Debited, deposit-Credited, process_deduction-Debited,
}
use sports_venue_management.Wallet.Balances.{balance_of}

module _ (mongo : Mongo) where
  open mongo use {Docs, find_by_id, update, insert, find_by_id-update, find_by_id-insert}

  -- No deduction overdraws a wallet: whatever other requests do between its read and its update,
  -- and whatever the store throws, it succeeds only if the wallet holds the amount at the update.
  pub process_deduction-never_overdraws :
      (f : Faults) (meanwhile : Accounts mongo → Accounts mongo) (in_session : Bool) (u amount : ℕ)
      (type : TransactionType) (reference : Option ℕ) (a : Accounts mongo)
      (r : Wallet × Transaction)
      → (process_deduction mongo f meanwhile in_session u amount type reference a).0 ≡ ok r
      → amount ≤ balance_of mongo u (meanwhile (get_or_create_wallet mongo f.upsert u a).1).wallets
  unfolding process_deduction debit balance_of
  process_deduction-never_overdraws f meanwhile in_session u amount type reference a r h =
      ground arith

  pay_for_booking_tells :
      (u amount booking : ℕ) (a : Accounts mongo)
      → let r = (pay_for_booking mongo no_faults (λ b. b) false u amount booking a).0 in
        (amount ≤ balance_of mongo u a.wallets → (e : Error) → r ≢ err e)
        × (balance_of mongo u a.wallets < amount → r ≡ err insufficient)
  unfolding pay_for_booking balance_of
  pay_for_booking_tells u amount booking a = elim (Option-cases (find_by_id a.wallets u)) [
    | inl missing ↦
        let made = find_by_id-insert u u empty_wallet a.wallets missing in
        ((λ enough e. ground (arith, made)), λ short. ground (arith, made))
    | inr (w, stored) ↦ ((λ enough e. ground arith), λ short. ground arith)
  ]

  -- While the store works and no other request interferes, a booking is paid from the wallet exactly
  -- if the wallet holds the amount; otherwise the payment is refused as insufficient.
  pub pay_for_booking-exact :
      (u amount booking : ℕ) (a : Accounts mongo)
      → (amount ≤ balance_of mongo u a.wallets
          → (r : Wallet × Transaction) × ((pay_for_booking mongo no_faults
                (λ b. b)
                false
                u
                amount
                booking
                a).0
              ≡ ok r))
        × (balance_of mongo u a.wallets < amount
            → (pay_for_booking mongo no_faults (λ b. b) false u amount booking a).0
              ≡ err insufficient)
  pay_for_booking-exact u amount booking a =
      let tells = pay_for_booking_tells u amount booking a in
      (
        (λ enough.
            elim (Result-cases
              (pay_for_booking mongo no_faults (λ b. b) false u amount booking a).0) [
                | inl (e, failed) ↦ absurd (tells.0 enough e failed)
                | inr (r, paid) ↦ (r, paid)
              ]),
        tells.1,
      )

  refund_booking_error :
      (u amount booking : ℕ) (a : Accounts mongo) (e : Error)
      → 0 < amount
      → (refund_booking mongo no_faults (λ b. b) false u amount booking a).0 ≢ err e
  unfolding refund_booking
  refund_booking_error u amount booking a e positive =
      elim (Option-cases (find_by_id a.wallets u)) [
        | inl missing ↦ ground (
          arith,
          find_by_id-insert u u empty_wallet a.wallets missing,
          find_by_id-update u u (add_balance amount) (insert u empty_wallet a.wallets),
        )
        | inr (w, stored) ↦ ground (arith, find_by_id-update u u (add_balance amount) a.wallets)
      ]

  -- While the store works, a refund of a positive amount cannot fail.
  pub refund_booking-succeeds :
      (u amount booking : ℕ) (a : Accounts mongo)
      → 0 < amount
      → (t : Wallet × Transaction) × ((refund_booking mongo no_faults
            (λ b. b)
            false
            u
            amount
            booking
            a).0
          ≡ ok t)
  refund_booking-succeeds u amount booking a positive =
      elim (Result-cases (refund_booking mongo no_faults (λ b. b) false u amount booking a).0) [
        | inl (e, failed) ↦ absurd (refund_booking_error u amount booking a e positive failed)
        | inr (t, done) ↦ (t, done)
      ]

  -- A payment and a refund, as deductions and deposits.
  pub pay_for_booking-Debited :
      (f : Faults) (u amount booking : ℕ) (a : Accounts mongo)
      → Debited mongo u amount booking_payment a
          (pay_for_booking mongo f (λ b. b) false u amount booking a)
  unfolding pay_for_booking
  pay_for_booking-Debited f u amount booking a =
      process_deduction-Debited mongo f u amount booking_payment (some booking) a

  pub refund_booking-Credited :
      (f : Faults) (u amount booking : ℕ) (a : Accounts mongo)
      → Credited mongo u amount booking_refund a
          (refund_booking mongo f (λ b. b) false u amount booking a)
  unfolding refund_booking
  refund_booking-Credited f u amount booking a =
      deposit-Credited mongo f u amount booking_refund (some booking) a

  Debited-either :
      (u amount : ℕ) (type : TransactionType) (a : Accounts mongo)
      (x : Result (Wallet × Transaction) × Accounts mongo)
      → Debited mongo u amount type a x
      → ((v : ℕ) → balance_of mongo v x.1.wallets ≡ balance_of mongo v a.wallets)
        ⊎ ((v : ℕ)
            → balance_of mongo v x.1.wallets + (if u == v then amount else 0)
              ≡ balance_of mongo v a.wallets)
  Debited-either u amount type a (ok _, b) h = inr h.0
  Debited-either u amount type a (err _, b) h = inl h.0

  pub Debited-amounts :
      (u amount : ℕ) (type : TransactionType) (a : Accounts mongo)
      (x : Result (Wallet × Transaction) × Accounts mongo) (r : Wallet × Transaction) (v : ℕ)
      → Debited mongo u amount type a x
      → x.0 ≡ ok r
      → balance_of mongo v x.1.wallets + (if u == v then amount else 0)
        ≡ balance_of mongo v a.wallets
  Debited-amounts u amount type a (ok _, b) r v h e = h.0 v
  Debited-amounts u amount type a (err _, b) r v h e = cc

  -- a payment from the wallet that may have failed
  pub pay_for_booking_either :
      (f : Faults) (u amount booking : ℕ) (a : Accounts mongo)
      → let b = (pay_for_booking mongo f (λ b. b) false u amount booking a).1 in
        ((v : ℕ) → balance_of mongo v b.wallets ≡ balance_of mongo v a.wallets)
        ⊎ ((v : ℕ)
            → balance_of mongo v b.wallets + (if u == v then amount else 0)
              ≡ balance_of mongo v a.wallets)
  pay_for_booking_either f u amount booking a =
      let x = pay_for_booking mongo f (λ b. b) false u amount booking a in
      Debited-either u amount booking_payment a x (pay_for_booking-Debited f u amount booking a)

  pub Credited-amounts :
      (u amount : ℕ) (type : TransactionType) (a : Accounts mongo)
      (x : Result (Wallet × Transaction) × Accounts mongo) (r : Wallet × Transaction) (v : ℕ)
      → Credited mongo u amount type a x
      → x.0 ≡ ok r
      → balance_of mongo v x.1.wallets
        ≡ balance_of mongo v a.wallets + (if u == v then amount else 0)
  Credited-amounts u amount type a (ok _, b) r v h e = h.0 v
  Credited-amounts u amount type a (err _, b) r v h e = cc

  -- A positive payment that has gone through and is then refunded, while the store works and no
  -- other request interferes, is refunded without an error and leaves every balance as it was.
  pub refund_booking-pay_for_booking :
      (u amount booking : ℕ) (a : Accounts mongo) (r : Wallet × Transaction)
      → 0 < amount
      → (pay_for_booking mongo no_faults (λ b. b) false u amount booking a).0 ≡ ok r
      → let paid = (pay_for_booking mongo no_faults (λ b. b) false u amount booking a).1 in
        let back = refund_booking mongo no_faults (λ b. b) false u amount booking paid in
        ((t : Wallet × Transaction) × (back.0 ≡ ok t))
        × ((v : ℕ) → balance_of mongo v back.1.wallets ≡ balance_of mongo v a.wallets)
  refund_booking-pay_for_booking u amount booking a r positive h =
      let payment = pay_for_booking mongo no_faults (λ b. b) false u amount booking a in
      let (t, done) = refund_booking-succeeds u amount booking payment.1 positive in
      let went = pay_for_booking-Debited no_faults u amount booking a in
      let came = refund_booking-Credited no_faults u amount booking payment.1 in
      (
        (t, done),
        λ v. omega (
          arith,
          Debited-amounts u amount booking_payment a payment r v went h,
          Credited-amounts u amount booking_refund payment.1 _ t v came done,
        ),
      )

  -- a refund of a positive amount while the store works
  pub refund_booking_whole :
      (u amount booking v : ℕ) (a : Accounts mongo)
      → 0 < amount
      → balance_of mongo v
          (refund_booking mongo no_faults (λ b. b) false u amount booking a).1.wallets
        ≡ balance_of mongo v a.wallets + (if u == v then amount else 0)
  refund_booking_whole u amount booking v a positive =
      let (t, done) = refund_booking-succeeds u amount booking a positive in
      Credited-amounts u amount booking_refund a _ t v
        (refund_booking-Credited no_faults u amount booking a) done
