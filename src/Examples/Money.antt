-- ===== src/Examples/Money.antt =====
-- The theorems on wallets and payments, applied.
use sports_venue_management.Common.{
  ℕ, ◌+◌, ◌≤◌, ◌<◌, ◌≡◌, ◌⊎◌, refl, true, false, none, some, [], ◌∷◌, List, map, arith, ◌==◌,
  if◌then◌else◌,
}
use sports_venue_management.Common.Outcome.{ok, store_failure}
use sports_venue_management.Entities.{Payment, PaymentStatus, Wallet, Transaction, TransactionType}
use sports_venue_management.Mongo.{list_mongo}
use sports_venue_management.Mongo.ListStore.{get, modify}
use sports_venue_management.Wallet.{
  Accounts, Faults, no_faults, balance_of, IsBalanced, is_credit, get_or_create_wallet, deposit,
  process_deduction, pay_for_booking, refund_booking,
}
use sports_venue_management.Wallet.Conservation.{accounts-IsBalanced}
use sports_venue_management.Wallet.Payments.{
  process_deduction-never_overdraws, refund_booking-pay_for_booking,
}
use sports_venue_management.Wallet.Refinement.{
  Call, adding, paying, refunding, Steps, balances, perform_all, perform_all-Steps,
}
use sports_venue_management.Platform.{refund}
use sports_venue_management.Payment.Service.{refund_payment}
use sports_venue_management.Payment.Refunds.{refund_payment_totals}
use sports_venue_management.Examples.Data.{accounts, platform, payment, paid_booking}

-- the ledger cannot be written
abbrev ledger_fails : Faults
ledger_fails = record { upsert = none; ledger = some store_failure }

abbrev no_accounts : Accounts list_mongo
no_accounts = record { wallets = []; ledger = [] }

accounts-IsBalanced_example :
    (is_credit TransactionType.booking_refund ≡ true
      → IsBalanced list_mongo
          (deposit list_mongo ledger_fails
            (λ a. a)
            false
            (some 7)
            500
            TransactionType.booking_refund
            none
            no_accounts).1)
    × (is_credit TransactionType.booking_refund ≡ false
        → IsBalanced list_mongo
            (process_deduction list_mongo ledger_fails
              (λ a. a)
              false
              7
              500
              TransactionType.booking_refund
              none
              no_accounts).1)
unfolding balance_of get
accounts-IsBalanced_example =
    accounts-IsBalanced list_mongo ledger_fails (λ a. a) 7 500 TransactionType.booking_refund none
      no_accounts (λ b h. h) (λ u. refl)

-- another request takes 400 pounds first
abbrev meanwhile : Accounts list_mongo → Accounts list_mongo
meanwhile a = record a { wallets = (7, record { balance = 10000 }) ∷ [] }

process_deduction-never_overdraws_example :
    5000
    ≤ balance_of list_mongo 7
        (meanwhile (get_or_create_wallet list_mongo none 7 accounts).1).wallets
unfolding process_deduction get modify
process_deduction-never_overdraws_example =
    process_deduction-never_overdraws list_mongo no_faults meanwhile false 7 5000
      TransactionType.booking_payment (some 100) accounts _ refl

refund_booking-pay_for_booking_example :
    let paid = (pay_for_booking list_mongo no_faults (λ b. b) false 7 30000 100 accounts).1 in
    let back = refund_booking list_mongo no_faults (λ b. b) false 7 30000 100 paid in
    ((t : Wallet × Transaction) × (back.0 ≡ ok t))
    × ((v : ℕ) → balance_of list_mongo v back.1.wallets ≡ balance_of list_mongo v accounts.wallets)
unfolding pay_for_booking get modify
refund_booking-pay_for_booking_example =
    refund_booking-pay_for_booking list_mongo 7 30000 100 accounts _ (omega arith) refl

-- the rest of a payment of which 100 pounds have come back
abbrev refunded_payment : Payment
refunded_payment = record payment { refunded_amount = 30000; status = PaymentStatus.refunded }

refund_payment_totals_example :
    let q = (refund_payment list_mongo no_faults 200 none (platform paid_booking)).1 in
    (get q.payments 200 ≡ some refunded_payment)
    × ((payment.status ≡ PaymentStatus.paid) ⊎ (payment.status ≡ PaymentStatus.partially_paid))
    × (10000 < 30000)
    × (30000 ≤ 30000)
    × (refunded_payment.amount ≡ payment.amount)
    × (refunded_payment.status
        ≡ (if 30000 == 30000 then PaymentStatus.refunded else payment.status))
    × ((v : ℕ)
        → balance_of list_mongo v q.accounts.wallets + (if 7 == v then 10000 else 0)
          ≡ balance_of list_mongo v accounts.wallets + (if 7 == v then 30000 else 0))
unfolding refund_payment refund get modify
refund_payment_totals_example =
    refund_payment_totals list_mongo no_faults 200 none (platform paid_booking) payment
      refunded_payment refl refl

-- a deposit, a payment that the wallet does not hold, and a refund that the ledger refuses
abbrev calls : List (Faults × Call)
calls =
    (no_faults, adding 7 500 none)
    ∷ (no_faults, paying 7 90000 100)
    ∷ (ledger_fails, refunding 7 300 100)
    ∷ []

perform_all-Steps_example :
    (map (λ e. e.0) (perform_all list_mongo calls accounts).0 ≡ map (λ e. e.1) calls)
    × Steps
        (balances list_mongo accounts)
        (perform_all list_mongo calls accounts).0
        (balances list_mongo (perform_all list_mongo calls accounts).1)
perform_all-Steps_example = perform_all-Steps list_mongo calls accounts
