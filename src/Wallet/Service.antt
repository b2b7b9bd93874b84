-- ===== src/Wallet/Service.antt =====
-- src/modules/wallet/wallet.service.ts. Every call of the store that the code guards may throw, as
-- `Faults` says. Between a read and the update that follows it other requests run: `meanwhile` is
-- what they do to the accounts. `in_session` tells whether the caller opened a transaction.
use sports_venue_management.Common.{
  ℕ, ◌+◌, ◌-◌, Bool, true, false, Option, none, some, List, ◌∷◌, ltb, leb, ◌==◌, if◌then◌else◌,
}
use sports_venue_management.Common.Outcome.{
  Error, Result, ok, err, bad_user, bad_amount, insufficient, wallet_exists, wallet_lost,
  duplicate_key,
}
use sports_venue_management.Entities.{
  Wallet, Transaction, TransactionType, booking_payment, booking_refund,
}
use sports_venue_management.Mongo.{Mongo}

-- What `findOneAndUpdate` with upsert and `walletTransactionRepo.create` throw, if they do. The
-- update of a balance, and the one that takes it back when its entry cannot be written, are taken
-- not to throw.
pub record Faults : Type 0 where
  pub upsert : Option Error
  pub ledger : Option Error

abbrev pub no_faults : Faults
no_faults = record { upsert = none; ledger = none }

abbrev pub empty_wallet : Wallet
empty_wallet = record { balance = 0 }

-- `$inc: { balance: amount }` and `$inc: { balance: -amount }`
abbrev pub add_balance : ℕ → Wallet → Wallet
add_balance amount w = record { balance = w.balance + amount }

abbrev pub take_balance : ℕ → Wallet → Wallet
take_balance amount w = record { balance = w.balance - amount }

abbrev pub entry : ℕ → TransactionType → ℕ → Wallet → Wallet → Option ℕ → Transaction
entry u type amount before after reference = record {
  wallet_user = u;
  type = type;
  amount = amount;
  balance_before = before.balance;
  balance_after = after.balance;
  reference_id = reference;
}

module _ (mongo : Mongo) where
  open mongo use {Docs, find_by_id, update, insert}

  pub record Accounts : Type 0 where
    pub wallets : Docs Wallet
    pub ledger : List Transaction

  -- the upsert: a wallet that is there stays, a missing one is made with balance 0
  unfoldable pub upsert_wallet : ℕ → Docs Wallet → Wallet × Docs Wallet
  upsert_wallet u d = elim (find_by_id d u) [
    | some w ↦ (w, d)
    | none ↦ (empty_wallet, insert u empty_wallet d)
  ]

  -- another request may have made the wallet first
  unfoldable pub existing_wallet : Error → ℕ → Docs Wallet → Result Wallet
  existing_wallet duplicate_key u d = elim (find_by_id d u) [
    | some w ↦ ok w
    | none ↦ err duplicate_key
  ]
  existing_wallet e u d = err e

  unfoldable pub get_or_create_wallet : Option Error → ℕ → Accounts → Result Wallet × Accounts
  unfolding upsert_wallet existing_wallet
  get_or_create_wallet none u a =
      let (w, d) = upsert_wallet u a.wallets in (ok w, record a { wallets = d })
  get_or_create_wallet (some e) u a = (existing_wallet e u a.wallets, a)

  unfoldable pub create_wallet : Option ℕ → Option Error → Accounts → Result Wallet × Accounts
  create_wallet none fault a = (err bad_user, a)
  create_wallet (some u) fault a = elim (find_by_id a.wallets u) [
    | some w ↦ (err wallet_exists, a)
    | none ↦ elim fault [
      | some duplicate_key ↦ (err wallet_exists, a)
      | some e ↦ (err e, a)
      | none ↦ (ok empty_wallet, record a { wallets = insert u empty_wallet a.wallets })
    ]
  ]

  -- The entry of the ledger. Where it cannot be written outside a transaction, the balance is put
  -- back by `undo`.
  unfoldable pub write_entry :
      Option Error
      → Bool
      → (Wallet → Wallet)
      → Transaction
      → Wallet
      → Accounts
      → Result (Wallet × Transaction) × Accounts
  write_entry none in_session undo t w a = (ok (w, t), record a { ledger = t ∷ a.ledger })
  write_entry (some e) true undo t w a = (err e, a)
  write_entry (some e) false undo t w a =
      (err e, record a { wallets = update t.wallet_user undo a.wallets })

  -- the rest of `deposit`, once the wallet has been read
  unfoldable pub credit :
      Faults
      → Bool
      → ℕ
      → ℕ
      → TransactionType
      → Option ℕ
      → Wallet
      → Accounts
      → Result (Wallet × Transaction) × Accounts
  unfolding write_entry
  credit f in_session u amount type reference before a =
      let b = record a { wallets = update u (add_balance amount) a.wallets } in
      elim (find_by_id b.wallets u) [
        | none ↦ (err wallet_lost, b)
        | some after ↦
            write_entry f.ledger in_session (take_balance amount)
              (entry u type amount before after reference) after b
      ]

  unfoldable pub deposit :
      Faults
      → (Accounts → Accounts)
      → Bool
      → Option ℕ
      → ℕ
      → TransactionType
      → Option ℕ
      → Accounts
      → Result (Wallet × Transaction) × Accounts
  unfolding get_or_create_wallet credit
  deposit f meanwhile in_session none amount type reference a = (err bad_user, a)
  deposit f meanwhile in_session (some u) amount type reference a =
      if amount == 0
      then (err bad_amount, a)
      else let (r, b) = get_or_create_wallet f.upsert u a in
        elim r [
          | err e ↦ (err e, b)
          | ok w ↦ credit f in_session u amount type reference w (meanwhile b)
        ]

  -- the guarded update and the rest of `processDeduction`
  unfoldable pub debit :
      Faults
      → Bool
      → ℕ
      → ℕ
      → TransactionType
      → Option ℕ
      → Wallet
      → Accounts
      → Result (Wallet × Transaction) × Accounts
  unfolding write_entry
  debit f in_session u amount type reference before a = elim (find_by_id a.wallets u) [
    | none ↦ (err insufficient, a)
    | some now ↦
        if leb amount now.balance
        then write_entry f.ledger in_session (add_balance amount)
            (entry u type amount before (take_balance amount now) reference)
            (take_balance amount now)
            (record a { wallets = update u (take_balance amount) a.wallets })
        else (err insufficient, a)
  ]

  unfoldable pub process_deduction :
      Faults
      → (Accounts → Accounts)
      → Bool
      → ℕ
      → ℕ
      → TransactionType
      → Option ℕ
      → Accounts
      → Result (Wallet × Transaction) × Accounts
  unfolding get_or_create_wallet debit
  process_deduction f meanwhile in_session u amount type reference a =
      let (r, b) = get_or_create_wallet f.upsert u a in
      elim r [
        | err e ↦ (err e, b)
        | ok w ↦
            if ltb w.balance amount
            then (err insufficient, b)
            else debit f in_session u amount type reference w (meanwhile b)
      ]

  unfoldable pub pay_for_booking :
      Faults
      → (Accounts → Accounts)
      → Bool
      → ℕ
      → ℕ
      → ℕ
      → Accounts
      → Result (Wallet × Transaction) × Accounts
  unfolding process_deduction
  pay_for_booking f meanwhile in_session u amount booking =
      process_deduction f meanwhile in_session u amount booking_payment (some booking)

  unfoldable pub refund_booking :
      Faults
      → (Accounts → Accounts)
      → Bool
      → ℕ
      → ℕ
      → ℕ
      → Accounts
      → Result (Wallet × Transaction) × Accounts
  unfolding deposit
  refund_booking f meanwhile in_session u amount booking =
      deposit f meanwhile in_session (some u) amount booking_refund (some booking)
