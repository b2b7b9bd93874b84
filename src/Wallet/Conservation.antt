-- ===== src/Wallet/Conservation.antt =====
-- The ledger accounts for every balance.
use sports_venue_management.Common.{
  ℕ, ◌≡◌, true, false, Option, some, arith, ltb, ◌==◌, Bool-cases, inl, inr,
}
use sports_venue_management.Common.Outcome.{Error, Result, ok, err, Result-cases}
use sports_venue_management.Entities.{Wallet, Transaction, TransactionType}
use sports_venue_management.Mongo.{Mongo}
use sports_venue_management.Wallet.Service.{
  Accounts, Faults, get_or_create_wallet, credit, deposit, debit, process_deduction,
}
use sports_venue_management.Wallet.Moves.{Credited, Debited, credit_lem, debit_lem}
use sports_venue_management.Wallet.Balances.{is_credit, IsBalanced, get_or_create_wallet_keeps}

module _ (mongo : Mongo) where
  Credited-IsBalanced :
      (u amount : ℕ) (type : TransactionType) (a b : Accounts mongo)
      (r : Result (Wallet × Transaction))
      → is_credit type ≡ true
      → Credited mongo u amount type a (r, b)
      → IsBalanced mongo a
      → IsBalanced mongo b
  Credited-IsBalanced u amount type a b (ok (w, t)) c h balanced v =
      let amounts = h.0 v in let old = balanced v in rw (h.1, h.2, h.3, h.4, c) (ground arith)
  Credited-IsBalanced u amount type a b (err e) c h balanced v = rw (h.0 v, h.1) (balanced v)

  Debited-IsBalanced :
      (u amount : ℕ) (type : TransactionType) (a b : Accounts mongo)
      (r : Result (Wallet × Transaction))
      → is_credit type ≡ false
      → Debited mongo u amount type a (r, b)
      → IsBalanced mongo a
      → IsBalanced mongo b
  Debited-IsBalanced u amount type a b (ok (w, t)) c h balanced v =
      let amounts = h.0 v in let old = balanced v in rw (h.1, h.2, h.3, h.4, c) (ground arith)
  Debited-IsBalanced u amount type a b (err e) c h balanced v = rw (h.0 v, h.1) (balanced v)

  -- Reading or creating a wallet keeps the books balanced.
  get_or_create_wallet-IsBalanced :
      (fault : Option Error) (u : ℕ) (a : Accounts mongo)
      → IsBalanced mongo a
      → IsBalanced mongo (get_or_create_wallet mongo fault u a).1
  get_or_create_wallet-IsBalanced fault u a balanced v =
      let keeps = get_or_create_wallet_keeps mongo fault u v a in rw (keeps.0, keeps.1) (balanced v)

  deposit-IsBalanced :
      (f : Faults) (meanwhile : Accounts mongo → Accounts mongo) (u amount : ℕ)
      (type : TransactionType) (reference : Option ℕ) (a : Accounts mongo)
      → ((b : Accounts mongo) → IsBalanced mongo b → IsBalanced mongo (meanwhile b))
      → IsBalanced mongo a
      → is_credit type ≡ true
      → IsBalanced mongo (deposit mongo f meanwhile false (some u) amount type reference a).1
  unfolding deposit
  deposit-IsBalanced f meanwhile u amount type reference a others balanced c =
      let b = (get_or_create_wallet mongo f.upsert u a).1 in
      let kept = get_or_create_wallet-IsBalanced f.upsert u a balanced in
      elim (Bool-cases (amount == 0)) [
        | inl nothing ↦ rw (nothing, deposit) balanced
        | inr some_amount ↦ elim (Result-cases (get_or_create_wallet mongo f.upsert u a).0) [
          | inl (e, failed) ↦ rw (some_amount, failed, deposit) kept
          | inr (w, read) ↦
              let r = credit mongo f false u amount type reference w (meanwhile b) in
              rw (some_amount, read, deposit)
                (Credited-IsBalanced u amount type (meanwhile b) r.1 r.0 c
                  (credit_lem mongo f u amount type reference w (meanwhile b)) (others b kept))
        ]
      ]

  process_deduction-IsBalanced :
      (f : Faults) (meanwhile : Accounts mongo → Accounts mongo) (u amount : ℕ)
      (type : TransactionType) (reference : Option ℕ) (a : Accounts mongo)
      → ((b : Accounts mongo) → IsBalanced mongo b → IsBalanced mongo (meanwhile b))
      → IsBalanced mongo a
      → is_credit type ≡ false
      → IsBalanced mongo (process_deduction mongo f meanwhile false u amount type reference a).1
  unfolding process_deduction
  process_deduction-IsBalanced f meanwhile u amount type reference a others balanced c =
      let b = (get_or_create_wallet mongo f.upsert u a).1 in
      let kept = get_or_create_wallet-IsBalanced f.upsert u a balanced in
      elim (Result-cases (get_or_create_wallet mongo f.upsert u a).0) [
        | inl (e, failed) ↦ rw (failed, process_deduction) kept
        | inr (w, read) ↦ elim (Bool-cases (ltb w.balance amount)) [
          | inl short ↦ rw (read, short, process_deduction) kept
          | inr enough ↦
              let r = debit mongo f false u amount type reference w (meanwhile b) in
              rw (read, enough, process_deduction)
                (Debited-IsBalanced u amount type (meanwhile b) r.1 r.0 c
                  (debit_lem mongo f u amount type reference w (meanwhile b)) (others b kept))
        ]
      ]

  -- Every balance stays what the ledger says under a deposit, a refund or a deduction, whether the
  -- reading of the wallet or the writing of the entry throws or not, as long as the updates of the
  -- balance, the one that takes it back included, do not, and whatever other requests that keep the
  -- books balanced do between the read of the wallet and its update.
  pub accounts-IsBalanced :
      (f : Faults) (meanwhile : Accounts mongo → Accounts mongo) (u amount : ℕ)
      (type : TransactionType) (reference : Option ℕ) (a : Accounts mongo)
      → ((b : Accounts mongo) → IsBalanced mongo b → IsBalanced mongo (meanwhile b))
      → IsBalanced mongo a
      → (is_credit type ≡ true
          → IsBalanced mongo (deposit mongo f meanwhile false (some u) amount type reference a).1)
        × (is_credit type ≡ false
            → IsBalanced mongo
                (process_deduction mongo f meanwhile false u amount type reference a).1)
  accounts-IsBalanced f meanwhile u amount type reference a others balanced = (
    deposit-IsBalanced f meanwhile u amount type reference a others balanced,
    process_deduction-IsBalanced f meanwhile u amount type reference a others balanced,
  )
