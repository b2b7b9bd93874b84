-- ===== src/Wallet/Moves.antt =====
-- A deposit and a deduction move exactly their amount, or nothing, also where the reading
-- of the wallet or the writing of the entry throws.
use sports_venue_management.Common.{
  ℕ, ◌+◌, ◌≤◌, ◌≡◌, refl, false, Option, none, some, ◌∷◌, ltb, leb, ◌==◌, ==_refl, leb→le,
  if◌then◌else◌, Bool-cases, Option-cases, inl, inr,
}
use sports_venue_management.Common.Outcome.{Error, Result, ok, err, Result-cases}
use sports_venue_management.Entities.{Wallet, Transaction, TransactionType}
use sports_venue_management.Mongo.{Mongo}
use sports_venue_management.Wallet.Service.{
  Accounts, Faults, entry, add_balance, take_balance, get_or_create_wallet, write_entry, credit,
  deposit, debit, process_deduction,
}
use sports_venue_management.Wallet.Balances.{balance_of, get_or_create_wallet_keeps}
use sports_venue_management.Wallet.Updates.{
  add-take, take-add, balance_of-add, balance_of-take, balance_of-missing,
}

module _ (mongo : Mongo) where
  open mongo use {Docs, find_by_id, update, find_by_id-update}

  -- `amount` went into the wallet of `u` and an entry says so, or nothing happened.
  abbrev pub Credited :
      ℕ
      → ℕ
      → TransactionType
      → Accounts mongo
      → Result (Wallet × Transaction) × Accounts mongo
      → Type 0
  Credited u amount type a (ok (w, t), b) =
      ((v : ℕ)
        → balance_of mongo v b.wallets
          ≡ balance_of mongo v a.wallets + (if u == v then amount else 0))
      × (b.ledger ≡ t ∷ a.ledger)
      × (t.wallet_user ≡ u)
      × (t.type ≡ type)
      × (t.amount ≡ amount)
  Credited u amount type a (err e, b) =
      ((v : ℕ) → balance_of mongo v b.wallets ≡ balance_of mongo v a.wallets)
      × (b.ledger ≡ a.ledger)

  -- `amount`, which was there, went out of the wallet of `u` and an entry says so, or nothing
  -- happened.
  abbrev pub Debited :
      ℕ
      → ℕ
      → TransactionType
      → Accounts mongo
      → Result (Wallet × Transaction) × Accounts mongo
      → Type 0
  Debited u amount type a (ok (w, t), b) =
      ((v : ℕ)
        → balance_of mongo v b.wallets + (if u == v then amount else 0)
          ≡ balance_of mongo v a.wallets)
      × (b.ledger ≡ t ∷ a.ledger)
      × (t.wallet_user ≡ u)
      × (t.type ≡ type)
      × (t.amount ≡ amount)
  Debited u amount type a (err e, b) =
      ((v : ℕ) → balance_of mongo v b.wallets ≡ balance_of mongo v a.wallets)
      × (b.ledger ≡ a.ledger)

  -- the entry of a deposit, or its undoing
  Credited-entry :
      (fault : Option Error) (u amount : ℕ) (type : TransactionType) (reference : Option ℕ)
      (before w after : Wallet) (a : Accounts mongo)
      → find_by_id a.wallets u ≡ some w
      → Credited u amount type a (
          write_entry mongo fault false
            (take_balance amount)
            (entry u type amount before after reference)
            after
            (record a { wallets = update u (add_balance amount) a.wallets }))
  unfolding write_entry
  Credited-entry none u amount type reference before w after a h =
      ((λ v. balance_of-add mongo u v amount w a.wallets h), refl, refl, refl, refl)
  Credited-entry (some e) u amount type reference before w after a h =
      ((λ v. add-take mongo u v amount w a.wallets h), refl)

  pub credit_lem :
      (f : Faults) (u amount : ℕ) (type : TransactionType) (reference : Option ℕ) (before : Wallet)
      (a : Accounts mongo)
      → Credited u amount type a (credit mongo f false u amount type reference before a)
  unfolding credit
  credit_lem f u amount type reference before a =
      let law = find_by_id-update u u (add_balance amount) a.wallets in
      elim (Option-cases (find_by_id a.wallets u)) [
        | inl missing ↦
            rw (law, ==_refl u, missing, credit)
              ((λ v. balance_of-missing mongo u v (add_balance amount) a.wallets missing), refl)
        | inr (w, stored) ↦
            rw (law, ==_refl u, stored, credit)
              (Credited-entry f.ledger u amount type reference before w (add_balance amount w) a
                stored)
      ]

  Debited-entry :
      (fault : Option Error) (u amount : ℕ) (type : TransactionType) (reference : Option ℕ)
      (before w after : Wallet) (a : Accounts mongo)
      → find_by_id a.wallets u ≡ some w
      → amount ≤ w.balance
      → Debited u amount type a (
          write_entry mongo fault false
            (add_balance amount)
            (entry u type amount before after reference)
            after
            (record a { wallets = update u (take_balance amount) a.wallets }))
  unfolding write_entry
  Debited-entry none u amount type reference before w after a h enough =
      ((λ v. balance_of-take mongo u v amount w a.wallets h enough), refl, refl, refl, refl)
  Debited-entry (some e) u amount type reference before w after a h enough =
      ((λ v. take-add mongo u v amount w a.wallets h enough), refl)

  pub debit_lem :
      (f : Faults) (u amount : ℕ) (type : TransactionType) (reference : Option ℕ) (before : Wallet)
      (a : Accounts mongo)
      → Debited u amount type a (debit mongo f false u amount type reference before a)
  unfolding debit
  debit_lem f u amount type reference before a = elim (Option-cases (find_by_id a.wallets u)) [
    | inl missing ↦ rw (missing, debit) ((λ v. refl), refl)
    | inr (w, stored) ↦ elim (Bool-cases (leb amount w.balance)) [
      | inl enough ↦
          rw (stored, enough, debit)
            (Debited-entry f.ledger u amount type reference before w (take_balance amount w) a
              stored (leb→le amount w.balance enough))
      | inr short ↦ rw (stored, short, debit) ((λ v. refl), refl)
    ]
  ]

  -- The two notions look at balances and entries only.
  Credited-from :
      (u amount : ℕ) (type : TransactionType) (a c : Accounts mongo)
      (r : Result (Wallet × Transaction) × Accounts mongo)
      → ((v : ℕ) → balance_of mongo v c.wallets ≡ balance_of mongo v a.wallets)
      → c.ledger ≡ a.ledger
      → Credited u amount type c r
      → Credited u amount type a r
  Credited-from u amount type a c (ok (w, t), b) same entries h =
      ((λ v. rw (← same v) (h.0 v)), rw (← entries) h.1, h.2, h.3, h.4)
  Credited-from u amount type a c (err e, b) same entries h =
      ((λ v. rw (← same v) (h.0 v)), rw (← entries) h.1)

  Debited-from :
      (u amount : ℕ) (type : TransactionType) (a c : Accounts mongo)
      (r : Result (Wallet × Transaction) × Accounts mongo)
      → ((v : ℕ) → balance_of mongo v c.wallets ≡ balance_of mongo v a.wallets)
      → c.ledger ≡ a.ledger
      → Debited u amount type c r
      → Debited u amount type a r
  Debited-from u amount type a c (ok (w, t), b) same entries h =
      ((λ v. rw (← same v) (h.0 v)), rw (← entries) h.1, h.2, h.3, h.4)
  Debited-from u amount type a c (err e, b) same entries h =
      ((λ v. rw (← same v) (h.0 v)), rw (← entries) h.1)

  -- With no other request in between, a deposit credits its amount to the wallet of its user and
  -- records it, or it throws and changes no balance and no entry; so on every fault of the store.
  pub deposit-Credited :
      (f : Faults) (u amount : ℕ) (type : TransactionType) (reference : Option ℕ)
      (a : Accounts mongo)
      → Credited u amount type a (deposit mongo f (λ b. b) false (some u) amount type reference a)
  unfolding deposit
  deposit-Credited f u amount type reference a = elim (Bool-cases (amount == 0)) [
    | inl nothing ↦ rw (nothing, deposit) ((λ v. refl), refl)
    | inr some_amount ↦ elim (Result-cases (get_or_create_wallet mongo f.upsert u a).0) [
      | inl (e, failed) ↦
          rw (some_amount, failed, deposit)
            (
              (λ v. (get_or_create_wallet_keeps mongo f.upsert u v a).0),
              (get_or_create_wallet_keeps mongo f.upsert u u a).1,
            )
      | inr (w, read) ↦
          rw (some_amount, read, deposit)
            (Credited-from u amount type a (get_or_create_wallet mongo f.upsert u a).1 _
              (λ v. (get_or_create_wallet_keeps mongo f.upsert u v a).0)
              (get_or_create_wallet_keeps mongo f.upsert u u a).1
              (credit_lem f u amount type reference w (get_or_create_wallet mongo f.upsert u a).1))
    ]
  ]

  -- With no other request in between, a deduction debits its amount, which the wallet held, and
  -- records it, or it throws and changes no balance and no entry; so on every fault of the store.
  pub process_deduction-Debited :
      (f : Faults) (u amount : ℕ) (type : TransactionType) (reference : Option ℕ)
      (a : Accounts mongo)
      → Debited u amount type a (process_deduction mongo f (λ b. b) false u amount type reference a)
  unfolding process_deduction
  process_deduction-Debited f u amount type reference a =
      let b = (get_or_create_wallet mongo f.upsert u a).1 in
      let same = λ (v : ℕ). (get_or_create_wallet_keeps mongo f.upsert u v a).0 in
      let entries = (get_or_create_wallet_keeps mongo f.upsert u u a).1 in
      elim (Result-cases (get_or_create_wallet mongo f.upsert u a).0) [
        | inl (e, failed) ↦ rw (failed, process_deduction) (same, entries)
        | inr (w, read) ↦ elim (Bool-cases (ltb w.balance amount)) [
          | inl short ↦ rw (read, short, process_deduction) (same, entries)
          | inr enough ↦
              rw (read, enough, process_deduction)
                (Debited-from u amount type a b _ same entries
                  (debit_lem f u amount type reference w b))
        ]
      ]
