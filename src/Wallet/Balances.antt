-- ===== src/Wallet/Balances.antt =====
-- How the calls of the store move the balances, wallet by wallet.
use sports_venue_management.Common.{
  ℕ, ◌+◌, ◌≡◌, refl, Bool, true, false, Option, none, some, List, arith, ◌==◌, if◌then◌else◌,
  Option-cases, inl, inr, sum_by, ◌&&◌,
}
use sports_venue_management.Common.Outcome.{Error, ok, duplicate_key}
use sports_venue_management.Entities.{Wallet, Transaction, TransactionType, deposit, booking_refund}
use sports_venue_management.Mongo.{Mongo}
use sports_venue_management.Wallet.Service.{
  Accounts, empty_wallet, upsert_wallet, existing_wallet, get_or_create_wallet,
}

abbrev pub is_credit : TransactionType → Bool
is_credit deposit = true
is_credit booking_refund = true
is_credit _ = false

-- what the entries of a wallet have added and taken
abbrev pub credits : ℕ → List Transaction → ℕ
credits u = sum_by (λ t. if t.wallet_user == u && is_credit t.type then t.amount else 0)

abbrev pub debits : ℕ → List Transaction → ℕ
debits u = sum_by (λ t.
    if t.wallet_user == u && is_credit t.type
    then 0
    else if t.wallet_user == u
    then t.amount
    else 0)

module _ (mongo : Mongo) where
  open mongo use {Docs, find_by_id, update, insert, find_by_id-update, find_by_id-insert}

  -- A wallet that does not exist yet holds nothing.
  unfoldable pub balance_of : ℕ → Docs Wallet → ℕ
  balance_of u d = elim (find_by_id d u) [ none ↦ 0 | some w ↦ w.balance ]

  -- Every balance is what the ledger says: credits less debits.
  abbrev pub IsBalanced : Accounts mongo → Type 0
  IsBalanced a = (u : ℕ) → balance_of u a.wallets + debits u a.ledger ≡ credits u a.ledger

  -- `update` of a stored wallet
  pub balance_of-update :
      (u v : ℕ) (f : Wallet → Wallet) (w : Wallet) (d : Docs Wallet)
      → find_by_id d u ≡ some w
      → balance_of v (update u f d) ≡ (if u == v then (f w).balance else balance_of v d)
  unfolding balance_of
  balance_of-update u v f w d h = ground (arith, find_by_id-update u v f d)

  pub balance_of-upsert_wallet :
      (u v : ℕ) (d : Docs Wallet) → balance_of v (upsert_wallet mongo u d).1 ≡ balance_of v d
  unfolding balance_of upsert_wallet
  balance_of-upsert_wallet u v d = elim (Option-cases (find_by_id d u)) [
    | inl missing ↦ ground (arith, find_by_id-insert u v empty_wallet d missing)
    | inr (w, stored) ↦ ground arith
  ]

  pub upsert_wallet_stored :
      (u : ℕ) (d : Docs Wallet)
      → find_by_id (upsert_wallet mongo u d).1 u ≡ some (upsert_wallet mongo u d).0
  unfolding upsert_wallet
  upsert_wallet_stored u d = elim (Option-cases (find_by_id d u)) [
    | inl missing ↦ ground (arith, find_by_id-insert u u empty_wallet d missing)
    | inr (w, stored) ↦ ground arith
  ]

  -- Reading a wallet, which may create it, changes no balance and no entry.
  pub get_or_create_wallet_keeps :
      (fault : Option Error) (u v : ℕ) (a : Accounts mongo)
      → let b = (get_or_create_wallet mongo fault u a).1 in
        (balance_of v b.wallets ≡ balance_of v a.wallets) × (b.ledger ≡ a.ledger)
  unfolding get_or_create_wallet
  get_or_create_wallet_keeps none u v a = (balance_of-upsert_wallet u v a.wallets, refl)
  get_or_create_wallet_keeps (some e) u v a = (refl, refl)

  existing_wallet_stored :
      (e : Error) (u : ℕ) (d : Docs Wallet) (w : Wallet)
      → existing_wallet mongo e u d ≡ ok w
      → find_by_id d u ≡ some w
  unfolding existing_wallet
  existing_wallet_stored duplicate_key u d w h = ground arith
  existing_wallet_stored e u d w h = cc

  -- What it returns is the stored wallet.
  pub get_or_create_wallet_stored :
      (fault : Option Error) (u : ℕ) (a : Accounts mongo) (w : Wallet)
      → (get_or_create_wallet mongo fault u a).0 ≡ ok w
      → find_by_id (get_or_create_wallet mongo fault u a).1.wallets u ≡ some w
  unfolding get_or_create_wallet
  get_or_create_wallet_stored none u a w h = cc (upsert_wallet_stored u a.wallets)
  get_or_create_wallet_stored (some e) u a w h = existing_wallet_stored e u a.wallets w h
