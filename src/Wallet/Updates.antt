-- ===== src/Wallet/Updates.antt =====
-- What a single update of a wallet does to the balances.
use sports_venue_management.Common.{ℕ, ◌+◌, ◌≤◌, ◌≡◌, none, some, arith, ◌==◌, if◌then◌else◌}
use sports_venue_management.Entities.{Wallet}
use sports_venue_management.Mongo.{Mongo}
use sports_venue_management.Wallet.Service.{add_balance, take_balance}
use sports_venue_management.Wallet.Balances.{balance_of}

module _ (mongo : Mongo) where
  open mongo use {Docs, find_by_id, update, find_by_id-update}

  -- An addition that is taken back at once leaves every balance as it was.
  pub add-take :
      (u v amount : ℕ) (w : Wallet) (d : Docs Wallet)
      → find_by_id d u ≡ some w
      → balance_of mongo v (update u (take_balance amount) (update u (add_balance amount) d))
        ≡ balance_of mongo v d
  unfolding balance_of
  add-take u v amount w d h = ground (
    arith,
    find_by_id-update u v (add_balance amount) d,
    find_by_id-update u v (take_balance amount) (update u (add_balance amount) d),
  )

  pub take-add :
      (u v amount : ℕ) (w : Wallet) (d : Docs Wallet)
      → find_by_id d u ≡ some w
      → amount ≤ w.balance
      → balance_of mongo v (update u (add_balance amount) (update u (take_balance amount) d))
        ≡ balance_of mongo v d
  unfolding balance_of
  take-add u v amount w d h enough = ground (
    arith,
    find_by_id-update u v (take_balance amount) d,
    find_by_id-update u v (add_balance amount) (update u (take_balance amount) d),
  )

  pub balance_of-add :
      (u v amount : ℕ) (w : Wallet) (d : Docs Wallet)
      → find_by_id d u ≡ some w
      → balance_of mongo v (update u (add_balance amount) d)
        ≡ balance_of mongo v d + (if u == v then amount else 0)
  unfolding balance_of
  balance_of-add u v amount w d h = ground (arith, find_by_id-update u v (add_balance amount) d)

  pub balance_of-take :
      (u v amount : ℕ) (w : Wallet) (d : Docs Wallet)
      → find_by_id d u ≡ some w
      → amount ≤ w.balance
      → balance_of mongo v (update u (take_balance amount) d) + (if u == v then amount else 0)
        ≡ balance_of mongo v d
  unfolding balance_of
  balance_of-take u v amount w d h enough =
      ground (arith, find_by_id-update u v (take_balance amount) d)

  -- An update of a wallet that is missing changes no balance.
  pub balance_of-missing :
      (u v : ℕ) (f : Wallet → Wallet) (d : Docs Wallet)
      → find_by_id d u ≡ none
      → balance_of mongo v (update u f d) ≡ balance_of mongo v d
  unfolding balance_of
  balance_of-missing u v f d h = ground (arith, find_by_id-update u v f d)
