-- ===== src/Booking/Order.antt =====
-- What the branches of `processGroupPayment` share: their arguments, what throws, the record of the
-- payment, the update of every booking of the group and the use of a coupon.
use sports_venue_management.Common.{ℕ, ◌+◌, suc, Bool, Option, none, some, List, [], ◌∷◌, first}
use sports_venue_management.Common.Text.{text_eq}
use sports_venue_management.Common.Outcome.{Error, Result, ok, err}
use sports_venue_management.Entities.{Booking, Payment, PaymentMethod, PaymentStatus, Coupon}
use sports_venue_management.Mongo.{Mongo}
use sports_venue_management.Wallet.{Faults}
use sports_venue_management.Booking.Settle.{settle}

-- The arguments of `processGroupPayment`, with the bookings as they were read, the identifiers of
-- the payment and the clock.
pub record Order : Type 0 where
  pub user : ℕ
  pub group_id : ℕ
  pub amount : ℕ
  pub due : ℕ
  pub is_deposit_only : Bool
  pub code : Option (List ℕ)
  pub payment_id : ℕ
  pub transaction_id : ℕ
  pub now : ℕ

-- What throws: the debit, the refund, the update of the k-th booking, the creation of the payment,
-- the lookup or the `save` of a coupon, the end of the transaction, the call of the gateway. What is
-- written again after a transaction that the server does not offer may throw otherwise: `retry_*`.
pub record PayFaults : Type 0 where
  pub debit : Faults
  pub refund : Faults
  pub settle : ℕ → Option Error
  pub create : Option Error
  pub coupon : Option Error
  pub commit : Option Error
  pub gateway : Option Error
  pub retry_debit : Faults
  pub retry_settle : ℕ → Option Error
  pub retry_create : Option Error
  pub retry_coupon : Option Error

-- Without a code no coupon is looked for.
unfoldable pub coupon_fault : PayFaults → Option (List ℕ) → Option Error
coupon_fault f none = none
coupon_fault f (some code) = f.coupon

-- the faults of the second attempt
abbrev pub retried : PayFaults → PayFaults
retried f = record f {
  debit = f.retry_debit;
  settle = f.retry_settle;
  create = f.retry_create;
  coupon = f.retry_coupon;
}

-- `paymentRepo.create`
abbrev pub new_payment : Order → ℕ → PaymentMethod → PaymentStatus → ℕ → Option ℕ → Payment
new_payment o booking method status deduction paid_at = record {
  booking_id = some booking;
  group_id = some o.group_id;
  user_id = o.user;
  amount = o.amount;
  payment_method = method;
  transaction_id = o.transaction_id;
  paymob_transaction_id = none;
  status = status;
  paid_at = paid_at;
  refunded_amount = 0;
  wallet_deduction = deduction;
  collected_by = none;
}

abbrev pub use_once : Coupon → Coupon
use_once c = record c { uses_count = c.uses_count + 1 }

abbrev pub settled : Order → Booking → Booking
settled o = settle o.is_deposit_only o.due o.amount

module _ (mongo : Mongo) where
  open mongo use {Docs, find_by_id, find, update, insert}

  -- the update of every booking of the group, up to the first that throws
  unfoldable pub settle_each :
      (ℕ → Option Error)
      → (Booking → Booking)
      → ℕ
      → List (ℕ × Booking)
      → Docs Booking
      → Result (Unit {0}) × Docs Booking
  settle_each faults change k [] d = (ok tt, d)
  settle_each faults change k (e ∷ rest) d =
      let next = settle_each faults change (suc k) rest (update e.0 change d) in
      elim (faults k) [ some thrown ↦ (err thrown, d) | none ↦ next ]

  -- the coupon with the code is used once more
  unfoldable pub use_code : Option (List ℕ) → Docs Coupon → Docs Coupon
  use_code none d = d
  use_code (some code) d = elim (first (find (λ c. text_eq c.code code) d)) [
    | none ↦ d
    | some e ↦ update e.0 use_once d
  ]
