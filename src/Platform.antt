-- ===== src/Platform.antt =====
-- The collections that the services of src/modules/booking and src/modules/payment change together.
use sports_venue_management.Entities.{Booking, Payment, Coupon, Wallet, Transaction}
use sports_venue_management.Common.{ℕ, false}
use sports_venue_management.Common.Outcome.{Result}
use sports_venue_management.Mongo.{Mongo}
use sports_venue_management.Wallet.{Accounts, Faults, refund_booking}

module _ (mongo : Mongo) where
  open mongo use {Docs}

  pub record Platform : Type 0 where
    pub bookings : Docs Booking
    pub payments : Docs Payment
    pub coupons : Docs Coupon
    pub accounts : Accounts mongo

  -- `refundBooking` outside a transaction, while no other request changes the wallets
  unfoldable pub refund :
      Faults → ℕ → ℕ → ℕ → Accounts mongo → Result (Wallet × Transaction) × Accounts mongo
  unfolding refund_booking
  refund f u amount reference a = refund_booking mongo f (λ b. b) false u amount reference a
