-- ===== src/Payment/Webhook/Overlap.antt =====
-- Two deliveries for one payment that overlap.
use sports_venue_management.Common.{ℕ, ◌≡◌, ◌≢◌, Bool, true, some, sym, ap, ◌∙◌, arith}
use mathlib.Core.Option.{some-injective}
use sports_venue_management.Common.Outcome.{ok}
use sports_venue_management.Entities.{Payment, PaymentStatus}
use sports_venue_management.Mongo.{Mongo}
use sports_venue_management.Wallet.{Faults}
use sports_venue_management.Platform.{Platform}
use sports_venue_management.Booking.Settle.{target_status}
use sports_venue_management.Payment.Fulfilment.{Callback, fulfilled, is_fulfilled, fulfil}
use sports_venue_management.Payment.Webhook.{payment_of, handle_paymob_webhook}
use sports_venue_management.Payment.Webhook.Confirmed.{handle_paymob_webhook-fulfilled}

fulfil-is_fulfilled :
    (dep : Bool) (now : ℕ) (c : Callback) (z : Payment) (s : PaymentStatus)
    → s ≡ target_status dep
    → is_fulfilled (fulfil s now c.txn z) ≡ true
unfolding fulfil target_status
fulfil-is_fulfilled dep now c z s h = ground arith

module _ (mongo : Mongo) where
  -- Two callbacks with one reference, the second of which runs as a whole while the first waits
  -- between its reads and its first write, are not both fulfilled, whatever the store throws.
  pub handle_paymob_webhook-overlap :
      (f g : Faults) (now later : ℕ) (c again : Callback) (p : Platform mongo) (s t : PaymentStatus)
      → again.reference ≡ c.reference
      → (handle_paymob_webhook mongo g (λ q. q) now true (some again) p).0 ≡ ok (fulfilled t)
      → (handle_paymob_webhook mongo f
          (λ q. (handle_paymob_webhook mongo g (λ r. r) now true (some again) q).1)
          later
          true
          (some c)
          p).0
        ≢ ok (fulfilled s)
  handle_paymob_webhook-overlap f g now later c again p s t same inner outer =
      let during : Platform mongo → Platform mongo =
        λ q. (handle_paymob_webhook mongo g (λ r. r) now true (some again) q).1 in
      let (r, e, b, group, named, found, there, confirmed) =
        handle_paymob_webhook-fulfilled mongo g (λ r. r) now again p t inner in
      let (r', e', b', group', named', found', there', confirmed') =
        handle_paymob_webhook-fulfilled mongo f during later c p s outer in
      let first : r ≡ r' = some-injective r r' (cc (named, named', same)) in
      let one : e ≡ e' =
        some-injective e e'
          (sym found ∙ (ap (λ n. payment_of mongo n p.payments) first ∙ found')) in
      let (z, stored, fresh, becomes) = confirmed.0 in
      let (z', stored', fresh', becomes') = confirmed'.0 in
      let now_there : z' ≡ fulfil t now again.txn z =
        some-injective _ _ (
          sym stored' ∙ (ap (λ x. mongo.find_by_id (during p).payments x.0) (sym one) ∙ becomes)) in
      let done = fulfil-is_fulfilled _ now again z t confirmed.1 in cc (fresh', now_there, done)
