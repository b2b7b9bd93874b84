-- ===== src/Examples/Keys.antt =====
-- The theorems on idempotency keys, applied.
use sports_venue_management.Common.{
  ℕ, ◌<◌, ◌≤◌, ltb, if◌then◌else◌, ◌≡◌, refl, Bool, true, false, Option, none, some, [], ◌==◌,
  arith,
}
use sports_venue_management.Common.Outcome.{Result, ok, err, key_reused, key_busy}
use sports_venue_management.Entities.{PaymentMethod, PaymentStatus}
use sports_venue_management.Mongo.{list_mongo}
use sports_venue_management.Mongo.ListStore.{matching, drop_id}
use sports_venue_management.Platform.{Platform}
use sports_venue_management.Booking.Idempotency.{
  Reply, Kept, Cache, read, wait, run_locked, request_once,
}
use sports_venue_management.Booking.Idempotency.Replayed.{request_once-again}
use sports_venue_management.Booking.Idempotency.Attempts.{request_once-wait}
use sports_venue_management.Examples.Data.{platform, paid_booking}

abbrev nothing_kept : Cache
nothing_kept user key = none

abbrev reply : Reply
reply = record {
  group_id = some 51;
  bookings = [];
  status = PaymentStatus.unpaid;
  payment_method = some PaymentMethod.paymob;
  amount = 30000;
}

-- a request that books nothing and is answered
abbrev run : Platform list_mongo → Result Reply × Platform list_mongo
run p = (ok reply, p)

abbrev always : ℕ → Bool
always k = true

abbrev never : ℕ → Bool
never k = false

abbrev unseen : ℕ → Option Kept
unseen k = none

request_once-again_example :
    let p = platform paid_booking in
    let r = request_once list_mongo 1000 7 9 444 always unseen run nothing_kept p in
    let again = λ (h : ℕ). request_once list_mongo 5000 7 9 h never unseen run r.1 r.2 in
    (again 444 ≡ (ok reply, r.1, r.2))
    × ((444 == 555) ≡ false → again 555 ≡ (err key_reused, r.1, r.2))
unfolding request_once run_locked wait read matching drop_id
request_once-again_example =
    request_once-again list_mongo 1000 5000 7 9 444 555 always never unseen unseen run run
      nothing_kept (platform paid_booking) reply refl refl refl (omega arith)

abbrev kept_reply : Kept
kept_reply = record { request_hash = 444; response = reply; expires_at = 86400000 }

-- another request keeps its answer before the fourth attempt
abbrev seen_later : ℕ → Option Kept
seen_later k = if ltb k 3 then none else some kept_reply

request_once-wait_example :
    let p = platform paid_booking in
    let r = request_once list_mongo 1000 7 9 444 never seen_later run nothing_kept p in
    (25 ≤ 3 → r ≡ (err key_busy, nothing_kept, p))
    × (3 < 25 → never 3 ≡ true → (r.0 ≡ (run p).0) × (r.2 ≡ (run p).1))
    × ((c : Kept)
        → 3 < 25
        → never 3 ≡ false
        → seen_later 3 ≡ some c
        → r ≡ (if c.request_hash == 444 then ok c.response else err key_reused, nothing_kept, p))
unfolding read matching drop_id
request_once-wait_example =
    request_once-wait list_mongo 1000 7 9 444 3 never seen_later run nothing_kept
      (platform paid_booking) refl refl (λ i from to. (refl, ground arith))
