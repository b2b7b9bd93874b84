-- ===== src/Booking/Idempotency.antt =====
-- The idempotency key of `createBooking`: the kept answers, the bookings that carry the key, and the
-- lock on it with its 25 attempts. What follows under the lock is the argument `run`.
pub mod Replayed
pub mod Attempts
use sports_venue_management.Common.{
  ℕ, zero, suc, ◌+◌, Bool, false, ◌&&◌, not, Option, none, some, List, [], ◌∷◌, first, leb, ◌==◌,
  if◌then◌else◌,
}
use sports_venue_management.Common.Outcome.{Result, ok, err, key_reused, key_busy}
use sports_venue_management.Entities.{Booking, PaymentMethod, PaymentStatus}
use sports_venue_management.Mongo.{Mongo}
use sports_venue_management.Platform.{Platform}
use sports_venue_management.Booking.Settle.{booking_final}
use sports_venue_management.Payment.Service.{is_in_group}

-- `responseData`
pub record Reply : Type 0 where
  pub group_id : Option ℕ
  pub bookings : List (ℕ × Booking)
  pub status : PaymentStatus
  pub payment_method : Option PaymentMethod
  pub amount : ℕ

-- `{ requestHash, responseData }` with the end of its time to live
pub record Kept : Type 0 where
  pub request_hash : ℕ
  pub response : Reply
  pub expires_at : ℕ

-- the values under `idem::req::${userId}::${key}`
abbrev pub Cache : Type 0
Cache = ℕ → ℕ → Option Kept

-- a day in milliseconds
abbrev pub kept_for : ℕ
kept_for = 86400000

unfoldable pub read : ℕ → ℕ → ℕ → Cache → Option Kept
read now user key cache = elim (cache user key) [
  | none ↦ none
  | some c ↦ if leb c.expires_at now then none else some c
]

unfoldable pub keep : ℕ → ℕ → ℕ → ℕ → Reply → Cache → Cache
keep now user key hash reply cache u k =
    if (u == user) && (k == key)
    then some (record { request_hash = hash; response = reply; expires_at = now + kept_for })
    else cache u k

-- the answer for a kept one
unfoldable pub replayed : ℕ → Kept → Result Reply
replayed hash c = if c.request_hash == hash then ok c.response else err key_reused

-- How the wait for the lock ends: with the lock, with an answer that another request has kept in the
-- meantime, or not at all within the attempts.
pub data Waited : Type 0 where
  locked gave_up : Waited
  answered : Kept → Waited

-- The attempts: the k-th finds the lock free, or not, and then the cache after 100 milliseconds.
unfoldable pub wait : (ℕ → Bool) → (ℕ → Option Kept) → ℕ → ℕ → Waited
wait is_free seen zero k = gave_up
wait is_free seen (suc n) k =
    let rest = wait is_free seen n (suc k) in
    if is_free k then locked else elim (seen k) [ some c ↦ answered c | none ↦ rest ]

abbrev pub attempts : ℕ
attempts = 25

-- the filter of the bookings that carry the key
abbrev pub carries : ℕ → ℕ → Booking → Bool
carries user key b =
    (b.user_id == user) && elim b.idempotency_key [ none ↦ false | some k ↦ k == key ]

-- the stored fingerprint is another one
unfoldable pub differs : ℕ → Booking → Bool
differs hash b = elim b.request_hash [ none ↦ false | some h ↦ not (h == hash) ]

module _ (mongo : Mongo) where
  open mongo use {Docs, find}

  -- `reconstructedResponse`
  unfoldable pub reconstructed : ℕ × Booking → Docs Booking → Reply
  unfolding booking_final
  reconstructed e d =
      let group : List (ℕ × Booking) = elim e.1.group_id [
        | none ↦ []
        | some g ↦ find (is_in_group g) d
      ] in
      record {
        group_id = e.1.group_id;
        bookings = elim group [ [] ↦ e ∷ [] | x ∷ rest ↦ x ∷ rest ];
        status = e.1.payment_status;
        payment_method = e.1.payment_method;
        amount = booking_final e.1;
      }

  -- the rest of the request once nothing is kept and no booking carries the key
  unfoldable pub run_locked :
      ℕ
      → ℕ
      → ℕ
      → ℕ
      → (Platform mongo → Result Reply × Platform mongo)
      → Waited
      → Cache
      → Platform mongo
      → Result Reply × Cache × Platform mongo
  run_locked now user key hash run gave_up cache p = (err key_busy, cache, p)
  run_locked now user key hash run (answered c) cache p = (replayed hash c, cache, p)
  run_locked now user key hash run locked cache p =
      let (r, q) = run p in
      elim r [
        | err e ↦ (err e, cache, q)
        | ok reply ↦ (ok reply, keep now user key hash reply cache, q)
      ]

  -- `createBooking` with an idempotency key
  unfoldable pub request_once :
      ℕ
      → ℕ
      → ℕ
      → ℕ
      → (ℕ → Bool)
      → (ℕ → Option Kept)
      → (Platform mongo → Result Reply × Platform mongo)
      → Cache
      → Platform mongo
      → Result Reply × Cache × Platform mongo
  request_once now user key hash is_free seen run cache p = elim (read now user key cache) [
    | some c ↦ (replayed hash c, cache, p)
    | none ↦ elim (first (find (carries user key) p.bookings)) [
      | some e ↦
          if differs hash e.1
          then (err key_reused, cache, p)
          else let reply = reconstructed e p.bookings in
            (ok reply, keep now user key hash reply cache, p)
      | none ↦ run_locked now user key hash run (wait is_free seen attempts 0) cache p
    ]
  ]
