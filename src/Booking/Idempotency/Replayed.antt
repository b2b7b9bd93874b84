-- ===== src/Booking/Idempotency/Replayed.antt =====
-- A request that is sent again under its key.
use sports_venue_management.Common.{
  ℕ, ◌+◌, ◌<◌, ◌≡◌, refl, Bool, true, false, Option, none, some, arith, leb, ◌==◌, ==_refl,
  Bool-cases, Option-cases, inl, inr, first, ap, ◌∙◌,
}
use sports_venue_management.Common.Outcome.{Result, ok, err, key_reused, Result-cases}
use sports_venue_management.Mongo.{Mongo}
use sports_venue_management.Platform.{Platform}
use sports_venue_management.Booking.Idempotency.{
  Reply, Kept, Cache, read, keep, replayed, differs, carries, reconstructed, wait, attempts, locked,
  run_locked, request_once,
}

read-keep :
    (now later user key hash : ℕ) (reply : Reply) (cache : Cache)
    → later < now + 86400000
    → read later user key (keep now user key hash reply cache)
      ≡ some (record { request_hash = hash; response = reply; expires_at = now + 86400000 })
unfolding read keep
read-keep now later user key hash reply cache soon =
    let live : leb (now + 86400000) later ≡ false = ground (arith, soon) in
    rw (read, keep, ==_refl user, ==_refl key, live) refl

same_hash : (c : Kept) → replayed c.request_hash c ≡ ok c.response
unfolding replayed
same_hash c = rw (replayed, ==_refl c.request_hash) refl

other_hash :
    (hash : ℕ) (c : Kept) → (c.request_hash == hash) ≡ false → replayed hash c ≡ err key_reused
unfolding replayed
other_hash hash c apart = rw (replayed, apart) refl

wait_free :
    (is_free : ℕ → Bool) (seen : ℕ → Option Kept)
    → is_free 0 ≡ true
    → wait is_free seen attempts 0 ≡ locked
unfolding wait
wait_free is_free seen free = rw (wait, free) refl

module _ (mongo : Mongo) where
  open mongo use {find}

  run_locked_keeps :
      (now user key hash : ℕ) (run : Platform mongo → Result Reply × Platform mongo) (cache : Cache)
      (p : Platform mongo) (reply : Reply)
      → (run_locked mongo now user key hash run locked cache p).0 ≡ ok reply
      → (run_locked mongo now user key hash run locked cache p).1
        ≡ keep now user key hash reply cache
  unfolding run_locked
  run_locked_keeps now user key hash run cache p reply h = elim (Result-cases (run p).0) [
    | inl (e, failed) ↦ absurd (cc (rw (run_locked, failed) at h))
    | inr (made, done) ↦
        let same : made ≡ reply = cc (rw (run_locked, done) at h) in
        rw (run_locked, done) (ap (λ r. keep now user key hash r cache) same)
  ]

  request_once_kept :
      (now user key hash : ℕ) (is_free : ℕ → Bool) (seen : ℕ → Option Kept)
      (run : Platform mongo → Result Reply × Platform mongo) (cache : Cache) (p : Platform mongo)
      (c : Kept)
      → read now user key cache ≡ some c
      → request_once mongo now user key hash is_free seen run cache p ≡ (replayed hash c, cache, p)
  unfolding request_once
  request_once_kept now user key hash is_free seen run cache p c kept = rw (request_once, kept) refl

  -- a request that meets no kept answer and a free lock keeps the answer that it returns
  request_once_keeps :
      (now user key hash : ℕ) (is_free : ℕ → Bool) (seen : ℕ → Option Kept)
      (run : Platform mongo → Result Reply × Platform mongo) (cache : Cache) (p : Platform mongo)
      (reply : Reply)
      → read now user key cache ≡ none
      → is_free 0 ≡ true
      → (request_once mongo now user key hash is_free seen run cache p).0 ≡ ok reply
      → (request_once mongo now user key hash is_free seen run cache p).1
        ≡ keep now user key hash reply cache
  unfolding request_once
  request_once_keeps now user key hash is_free seen run cache p reply unkept free h =
      elim (Option-cases (first (find (carries user key) p.bookings))) [
        | inl nobody ↦
            let free_lock = wait_free is_free seen free in
            rw (request_once, unkept, nobody, free_lock)
              (run_locked_keeps now user key hash run cache p reply
                (rw (request_once, unkept, nobody, free_lock) at h))
        | inr (e, there) ↦ elim (Bool-cases (differs hash e.1)) [
          | inl mismatch ↦ absurd (cc (rw (request_once, unkept, there, mismatch) at h))
          | inr alike ↦
              let same : reconstructed mongo e p.bookings ≡ reply =
                cc (rw (request_once, unkept, there, alike) at h) in
              rw (request_once, unkept, there, alike)
                (ap (λ r. keep now user key hash r cache) same)
        ]
      ]

  -- A request under a key that meets no kept answer and a free lock, and that is answered, is
  -- answered alike for 24 hours when it is sent again under its key, and throws that the key is
  -- reused when it is sent with another fingerprint, whoever holds the lock then; either way neither
  -- the platform nor the kept answers change.
  pub request_once-again :
      (now later user key hash other : ℕ) (is_free is_free_later : ℕ → Bool)
      (seen seen_later : ℕ → Option Kept)
      (run run_later : Platform mongo → Result Reply × Platform mongo) (cache : Cache)
      (p : Platform mongo) (reply : Reply)
      → read now user key cache ≡ none
      → is_free 0 ≡ true
      → (request_once mongo now user key hash is_free seen run cache p).0 ≡ ok reply
      → later < now + 86400000
      → let r = request_once mongo now user key hash is_free seen run cache p in
        let again = λ (h : ℕ).
          request_once mongo later user key h is_free_later seen_later run_later r.1 r.2 in
        (again hash ≡ (ok reply, r.1, r.2))
        × ((hash == other) ≡ false → again other ≡ (err key_reused, r.1, r.2))
  request_once-again now later user key hash other is_free is_free_later seen seen_later run
        run_later cache p reply unkept free h soon =
      let r = request_once mongo now user key hash is_free seen run cache p in
      let c : Kept = record {
        request_hash = hash;
        response = reply;
        expires_at = now + 86400000;
      } in
      let kept : read later user key r.1 ≡ some c =
        ap (read later user key)
          (request_once_keeps now user key hash is_free seen run cache p reply unkept free h)
        ∙ read-keep now later user key hash reply cache soon in
      let again = λ (g : ℕ).
        request_once_kept later user key g is_free_later seen_later run_later r.1 r.2 c kept in
      (
        again hash ∙ ap (λ (x : Result Reply). (x, r.1, r.2)) (same_hash c),
        λ apart. again other ∙ ap (λ (x : Result Reply). (x, r.1, r.2)) (other_hash other c apart),
      )
