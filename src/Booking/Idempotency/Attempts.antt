-- ===== src/Booking/Idempotency/Attempts.antt =====
-- How a request that finds the lock of its key taken goes on.
use sports_venue_management.Common.{
  ℕ, zero, suc, ◌+◌, ◌<◌, ◌≤◌, ◌≡◌, refl, Bool, true, false, Option, none, some, arith, ◌==◌,
  if◌then◌else◌, first, Bool-cases, ==_iff, inl, inr,
}
use sports_venue_management.Common.Outcome.{Result, ok, err, key_busy, key_reused, Result-cases}
use sports_venue_management.Mongo.{Mongo}
use sports_venue_management.Platform.{Platform}
use sports_venue_management.Booking.Idempotency.{
  Kept, Cache, Reply, Waited, gave_up, locked, answered, wait, attempts, carries, read, replayed,
  run_locked, request_once,
}

-- The attempts from `k` to before `j` find the lock taken and no kept answer.
abbrev pub IsBusy : (ℕ → Bool) → (ℕ → Option Kept) → ℕ → ℕ → Type 0
IsBusy is_free seen k j = (i : ℕ) → k ≤ i → i < j → (is_free i ≡ false) × (seen i ≡ none)

-- the first attempt that is not busy decides
wait_until :
    (is_free : ℕ → Bool) (seen : ℕ → Option Kept) (w : Waited) (n k j : ℕ)
    → k ≤ j
    → j < k + n
    → IsBusy is_free seen k j
    → ((r : Waited)
        → (if is_free j then locked else elim (seen j) [ some c ↦ answered c | none ↦ r ]) ≡ w)
    → wait is_free seen n k ≡ w
unfolding wait
wait_until is_free seen w zero k j from to busy ends = absurd (omega (arith, from, to))
wait_until is_free seen w (suc n) k j from to busy ends = elim (Bool-cases (k == j)) [
  | inl same ↦ rw ((==_iff k j).0 same) (ends (wait is_free seen n (suc k)))
  | inr apart ↦
      let before : k < j = ground (arith, from, apart) in
      let here = busy k (omega arith) before in
      rw (wait, here.0, here.1)
        (wait_until is_free seen w n (suc k) j before (omega (arith, to))
          (λ i above below. busy i (omega (arith, above)) below) ends)
]

wait_over :
    (is_free : ℕ → Bool) (seen : ℕ → Option Kept) (n k : ℕ)
    → IsBusy is_free seen k (k + n)
    → wait is_free seen n k ≡ gave_up
unfolding wait
wait_over is_free seen zero k busy = refl
wait_over is_free seen (suc n) k busy =
    let here = busy k (omega arith) (omega arith) in
    rw (wait, here.0, here.1)
      (wait_over is_free seen n (suc k)
        (λ i above below. busy i (omega (arith, above)) (omega (arith, below))))

module _ (mongo : Mongo) where
  open mongo use {find}

  run_locked-run :
      (now user key hash : ℕ) (run : Platform mongo → Result Reply × Platform mongo) (cache : Cache)
      (p : Platform mongo)
      → let r = run_locked mongo now user key hash run locked cache p in
        (r.0 ≡ (run p).0) × (r.2 ≡ (run p).1)
  unfolding run_locked
  run_locked-run now user key hash run cache p = elim (Result-cases (run p).0) [
    | inl (e, failed) ↦ rw (run_locked, failed) (refl, refl)
    | inr (reply, done) ↦ rw (run_locked, done) (refl, refl)
  ]

  -- A request under a key for which no answer is kept and that no booking carries, whose attempts
  -- before the `j`-th find the lock taken and no kept answer: if 25 attempts have gone by, it throws
  -- that the key is busy and changes nothing; if the lock is free at the `j`-th, it is carried out
  -- once and answered as that run answers; and if it is still taken there but an answer is kept, it
  -- is answered with that one, or, where its content is another, with an error, and changes nothing.
  pub request_once-wait :
      (now user key hash j : ℕ) (is_free : ℕ → Bool) (seen : ℕ → Option Kept)
      (run : Platform mongo → Result Reply × Platform mongo) (cache : Cache) (p : Platform mongo)
      → read now user key cache ≡ none
      → first (find (carries user key) p.bookings) ≡ none
      → IsBusy is_free seen 0 j
      → let r = request_once mongo now user key hash is_free seen run cache p in
        (25 ≤ j → r ≡ (err key_busy, cache, p))
        × (j < 25 → is_free j ≡ true → (r.0 ≡ (run p).0) × (r.2 ≡ (run p).1))
        × ((c : Kept)
            → j < 25
            → is_free j ≡ false
            → seen j ≡ some c
            → r ≡ (if c.request_hash == hash then ok c.response else err key_reused, cache, p))
  unfolding request_once run_locked replayed
  request_once-wait now user key hash j is_free seen run cache p unread uncarried busy = (
    (λ over.
        let waited =
          wait_over is_free seen attempts 0 (λ i from to. busy i from (omega (arith, to, over))) in
        rw (request_once, unread, uncarried, waited) refl),
    (λ soon free.
        let waited =
          wait_until is_free seen locked attempts 0 j (omega arith) (omega (arith, soon)) busy
            (λ r. rw free refl) in
        rw (request_once, unread, uncarried, waited)
          (run_locked-run now user key hash run cache p)),
    λ c soon taken kept.
        let waited =
          wait_until is_free seen (answered c) attempts 0 j (omega arith) (omega (arith, soon)) busy
            (λ r. rw (taken, kept) refl) in
        rw (request_once, unread, uncarried, waited) refl,
  )
