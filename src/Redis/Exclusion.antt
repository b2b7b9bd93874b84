-- ===== src/Redis/Exclusion.antt =====
-- A lock keeps everybody else out until it expires or is released.
use sports_venue_management.Common.{
  ℕ, ◌+◌, ◌*◌, ◌<◌, ◌≤◌, ◌≡◌, ◌≢◌, ◌↔◌, refl, true, false, some, List, [], ◌∷◌, arith, All, ◌==◌,
  Bool-cases, Option-cases, inl, inr,
}
use sports_venue_management.Redis.{
  Locks, no_client, acquire_in_memory_lock, acquire_lock, fire_timer, release_in_memory_lock, Event,
  acquire, release, timer, handle, run,
}

-- the event comes before the lock expires and does not release it
abbrev pub IsHarmless : ℕ → ℕ → ℕ × Event → Type 0
IsHarmless key expires_at e = (e.0 < expires_at) × (e.1 ≢ release key)

handle_keeps :
    (key expires_at now : ℕ) (e : Event) (locks : Locks)
    → now < expires_at
    → e ≢ release key
    → locks key ≡ some expires_at
    → handle now e locks key ≡ some expires_at
unfolding handle acquire_lock acquire_in_memory_lock release_in_memory_lock fire_timer
handle_keeps key expires_at now (acquire k ttl) locks before other held =
    elim (Option-cases (locks k)) [
      | inl free ↦ ground (arith, free, held)
      | inr (t, taken) ↦ ground (arith, taken, held)
    ]
handle_keeps key expires_at now (release k) locks before other held = elim (Bool-cases (k == key)) [
  | inl same ↦ absurd (other (let e : k ≡ key = ground arith in rw e refl))
  | inr apart ↦ elim (Option-cases (locks k)) [
    | inl free ↦ rw (free, handle, release_in_memory_lock) held
    | inr (t, taken) ↦ rw (taken, handle, release_in_memory_lock, apart) held
  ]
]
handle_keeps key expires_at now (timer k) locks before other held = elim (Option-cases (locks k)) [
  | inl free ↦ ground (arith, free, held)
  | inr (t, taken) ↦ ground (arith, taken, held)
]

run_keeps :
    (key expires_at : ℕ) (events : List (ℕ × Event)) (locks : Locks)
    → All (IsHarmless key expires_at) events
    → locks key ≡ some expires_at
    → run events locks key ≡ some expires_at
unfolding run
run_keeps key expires_at [] locks harmless held = held
run_keeps key expires_at (e ∷ rest) locks harmless held =
    run_keeps key expires_at rest (handle e.0 e.1 locks) harmless.1
      (handle_keeps key expires_at e.0 e.1 locks harmless.0.0 harmless.0.1 held)

acquired :
    (now key ttl : ℕ) (locks : Locks)
    → (acquire_lock no_client now key ttl locks).0 ≡ true
    → (acquire_lock no_client now key ttl locks).1 key ≡ some (now + ttl * 1000)
unfolding acquire_lock acquire_in_memory_lock
acquired now key ttl locks h = elim (Option-cases (locks key)) [
  | inl free ↦ ground (arith, free)
  | inr (t, taken) ↦ ground (arith, taken)
]

refused :
    (now key ttl expires_at : ℕ) (locks : Locks)
    → locks key ≡ some expires_at
    → now < expires_at
    → (acquire_lock no_client now key ttl locks).0 ≡ false
unfolding acquire_lock acquire_in_memory_lock
refused now key ttl expires_at locks held before = ground (arith, held)

-- Without a client, a lock that somebody has acquired for `ttl` seconds is refused to everybody
-- else before they are over, whatever acquisitions, timers and releases of other locks come in
-- between.
pub acquire_lock-excludes :
    (start now key ttl other_ttl : ℕ) (events : List (ℕ × Event)) (locks : Locks)
    → (acquire_lock no_client start key ttl locks).0 ≡ true
    → All (IsHarmless key (start + ttl * 1000)) events
    → now < start + ttl * 1000
    → (acquire_lock no_client now key other_ttl
        (run events (acquire_lock no_client start key ttl locks).1)).0
      ≡ false
acquire_lock-excludes start now key ttl other_ttl events locks got harmless before =
    refused now key other_ttl (start + ttl * 1000)
      (run events (acquire_lock no_client start key ttl locks).1)
      (run_keeps key (start + ttl * 1000) events (acquire_lock no_client start key ttl locks).1
        harmless (acquired start key ttl locks got))
      before

-- Without a client, a lock is granted exactly if nobody holds it or its holder's time is over.
pub acquire_lock_iff :
    (now key ttl : ℕ) (locks : Locks)
    → ((acquire_lock no_client now key ttl locks).0 ≡ true)
      ↔ ((expires_at : ℕ) → locks key ≡ some expires_at → expires_at ≤ now)
unfolding acquire_lock acquire_in_memory_lock
acquire_lock_iff now key ttl locks = elim (Option-cases (locks key)) [
  | inl free ↦ ((λ h t e. cc), λ h. rw (free, acquire_lock, acquire_in_memory_lock) refl)
  | inr (t, taken) ↦
      ((λ h u e. ground (arith, taken, e)), λ h. let over = h t taken in ground (arith, taken))
]
