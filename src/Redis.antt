-- ===== src/Redis.antt =====
-- src/common/services/redis/redis.service.ts: the locks and the values kept in memory, which the service
-- falls back on where no client is connected. A map is a function; a key that is only compared is a
-- number. An instant is in milliseconds, a time to live in seconds.
pub mod Exclusion
pub mod Values
use sports_venue_management.Common.{
  ℕ, ◌+◌, ◌*◌, Bool, true, false, Option, none, some, List, [], ◌∷◌, ltb, leb, ◌==◌, if◌then◌else◌,
}

abbrev pub Locks : Type 0
Locks = ℕ → Option ℕ

-- `Map.prototype.set` and `Map.prototype.delete`
abbrev pub put : ℕ → Option ℕ → Locks → Locks
put key entry locks k = if key == k then entry else locks k

unfoldable pub acquire_in_memory_lock : ℕ → ℕ → ℕ → Locks → Bool × Locks
acquire_in_memory_lock now key ttl locks = elim (locks key) [
  | none ↦ (true, put key (some (now + ttl * 1000)) locks)
  | some expires_at ↦
      if ltb now expires_at then (false, locks) else (true, put key (some (now + ttl * 1000)) locks)
]

-- the callback of the timer that an acquisition has set
unfoldable pub fire_timer : ℕ → ℕ → Locks → Locks
fire_timer now key locks = elim (locks key) [
  | none ↦ locks
  | some expires_at ↦ if leb expires_at now then put key none locks else locks
]

unfoldable pub release_in_memory_lock : ℕ → Locks → ℕ × Locks
release_in_memory_lock key locks = elim (locks key) [
  | none ↦ (0, locks)
  | some expires_at ↦ (1, put key none locks)
]

-- What the client answers to `SET key locked NX EX ttl`: there is no client, it set the key, the key
-- exists, or it lost the connection or threw.
pub data Answer : Type 0 where
  no_client set exists lost : Answer

unfoldable pub acquire_lock : Answer → ℕ → ℕ → ℕ → Locks → Bool × Locks
unfolding acquire_in_memory_lock
acquire_lock set now key ttl locks = (true, locks)
acquire_lock exists now key ttl locks = (false, locks)
acquire_lock no_client now key ttl locks = acquire_in_memory_lock now key ttl locks
acquire_lock lost now key ttl locks = acquire_in_memory_lock now key ttl locks

-- What happens to the locks of a process without a client, in the order in which it happens.
pub data Event : Type 0 where
  acquire : ℕ → ℕ → Event
  release : ℕ → Event
  timer : ℕ → Event

unfoldable pub handle : ℕ → Event → Locks → Locks
unfolding acquire_lock release_in_memory_lock fire_timer
handle now (acquire key ttl) locks = (acquire_lock no_client now key ttl locks).1
handle now (release key) locks = (release_in_memory_lock key locks).1
handle now (timer key) locks = fire_timer now key locks

unfoldable pub run : List (ℕ × Event) → Locks → Locks
unfolding handle
run [] locks = locks
run (e ∷ rest) locks = run rest (handle e.0 e.1 locks)
