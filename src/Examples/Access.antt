-- ===== src/Examples/Access.antt =====
-- The theorems on locks and one-time codes, applied.
use sports_venue_management.Common.{
  ℕ, ◌<◌, ◌≡◌, ◌↔◌, refl, true, false, none, some, List, [], ◌∷◌, arith,
}
use sports_venue_management.Common.Outcome.{ok, err, otp_invalid}
use sports_venue_management.Redis.{
  Locks, no_client, acquire_lock, run, Event, acquire, release, timer,
}
use sports_venue_management.Redis.Exclusion.{acquire_lock-excludes}
use sports_venue_management.Redis.Values.{Values}
use sports_venue_management.Otp.{send_otp, verify_otp}
use sports_venue_management.Otp.Codes.{verify_otp-send_otp}

-- an old lock of the day 9 has run out at the instant 500
abbrev old_locks : Locks
old_locks key = some 500

-- a second request tries for it, a third one releases another lock, and a timer fires early
abbrev events : List (ℕ × Event)
events = (1200, acquire 9 5) ∷ (1300, release 8) ∷ (2000, timer 9) ∷ []

acquire_lock-excludes_example :
    (acquire_lock no_client 3000 9 5 (run events (acquire_lock no_client 1000 9 5 old_locks).1)).0
    ≡ false
unfolding acquire_lock
acquire_lock-excludes_example =
    acquire_lock-excludes 1000 3000 9 5 5 events old_locks refl
      ((omega arith, λ e. cc), ((omega arith, λ e. ground arith), ((omega arith, λ e. cc), tt)))
      (omega arith)

abbrev code : ℕ
code = 123456

abbrev empty : Values
empty key = none

verify_otp-send_otp_example :
    let after = (send_otp 1000 code 5 empty).1 in
    let verified = verify_otp 2000 5 code after in
    ((verified.0 ≡ ok true) ↔ ((code ≡ code) × (2000 < 301000)))
    × (verified.0 ≡ ok true → (verify_otp 3000 5 code verified.1).0 ≡ err otp_invalid)
unfolding send_otp
verify_otp-send_otp_example = verify_otp-send_otp 1000 2000 3000 code 5 code code code empty refl
