-- ===== src/Otp.antt =====
-- src/common/services/otp/otp.service.ts over the values kept in memory. The random code is an argument.
pub mod Codes
pub mod Email
use sports_venue_management.Common.{
  ℕ, Bool, true, false, not, Option, none, some, ◌==◌, if◌then◌else◌,
}
use sports_venue_management.Common.Outcome.{Result, ok, err, otp_rate_limited, otp_invalid}
use sports_venue_management.Redis.Values.{Key, otp, otp_rate, Values, set_value, get_value, del_key}

-- `OTP_TTL` and `RATE_LIMIT_TTL`, in seconds
abbrev pub otp_ttl : ℕ
otp_ttl = 300

abbrev pub rate_limit_ttl : ℕ
rate_limit_ttl = 60

unfoldable pub send_otp : ℕ → ℕ → ℕ → Values → Result ℕ × Values
unfolding get_value set_value
send_otp now code phone kv =
    let (limited, seen) = get_value now (otp_rate phone) kv in
    elim limited [
      | some mark ↦ (err otp_rate_limited, seen)
      | none ↦ (
        ok code,
        set_value now (otp_rate phone) 1 rate_limit_ttl
            (set_value now (otp phone) code otp_ttl seen),
      )
    ]

unfoldable pub verify_otp : ℕ → ℕ → ℕ → Values → Result Bool × Values
unfolding get_value del_key
verify_otp now phone code kv =
    let (stored, seen) = get_value now (otp phone) kv in
    elim stored [
      | none ↦ (err otp_invalid, seen)
      | some s ↦ if s == code then (ok true, del_key (otp phone) seen) else (err otp_invalid, seen)
    ]
