-- ===== src/Otp/Codes.antt =====
-- The life of a one-time code.
use sports_venue_management.Common.{
  ℕ, ◌+◌, ◌*◌, ◌<◌, ◌≡◌, ◌↔◌, refl, true, false, none, some, arith, leb, ◌==◌, Bool-cases,
  Option-cases, inl, inr, ==_refl,
}
use sports_venue_management.Common.Outcome.{ok, err, otp_rate_limited, otp_invalid}
use sports_venue_management.Redis.Values.{otp, otp_rate, Values, set_value, get_value, del_key}
use sports_venue_management.Otp.{otp_ttl, rate_limit_ttl, send_otp, verify_otp}

-- what the service has stored after it has sent a code
sent :
    (now code phone sent_code : ℕ) (kv : Values)
    → (send_otp now code phone kv).0 ≡ ok sent_code
    → let after = (send_otp now code phone kv).1 in
      (after (otp phone) ≡ some (record { value = code; expires_at = some (now + otp_ttl * 1000) }))
      × (after (otp_rate phone)
          ≡ some (record { value = 1; expires_at = some (now + rate_limit_ttl * 1000) }))
unfolding send_otp set_value
sent now code phone sent_code kv h = elim (Option-cases (get_value now (otp_rate phone) kv).0) [
  | inl free ↦ rw (free, send_otp, set_value) (rw (==_refl phone) (refl, refl))
  | inr (m, limited) ↦ absurd (cc (rw (limited, send_otp) at h))
]

accepted_iff :
    (now phone code given expires_at : ℕ) (kv : Values)
    → kv (otp phone) ≡ some (record { value = code; expires_at = some expires_at })
    → ((verify_otp now phone given kv).0 ≡ ok true) ↔ ((given ≡ code) × (now < expires_at))
unfolding verify_otp get_value
accepted_iff now phone code given expires_at kv stored = elim (Bool-cases (leb expires_at now)) [
  | inl over ↦ rw (stored, verify_otp, get_value, over) (ground arith)
  | inr live ↦ rw (stored, verify_otp, get_value, live) (ground arith)
]

gone_invalid :
    (now phone given : ℕ) (kv : Values)
    → kv (otp phone) ≡ none
    → (verify_otp now phone given kv).0 ≡ err otp_invalid
unfolding verify_otp get_value
gone_invalid now phone given kv gone = rw (gone, verify_otp, get_value) refl

accepted_gone :
    (now phone given : ℕ) (kv : Values)
    → (verify_otp now phone given kv).0 ≡ ok true
    → (verify_otp now phone given kv).1 (otp phone) ≡ none
unfolding verify_otp del_key
accepted_gone now phone given kv h = elim (Option-cases (get_value now (otp phone) kv).0) [
  | inl missing ↦ absurd (cc (rw (missing, verify_otp) at h))
  | inr (s, stored) ↦ elim (Bool-cases (s == given)) [
    | inl same ↦ rw (stored, verify_otp, same, ==_refl phone) refl
    | inr differs ↦ absurd (cc (rw (stored, verify_otp, differs) at h))
  ]
]

limited :
    (now code phone expires_at : ℕ) (kv : Values)
    → kv (otp_rate phone) ≡ some (record { value = 1; expires_at = some expires_at })
    → now < expires_at
    → (send_otp now code phone kv).0 ≡ err otp_rate_limited
unfolding send_otp get_value
limited now code phone expires_at kv stored soon =
    let live : leb expires_at now ≡ false = ground arith in
    rw (stored, send_otp, get_value, live) refl

-- A code that was sent is accepted exactly if it is the one that was sent and its 300 seconds are not
-- over, and once it has been accepted no code is, until another is sent.
pub verify_otp-send_otp :
    (start now later code phone sent_code given other : ℕ) (kv : Values)
    → (send_otp start code phone kv).0 ≡ ok sent_code
    → let after = (send_otp start code phone kv).1 in
      let verified = verify_otp now phone given after in
      ((verified.0 ≡ ok true) ↔ ((given ≡ code) × (now < start + 300000)))
      × (verified.0 ≡ ok true → (verify_otp later phone other verified.1).0 ≡ err otp_invalid)
verify_otp-send_otp start now later code phone sent_code given other kv h =
    let stored = (sent start code phone sent_code kv h).0 in
    let after = (send_otp start code phone kv).1 in
    (
      accepted_iff now phone code given (start + 300000) after stored,
      λ fine.
          gone_invalid later phone other (verify_otp now phone given after).1
            (accepted_gone now phone given after fine),
    )

-- For 60 seconds after a code has been sent to a phone, no further code is.
pub send_otp_limited :
    (start now code next phone sent_code : ℕ) (kv : Values)
    → (send_otp start code phone kv).0 ≡ ok sent_code
    → now < start + 60000
    → (send_otp now next phone (send_otp start code phone kv).1).0 ≡ err otp_rate_limited
send_otp_limited start now code next phone sent_code kv h soon =
    limited now next phone (start + 60000) (send_otp start code phone kv).1
      (sent start code phone sent_code kv h).1 soon
