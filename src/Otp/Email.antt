-- ===== src/Otp/Email.antt =====
-- `sendEmailOTP` of src/modules/auth/auth.service.ts: the codes for an address, over the values kept in
-- memory. The random code is an argument, and the mail that carries it is left out.
use sports_venue_management.Common.{
  ℕ, ◌+◌, ◌≤◌, ◌≡◌, ◌⊎◌, refl, inl, inr, Bool, true, false, Option, none, some, List, [], ◌∷◌, ltb,
  ltb-false, ◌==◌, ==_refl, ==_iff, arith, sym, All, Bool-cases, if◌then◌else◌,
}
use mathlib.Core.Path.{subst}
use sports_venue_management.Common.Int.{ℤ, pos, negsuc}
use sports_venue_management.Common.Outcome.{
  Error, Result, ok, err, Result-cases, email_blocked, email_waits, too_many_codes,
}
use sports_venue_management.Redis.Values.{
  Key, otp, max_otp, block_otp, Entry, Values, put, ttl, inc, set_value, get_value,
}

-- the time to live of a code and of a block, in seconds
abbrev pub email_ttl : ℕ
email_ttl = 180

abbrev is_positive : ℤ → Bool
is_positive (pos n) = ltb 0 n
is_positive (negsuc n) = false

-- `maximumOtp > 3`
abbrev is_exceeded : Option ℕ → Bool
is_exceeded none = false
is_exceeded (some n) = ltb 3 n

unfoldable pub send_email_otp : ℕ → ℕ → ℕ → Values → Result (Unit {0}) × Values
send_email_otp now code email kv =
    if is_positive (ttl now (block_otp email) kv)
    then (err email_blocked, kv)
    else if is_positive (ttl now (otp email) kv)
    then (err email_waits, kv)
    else let (tries, seen) = get_value now (max_otp email) kv in
      if is_exceeded tries
      then (err too_many_codes, set_value now (block_otp email) 1 email_ttl seen)
      else (ok tt, (inc (max_otp email) (set_value now (otp email) code email_ttl seen)).1)

-- a request for a code, or a write of another part of the program to some other key
pub data Event : Type 0 where
  send : ℕ → ℕ → ℕ → Event
  write : Key → Option Entry → Event

abbrev pub is_counter : Key → Bool
is_counter (max_otp e) = true
is_counter _ = false

-- Other parts of the program leave the counters alone.
abbrev pub Minds : Event → Type 0
Minds (send now code email) = Unit
Minds (write key entry) = is_counter key ≡ false

-- how many codes for the address the events send
unfoldable pub codes_sent : ℕ → List Event → Values → ℕ
codes_sent email [] kv = 0
codes_sent email (write key entry ∷ rest) kv = codes_sent email rest (put key entry kv)
codes_sent email (send now code to ∷ rest) kv =
    let (r, after) = send_email_otp now code to kv in
    let more = codes_sent email rest after in
    elim r [ err e ↦ more | ok u ↦ if to == email then more + 1 else more ]

-- the counter of the address stands at `n`, for good
abbrev pub HasTries : ℕ → ℕ → Values → Type 0
HasTries email n kv =
    ((n ≡ 0) × (kv (max_otp email) ≡ none))
    ⊎ (kv (max_otp email) ≡ some (record { value = n; expires_at = none }))

get_value-other :
    (now to email : ℕ) (kv : Values)
    → (to == email) ≡ false
    → (get_value now (max_otp to) kv).1 (max_otp email) ≡ kv (max_otp email)
unfolding get_value
get_value-other now to email kv differs = ground arith

-- a code for another address
send_email_otp-other :
    (now code to email : ℕ) (kv : Values)
    → (to == email) ≡ false
    → (send_email_otp now code to kv).1 (max_otp email) ≡ kv (max_otp email)
unfolding send_email_otp set_value inc
send_email_otp-other now code to email kv differs =
    let seen = get_value-other now to email kv differs in
    elim (Bool-cases (is_positive (ttl now (block_otp to) kv))) [
      | inl blocked ↦ rw (send_email_otp, blocked) refl
      | inr free ↦ elim (Bool-cases (is_positive (ttl now (otp to) kv))) [
        | inl sent ↦ rw (send_email_otp, free, sent) refl
        | inr open_ ↦ elim (Bool-cases (is_exceeded (get_value now (max_otp to) kv).0)) [
          | inl over ↦ rw (send_email_otp, free, open_, over) seen
          | inr under ↦ rw (send_email_otp, free, open_, under, differs) seen
        ]
      ]
    ]

-- what the counter says
get_value-HasTries :
    (now email n : ℕ) (kv : Values)
    → HasTries email n kv
    → (is_exceeded (get_value now (max_otp email) kv).0 ≡ ltb 3 n)
      × ((get_value now (max_otp email) kv).1 ≡ kv)
unfolding get_value
get_value-HasTries now email n kv (inl (zero_tries, absent)) =
    rw (zero_tries, get_value, absent) (refl, refl)
get_value-HasTries now email n kv (inr stored) = rw (get_value, stored) (refl, refl)

set_value-HasTries :
    (email n now : ℕ) (kv : Values)
    → HasTries email n kv
    → HasTries email n (set_value now (block_otp email) 1 email_ttl kv)
unfolding set_value
set_value-HasTries email n now kv tries = tries

inc-HasTries :
    (email n code now : ℕ) (kv : Values)
    → HasTries email n kv
    → HasTries email (n + 1) (inc (max_otp email) (set_value now (otp email) code email_ttl kv)).1
unfolding inc set_value
inc-HasTries email n code now kv (inl (zero_tries, absent)) =
    inr (rw (inc, absent, ==_refl email, zero_tries) refl)
inc-HasTries email n code now kv (inr stored) = inr (rw (inc, stored, ==_refl email) refl)

-- A request for a code counts one up, or is refused.
send_email_otp-HasTries :
    (now code email n : ℕ) (kv : Values)
    → HasTries email n kv
    → let (r, after) = send_email_otp now code email kv in
      ((r ≡ ok tt) × (n ≤ 3) × HasTries email (n + 1) after)
      ⊎ ((e : Error) × (r ≡ err e) × HasTries email n after)
unfolding send_email_otp
send_email_otp-HasTries now code email n kv tries =
    let (exceeded, seen) = get_value-HasTries now email n kv tries in
    elim (Bool-cases (is_positive (ttl now (block_otp email) kv))) [
      | inl blocked ↦
          inr (email_blocked, rw (send_email_otp, blocked) refl, rw (send_email_otp, blocked) tries)
      | inr free ↦ elim (Bool-cases (is_positive (ttl now (otp email) kv))) [
        | inl sent ↦ inr (
          email_waits,
          rw (send_email_otp, free, sent) refl,
          rw (send_email_otp, free, sent) tries,
        )
        | inr open_ ↦ elim (Bool-cases (ltb 3 n)) [
          | inl over ↦ inr (
            too_many_codes,
            rw (send_email_otp, free, open_, exceeded, over) refl,
            rw (send_email_otp, free, open_, exceeded, over, seen)
                (set_value-HasTries email n now kv tries),
          )
          | inr under ↦ inl (
            rw (send_email_otp, free, open_, exceeded, under) refl,
            ltb-false 3 n under,
            rw (send_email_otp, free, open_, exceeded, under, seen)
                (inc-HasTries email n code now kv tries),
          )
        ]
      ]
    ]

write-HasTries :
    (key : Key) (entry : Option Entry) (email n : ℕ) (kv : Values)
    → is_counter key ≡ false
    → HasTries email n kv
    → HasTries email n (put key entry kv)
write-HasTries key entry email n kv minds tries = ground arith

codes_sent_bound :
    (email n : ℕ) (events : List Event) (kv : Values)
    → All Minds events
    → HasTries email n kv
    → n ≤ 4
    → codes_sent email events kv + n ≤ 4
unfolding codes_sent
codes_sent_bound email n [] kv mind tries few = omega arith
codes_sent_bound email n (write key entry ∷ rest) kv mind tries few =
    codes_sent_bound email n rest (put key entry kv) mind.1
      (write-HasTries key entry email n kv mind.0 tries) few
codes_sent_bound email n (send now code to ∷ rest) kv mind tries few =
    let after = (send_email_otp now code to kv).1 in
    elim (Bool-cases (to == email)) [
      | inl same ↦
          let e : to ≡ email = (==_iff to email).0 same in
          elim (send_email_otp-HasTries now code to n kv
            (subst (λ k. HasTries k n kv) (sym e) tries)) [
              | inl (sent, few_so_far, counted) ↦
                  let more =
                    codes_sent_bound email (n + 1) rest after mind.1
                      (subst (λ k. HasTries k (n + 1) after) e counted) (omega arith) in
                  rw (codes_sent, sent, same) (omega (arith, more))
              | inr (why, refused, kept) ↦
                  rw (codes_sent, refused)
                    (codes_sent_bound email n rest after mind.1
                      (subst (λ k. HasTries k n after) e kept) few)
            ]
      | inr differs ↦
          let more =
            codes_sent_bound email n rest after mind.1
              (rw (send_email_otp-other now code to email kv differs) tries) few in
          elim (Result-cases (send_email_otp now code to kv).0) [
            | inl (why, refused) ↦ rw (codes_sent, refused) more
            | inr (u, sent) ↦ rw (codes_sent, sent, differs) more
          ]
    ]

-- However many codes are asked for, at whatever instants and whatever else is written in between, at
-- most four are ever sent to an address: the block that should end after 180 seconds is set again
-- by every later request, since the counter is never taken back.
pub codes_sent_at_most_four :
    (email : ℕ) (events : List Event) (kv : Values)
    → All Minds events
    → kv (max_otp email) ≡ none
    → codes_sent email events kv ≤ 4
codes_sent_at_most_four email events kv mind fresh =
    omega (arith, codes_sent_bound email 0 events kv mind (inl (refl, fresh)) (omega arith))
