-- ===== src/Auth/Rotation.antt =====
-- A refresh token gives one pair of tokens.
use sports_venue_management.Common.{
  ℕ, ◌+◌, ◌<◌, ◌≡◌, ◌⊎◌, refl, inl, inr, Bool, true, false, none, some, List, arith, leb,
  Bool-cases, Option-cases, ==_refl,
}
use mathlib.Core.Path.{subst}
use sports_venue_management.Common.Outcome.{ok, err, token_revoked}
use sports_venue_management.Redis.Values.{refresh_grace, revoked, Values, set_value, get_value}
use sports_venue_management.Auth.Marks.{day, IsKept, IsUsed, get_value-IsUsed, IsRevoked-get_value}
use sports_venue_management.Auth.{
  UserType, find_user, is_customer, refresh_ttl, Directory, grace_ttl, refresh_claims, Request,
  serve_all,
}
use sports_venue_management.Auth.Used.{AreWithinDay, serve_all-IsUsed}

marked_as-IsUsed :
    (start id jti fresh : ℕ) (of_customer : Bool) (kv : Values)
    → IsUsed start id jti fresh (
        set_value start
          (revoked id jti)
          1
          (refresh_ttl of_customer)
          (set_value start (refresh_grace jti) fresh grace_ttl kv))
unfolding set_value
marked_as-IsUsed start id jti fresh true kv = (
  (start + 2592000000, rw (set_value, ==_refl id, ==_refl jti) refl, omega arith),
  inr (rw (set_value, ==_refl jti) refl),
)
marked_as-IsUsed start id jti fresh false kv = (
  (start + 604800000, rw (set_value, ==_refl id, ==_refl jti) refl, omega arith),
  inr (rw (set_value, ==_refl jti) refl),
)

-- a first refresh marks its token as used
refreshed-IsUsed :
    (start id jti fresh pair : ℕ) (d : Directory) (u : UserType) (kv : Values)
    → (get_value start (refresh_grace jti) kv).0 ≡ none
    → (refresh_claims d start fresh u id jti kv).0 ≡ ok pair
    → IsUsed start id jti pair (refresh_claims d start fresh u id jti kv).1
unfolding refresh_claims
refreshed-IsUsed start id jti fresh pair d u kv first h =
    let seen = get_value start (refresh_grace jti) kv in
    let looked = get_value start (revoked id jti) seen.1 in
    elim (Option-cases looked.0) [
      | inr (m, marked) ↦ absurd (cc (rw (refresh_claims, first, marked) at h))
      | inl unmarked ↦ elim (Option-cases (find_user d u id)) [
        | inl missing ↦ absurd (cc (rw (refresh_claims, first, unmarked, missing) at h))
        | inr (a, known) ↦
            let same : fresh ≡ pair = cc (rw (refresh_claims, first, unmarked, known) at h) in
            rw (refresh_claims, first, unmarked, known)
              (subst
                (λ n. IsUsed start id jti n (
                  set_value start (revoked id jti) 1 (refresh_ttl (is_customer u a))
                    (set_value start (refresh_grace jti) fresh grace_ttl looked.1)))
                same (marked_as-IsUsed start id jti fresh (is_customer u a) looked.1))
      ]
    ]

-- the kept answer is read for 25 seconds
IsKept-get_value :
    (start jti pair now : ℕ) (kv : Values)
    → IsKept start jti pair kv
    → ((get_value now (refresh_grace jti) kv).0 ≡ none)
      ⊎ (((get_value now (refresh_grace jti) kv).0 ≡ some pair) × (now < start + 25000))
unfolding get_value
IsKept-get_value start jti pair now kv (inl gone) = inl (rw (get_value, gone) refl)
IsKept-get_value start jti pair now kv (inr kept) = elim (Bool-cases (leb (start + 25000) now)) [
  | inl over ↦ inl (rw (get_value, kept, over) refl)
  | inr live ↦ inr (rw (get_value, kept, live) refl, ground (arith, live))
]

-- the answer to a used token
refresh_claims-IsUsed_answer :
    (start id jti pair now fresh : ℕ) (d : Directory) (u : UserType) (kv : Values)
    → now < start + day
    → IsUsed start id jti pair kv
    → let answer = (refresh_claims d now fresh u id jti kv).0 in
      ((answer ≡ ok pair) × (now < start + 25000)) ⊎ (answer ≡ err token_revoked)
unfolding refresh_claims
refresh_claims-IsUsed_answer start id jti pair now fresh d u kv soon h =
    elim (IsKept-get_value start jti pair now kv h.1) [
      | inr (kept, early) ↦ inl (rw (refresh_claims, kept) refl, early)
      | inl gone ↦
          let seen = (get_value now (refresh_grace jti) kv).1 in
          let used = get_value-IsUsed start id jti pair now (refresh_grace jti) kv soon h in
          let found = IsRevoked-get_value start id jti now seen soon used.0 in
          inr (rw (refresh_claims, gone, found) refl)
    ]

-- A refresh token that has been refreshed for the first time gives no other pair of tokens for a
-- day, whatever requests to refresh, to log out and to authenticate come within that day, in any
-- order: to refresh it again answers with the first pair, and that only before 25 seconds are over,
-- or throws that it is revoked.
pub refresh_claims_once :
    (start later id jti fresh again pair : ℕ) (d : Directory) (u v : UserType)
    (rs : List (ℕ × Request)) (kv : Values)
    → (get_value start (refresh_grace jti) kv).0 ≡ none
    → (refresh_claims d start fresh u id jti kv).0 ≡ ok pair
    → AreWithinDay start id jti rs
    → later < start + 86400000
    → let after = serve_all d rs (refresh_claims d start fresh u id jti kv).1 in
      let second = (refresh_claims d later again v id jti after).0 in
      ((second ≡ ok pair) × (later < start + 25000)) ⊎ (second ≡ err token_revoked)
refresh_claims_once start later id jti fresh again pair d u v rs kv first h times soon =
    refresh_claims-IsUsed_answer start id jti pair later again d v _ soon (
      serve_all-IsUsed start id jti pair d rs (refresh_claims d start fresh u id jti kv).1 times
        (refreshed-IsUsed start id jti fresh pair d u kv first h))
