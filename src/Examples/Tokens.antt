-- ===== src/Examples/Tokens.antt =====
-- The theorems on tokens, applied.
use sports_venue_management.Common.{
  ℕ, ◌<◌, ◌≤◌, ◌≡◌, ◌⊎◌, refl, false, none, some, List, [], ◌∷◌, arith,
}
use sports_venue_management.Common.Outcome.{ok, err, token_revoked}
use sports_venue_management.Redis.Values.{Values}
use sports_venue_management.Auth.{
  UserType, Claims, Directory, find_user, Request, refresh, log_out, access, refresh_claims, logout,
  serve_all,
}
use sports_venue_management.Auth.Rotation.{refresh_claims_once}
use sports_venue_management.Auth.Logouts.{refresh_claims-logout}

abbrev empty : Values
empty key = none

-- one customer, the user 7
abbrev directory : Directory
directory = record {
  customers = λ id. some (record { has_wallet_balance = false });
  admins = λ id. none;
}

abbrev claims : Claims
claims = record { id = some 7; jti = some 70; user_type = UserType.customer }

-- the token again, a logout with it, and a request with the access token
abbrev requests : List (ℕ × Request)
requests =
    (2000, refresh 72 (some claims))
    ∷ (3000, log_out (some claims) none)
    ∷ (4000, access (some claims))
    ∷ []

refresh_claims_once_example :
    let after =
      serve_all directory requests
        (refresh_claims directory 1000 71 UserType.customer 7 70 empty).1 in
    let second = (refresh_claims directory 50000 73 UserType.customer 7 70 after).0 in
    ((second ≡ ok 71) × (50000 < 26000)) ⊎ (second ≡ err token_revoked)
unfolding refresh_claims
refresh_claims_once_example =
    refresh_claims_once 1000 50000 7 70 71 73 71 directory UserType.customer UserType.customer
      requests empty refl refl
      (
        (omega arith, omega arith, λ h. refl),
        ((omega arith, omega arith, tt), ((omega arith, omega arith, tt), tt)),
      )
      (omega arith)

refresh_claims-logout_example :
    let answer =
      (refresh_claims directory 90000000 71 UserType.customer 7 70
        (logout 1000 (some claims) none empty)).0 in
    (90000000 < 86401000 → answer ≡ err token_revoked) × (86401000 ≤ 90000000 → answer ≡ ok 71)
unfolding find_user
refresh_claims-logout_example =
    refresh_claims-logout 1000 90000000 7 70 71 claims directory UserType.customer
      (record { has_wallet_balance = false }) empty refl refl refl refl
