-- ===== src/Auth.antt =====
-- src/modules/auth/auth.service.ts and src/common/services/token/tokenService.ts: what becomes of a
-- pair of tokens. Signing and verifying are the JWT library's: a token is what its verification
-- returns. The two tokens of a pair share one identifier, `jti`, which also names the pair.
pub mod Marks
pub mod Used
pub mod Rotation
pub mod Logouts
pub mod SignUp
use sports_venue_management.Common.{
  ℕ, ◌*◌, Bool, ◌||◌, true, false, Option, none, some, List, [], ◌∷◌, if◌then◌else◌,
}
use sports_venue_management.Common.Outcome.{
  Error, Result, ok, err, token_invalid, token_without_claims, token_revoked, user_not_found,
}
use sports_venue_management.Redis.Values.{Key, refresh_grace, revoked, Values, set_value, get_value}

-- `decoded.userType`
pub data UserType : Type 0 where
  customer admin unknown : UserType

-- the payload of a token
pub record Claims : Type 0 where
  pub id : Option ℕ
  pub jti : Option ℕ
  pub user_type : UserType

-- a stored user: whether the document has a `walletBalance`
pub record Account : Type 0 where
  pub has_wallet_balance : Bool

-- `customerUserRepo` and `adminUserRepo`
pub record Directory : Type 0 where
  pub customers : ℕ → Option Account
  pub admins : ℕ → Option Account

-- `user`, looked up by its type
unfoldable pub find_user : Directory → UserType → ℕ → Option Account
find_user d customer id = d.customers id
find_user d admin id = d.admins id
find_user d unknown id = elim (d.customers id) [ some a ↦ some a | none ↦ d.admins id ]

-- `isCustomer`
unfoldable pub is_customer : UserType → Account → Bool
is_customer customer a = true
is_customer _ a = a.has_wallet_balance

-- the times to live, in seconds
abbrev pub grace_ttl : ℕ
grace_ttl = 25

abbrev pub day_ttl : ℕ
day_ttl = 24 * 3600

abbrev pub month_ttl : ℕ
month_ttl = 30 * 24 * 3600

abbrev pub week_ttl : ℕ
week_ttl = 7 * 24 * 3600

abbrev pub refresh_ttl : Bool → ℕ
refresh_ttl of_customer = if of_customer then month_ttl else week_ttl

-- `refreshToken` from the payload on; `fresh` is the new `randomUUID()`, and the pair that the
-- answer carries is named by its `jti`
unfoldable pub refresh_claims : Directory → ℕ → ℕ → UserType → ℕ → ℕ → Values → Result ℕ × Values
unfolding find_user is_customer get_value set_value
refresh_claims d now fresh user_type id jti kv =
    let (cached, seen) = get_value now (refresh_grace jti) kv in
    elim cached [
      | some pair ↦ (ok pair, seen)
      | none ↦
          let (mark, looked) = get_value now (revoked id jti) seen in
          elim mark [
            | some m ↦ (err token_revoked, looked)
            | none ↦ elim (find_user d user_type id) [
              | none ↦ (err user_not_found, looked)
              | some a ↦ (
                ok fresh,
                set_value now (revoked id jti) 1 (refresh_ttl (is_customer user_type a))
                    (set_value now (refresh_grace jti) fresh grace_ttl looked),
              )
            ]
          ]
    ]

unfoldable pub refresh_token : Directory → ℕ → ℕ → Option Claims → Values → Result ℕ × Values
refresh_token d now fresh none kv = (err token_invalid, kv)
refresh_token d now fresh (some c) kv = elim c.jti [
  | none ↦ (err token_without_claims, kv)
  | some jti ↦ elim c.id [
    | none ↦ (err token_without_claims, kv)
    | some id ↦ refresh_claims d now fresh c.user_type id jti kv
  ]
]

-- the mark that `logout` leaves for one token
unfoldable pub revoke : ℕ → ℕ → Option Claims → Values → Values
unfolding set_value
revoke now ttl none kv = kv
revoke now ttl (some c) kv = elim c.id [
  | none ↦ kv
  | some id ↦ elim c.jti [ none ↦ kv | some jti ↦ set_value now (revoked id jti) 1 ttl kv ]
]

-- `logout`: the payload of the access token, and the refresh token if the body has a valid one
unfoldable pub logout : ℕ → Option Claims → Option Claims → Values → Values
unfolding revoke
logout now access refresh kv = revoke now month_ttl refresh (revoke now day_ttl access kv)

-- `authenticateToken_fetchUser`
unfoldable pub authenticate : Directory → ℕ → Option Claims → Values → Result Account × Values
unfolding find_user get_value
authenticate d now none kv = (err token_invalid, kv)
authenticate d now (some c) kv = elim c.jti [
  | none ↦ (err token_without_claims, kv)
  | some jti ↦ elim c.id [
    | none ↦ (err token_without_claims, kv)
    | some id ↦ elim (find_user d c.user_type id) [
      | none ↦ (err user_not_found, kv)
      | some a ↦
          let (mark, looked) = get_value now (revoked id jti) kv in
          elim mark [ some m ↦ (err token_revoked, looked) | none ↦ (ok a, looked) ]
    ]
  ]
]

-- The requests that read or write these values, in the order in which they come.
pub data Request : Type 0 where
  refresh : ℕ → Option Claims → Request
  log_out : Option Claims → Option Claims → Request
  access : Option Claims → Request

unfoldable pub serve : Directory → ℕ → Request → Values → Values
unfolding refresh_token logout authenticate
serve d now (refresh fresh c) kv = (refresh_token d now fresh c kv).1
serve d now (log_out a r) kv = logout now a r kv
serve d now (access c) kv = (authenticate d now c kv).1

unfoldable pub serve_all : Directory → List (ℕ × Request) → Values → Values
unfolding serve
serve_all d [] kv = kv
serve_all d (e ∷ rest) kv = serve_all d rest (serve d e.0 e.1 kv)
