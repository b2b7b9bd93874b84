-- ===== src/Auth/SignUp.antt =====
-- How accounts come about in src/modules/auth/auth.service.ts: customers by a one-time code or by
-- Google, and administrators with a password. The tokens of the answers are those of `Auth`; the
-- verification of Google's token and bcrypt are libraries.
pub mod Logins
use sports_venue_management.Common.{
  ℕ, Bool, true, false, ◌≡◌, Option, none, some, List, first, ◌==◌, if◌then◌else◌,
}
use sports_venue_management.Common.Text.{text_eq, trim, lower}
use sports_venue_management.Common.Outcome.{
  Result, ok, err, ◌>>=◌, ◌>>◌, throw_if, or_throw, google_unconfigured, google_token_invalid,
  google_payload_invalid, email_unverified, provider_mismatch, admin_exists, bad_credentials,
}
use sports_venue_management.Entities.{Customer, active, Provider, system, google, Role, admin}
use sports_venue_management.Mongo.{Mongo}
use sports_venue_management.Redis.Values.{Values}
use sports_venue_management.Otp.{verify_otp}
use sports_venue_management.User.{find_phone}

-- `ticket.getPayload()`
pub record GooglePayload : Type 0 where
  pub email : Option ℕ
  pub email_verified : Option Bool

-- `email_verified === false`
abbrev pub is_unverified : Option Bool → Bool
is_unverified (some false) = true
is_unverified _ = false

abbrev pub is_true : Option Bool → Bool
is_true (some true) = true
is_true _ = false

-- the guards of `signUpWithGoogle`, up to the address that Google vouches for; a token that did not
-- verify is `none`
unfoldable pub google_email : Bool → Option (Option GooglePayload) → Result (ℕ × GooglePayload)
google_email configured ticket = do
  throw_if (if configured then false else true) google_unconfigured
  t ← or_throw ticket google_token_invalid
  g ← or_throw t google_payload_invalid
  email ← or_throw g.email google_payload_invalid
  throw_if (email == 0) google_payload_invalid
  throw_if (is_unverified g.email_verified) email_unverified
  ok (email, g)

abbrev pub has_email : ℕ → Customer → Bool
has_email email c = elim c.email [ none ↦ false | some e ↦ e == email ]

-- an administrator; the password is stored as its hash
pub record AdminUser : Type 0 where
  pub email : List ℕ
  pub password : Option (List ℕ)
  pub role : Role

-- src/common/services/securityService/hash.ts, which calls bcrypt: a text agrees with its hash
pub record Hashing : Type 0 where
  pub hash : List ℕ → List ℕ
  pub compare : List ℕ → List ℕ → Bool
  pub compare-hash : (text : List ℕ) → compare text (hash text) ≡ true

-- `email.toLowerCase().trim()`
unfoldable pub normalized_email : List ℕ → List ℕ
unfolding lower trim
normalized_email email = trim (lower email)

module _ (mongo : Mongo) where
  open mongo use {Docs, find, update, insert}

  -- `verifyCustomerOtp`: the account of the phone, which a first code creates
  unfoldable pub verify_customer_otp :
      ℕ → ℕ → ℕ → ℕ → Values → Docs Customer → Result (ℕ × Customer) × (Values × Docs Customer)
  unfolding verify_otp find_phone
  verify_customer_otp now phone code fresh kv d =
      let (verified, seen) = verify_otp now phone code kv in
      elim verified [
        | err e ↦ (err e, (seen, d))
        | ok fine ↦ elim (find_phone mongo phone d) [
          | some e ↦ (ok e, (seen, d))
          | none ↦
              let c : Customer = record {
                phone = some phone;
                email = none;
                email_confirmed = false;
                provider = some system;
                status = active;
              } in
              (ok (fresh, c), (seen, insert fresh c d))
        ]
      ]

  -- the account of an address that Google vouches for
  unfoldable pub google_account : ℕ → GooglePayload → ℕ → Docs Customer → Result ℕ × Docs Customer
  google_account email g fresh d = elim (first (find (has_email email) d)) [
    | none ↦
        let c : Customer = record {
          phone = none;
          email = some email;
          email_confirmed = is_true g.email_verified;
          provider = some google;
          status = active;
        } in
        (ok fresh, insert fresh c d)
    | some e ↦ elim e.1.provider [
      | some system ↦ (err provider_mismatch, d)
      | some google ↦ (ok e.0, d)
      | none ↦ (
        ok e.0,
        update e.0
            (λ c. record c {
              provider = some google;
              email_confirmed = elim g.email_verified [ none ↦ c.email_confirmed | some v ↦ v ];
            })
            d,
      )
    ]
  ]

  unfoldable pub sign_up_with_google :
      Bool → Option (Option GooglePayload) → ℕ → Docs Customer → Result ℕ × Docs Customer
  unfolding google_email google_account
  sign_up_with_google configured ticket fresh d = elim (google_email configured ticket) [
    | err e ↦ (err e, d)
    | ok (email, g) ↦ google_account email g fresh d
  ]

  -- `findOne({ email })`
  unfoldable pub find_admin : List ℕ → Docs AdminUser → Option (ℕ × AdminUser)
  find_admin email d = first (find (λ a. text_eq a.email email) d)

  module _ (hashing : Hashing) where
    open hashing use {hash, compare}

    unfoldable pub create_admin_user :
        List ℕ → List ℕ → Option Role → ℕ → Docs AdminUser → Result (ℕ × AdminUser) × Docs AdminUser
    create_admin_user email password role fresh d = elim (find_admin (normalized_email email) d) [
      | some e ↦ (err admin_exists, d)
      | none ↦
          let a : AdminUser = record {
            email = normalized_email email;
            password = some (hash password);
            role = elim role [ none ↦ admin | some r ↦ r ];
          } in
          (ok (fresh, a), insert fresh a d)
    ]

    unfoldable pub login_dashboard : List ℕ → List ℕ → Docs AdminUser → Result (ℕ × AdminUser)
    login_dashboard email password d = do
      e ← or_throw (find_admin (normalized_email email) d) bad_credentials
      stored ← or_throw e.1.password bad_credentials
      throw_if (if compare password stored then false else true) bad_credentials
      ok e
