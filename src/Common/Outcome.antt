-- ===== src/Common/Outcome.antt =====
-- The exceptions that the services throw, one constructor for each message, and calls that may
-- throw. What was written before a throw stays written, so the state comes back beside the error.
use mathlib.Core.Path.{◌≡◌, refl}
use mathlib.Core.Logic.{◌⊎◌, inl, inr}
use mathlib.Core.Bool.{Bool, true, false}
use mathlib.Core.Option.{Option, none, some}

pub data Error : Type 0 where
  -- booking.service.ts
  no_slots start_out_of_day end_out_of_day start_not_before_end slots_overlap : Error
  slot_in_past slot_busy slot_taken venue_not_found venue_inactive outside_hours : Error
  account_suspended account_archived below_deposit above_total unsupported_method : Error
  booking_not_found not_your_booking booking_closed booking_paid hold_expired : Error
  key_reused key_busy already_cancelled completed_final too_late_to_cancel nothing_to_update
        just_booked :
      Error
  -- coupon.service.ts
  coupon_not_found coupon_exists coupon_inactive coupon_used_up coupon_early coupon_late
        coupon_out_of_date :
      Error
  -- wallet.service.ts
  bad_user bad_amount insufficient wallet_exists wallet_lost : Error
  -- payment.service.ts
  payment_not_found payment_paid payment_refunded not_refundable refund_too_large : Error
  bad_signature : Error
  -- otp.service.ts
  otp_rate_limited otp_invalid : Error
  -- auth.service.ts and tokenService.ts
  token_invalid token_without_claims token_revoked user_not_found : Error
  -- advertisement.service.ts
  ad_not_found ad_ends_early : Error
  -- venue.service.ts
  venue_exists venue_image_not_found bad_amenity : Error
  -- user.service.ts, and the sign-ups of auth.service.ts
  customer_not_found customer_exists phone_taken : Error
  google_unconfigured google_token_invalid google_payload_invalid email_unverified
        provider_mismatch :
      Error
  admin_exists bad_credentials email_blocked email_waits too_many_codes : Error
  -- what the database and the driver throw: a duplicate key, a server without transactions, or
  -- anything else
  duplicate_key no_replica_set store_failure : Error

pub data Result {ℓ} (A : Type ℓ) : Type ℓ where
  ok : A → Result A
  err : Error → Result A

-- `if (test) throw`
abbrev pub throw_if : Bool → Error → Result (Unit {0})
throw_if false e = ok tt
throw_if true e = err e

-- a value that has to be there
abbrev pub or_throw {ℓ} : {A : Type ℓ} → Option A → Error → Result A
or_throw (some a) e = ok a
or_throw none e = err e

-- calls one after the other; the first that throws is the last
module _ {ℓ κ} {A : Type ℓ} {B : Type κ} where
  infixl 5 ◌>>=◌
  abbrev pub ◌>>=◌ : Result A → (A → Result B) → Result B
  err thrown >>= next = err thrown
  ok returned >>= next = next returned

  -- both calls of a sequence that returned have returned
  pub >>=-eq-ok :
      (first : Result A) (next : A → Result B) {final : B}
      → (first >>= next) ≡ ok final
      → (returned : A) × (first ≡ ok returned) × (next returned ≡ ok final)
  >>=-eq-ok (err thrown) next h = cc
  >>=-eq-ok (ok returned) next h = (returned, refl, h)

-- a guard and what it guards
infixl 5 ◌>>◌
abbrev pub ◌>>◌ {ℓ} : {A : Type ℓ} → Result (Unit {0}) → Result A → Result A
check >> rest = check >>= λ u. rest

pub Result-cases {ℓ} :
    {A : Type ℓ} (r : Result A) → ((e : Error) × (r ≡ err e)) ⊎ ((a : A) × (r ≡ ok a))
Result-cases (err e) = inl (e, refl)
Result-cases (ok a) = inr (a, refl)

-- A guard that did not throw returned the one value of its type.
pub unit_ok : (r : Result (Unit {0})) {u : Unit {0}} → r ≡ ok u → r ≡ ok tt
unit_ok r h = h

pub ok-injective {ℓ} : {A : Type ℓ} {a b : A} → Result.ok a ≡ ok b → a ≡ b
ok-injective h = cc (h)
