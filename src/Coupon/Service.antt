-- ===== src/Coupon/Service.antt =====
-- src/modules/coupon/coupon.service.ts, over a store of coupons. The announcement of a new coupon is
-- the second result of `create_coupon`.
use sports_venue_management.Common.{
  ℕ, Bool, true, not, Option, none, some, List, [], ◌∷◌, first, ltb, leb, ◌==◌, if◌then◌else◌,
}
use sports_venue_management.Common.Outcome.{
  Result, ok, err, ◌>>=◌, ◌>>◌, throw_if, or_throw, coupon_not_found, coupon_exists,
  coupon_inactive, coupon_used_up, coupon_early, coupon_late, store_failure,
}
use sports_venue_management.Common.Text.{normalize, text_eq}
use sports_venue_management.Entities.{percentage, Coupon, DiscountType}
use sports_venue_management.Mongo.{Mongo}
use sports_venue_management.Coupon.Calculator.{DiscountResult, calculate_coupon_discount}

-- The fields of `CreateCouponDto` and `UpdateCouponDto`; a field left out is `none`.
pub record CouponBody : Type 0 where
  pub code : Option (List ℕ)
  pub discount_type : Option DiscountType
  pub discount : Option ℕ
  pub start_date : Option ℕ
  pub end_date : Option ℕ
  pub max_uses : Option ℕ
  pub uses_count : Option ℕ
  pub is_active : Option Bool

abbrev pub or_default {ℓ} : {A : Type ℓ} → Option A → A → A
or_default none d = d
or_default (some a) d = a

-- `if (value) field = value` on a number: a missing value and 0 keep the field.
abbrev pub if_truthy : Option ℕ → ℕ → ℕ
if_truthy none old = old
if_truthy (some v) old = if v == 0 then old else v

abbrev pub if_text : Option (List ℕ) → List ℕ → List ℕ
if_text none old = old
if_text (some []) old = old
if_text (some (c ∷ s)) old = normalize (c ∷ s)

-- the assignments of `updateCoupon`
unfoldable pub patch : CouponBody → Coupon → Coupon
patch body c = record {
  code = if_text body.code c.code;
  discount = if_truthy body.discount c.discount;
  discount_type = or_default body.discount_type c.discount_type;
  start_date = or_default body.start_date c.start_date;
  end_date = or_default body.end_date c.end_date;
  max_uses = if_truthy body.max_uses c.max_uses;
  uses_count = if_truthy body.uses_count c.uses_count;
  is_active = or_default body.is_active c.is_active;
  created_by = c.created_by;
}

-- the document of `createCoupon`; the schema requires every field but the two with defaults
unfoldable pub new_coupon : CouponBody → List ℕ → ℕ → Result Coupon
new_coupon body code author = do
  discount ← or_throw body.discount store_failure
  start_date ← or_throw body.start_date store_failure
  end_date ← or_throw body.end_date store_failure
  max_uses ← or_throw body.max_uses store_failure
  ok (record {
    code = code;
    discount = discount;
    discount_type = or_default body.discount_type percentage;
    start_date = start_date;
    end_date = end_date;
    max_uses = max_uses;
    uses_count = or_default body.uses_count 0;
    is_active = or_default body.is_active true;
    created_by = author;
  })

-- what `validateCoupon` tests of a coupon it has found, and what it returns
unfoldable pub redeemable : Coupon → ℕ → Result (Unit {0})
redeemable c now = do
  throw_if (not c.is_active) coupon_inactive
  throw_if (leb c.max_uses c.uses_count) coupon_used_up
  throw_if (ltb now c.start_date) coupon_early
  throw_if (ltb c.end_date now) coupon_late

module _ (mongo : Mongo) where
  open mongo use {Docs, find, find_by_id, update, insert, delete}

  -- `findOne({ filter: { code } })`
  unfoldable pub find_coupon : List ℕ → Docs Coupon → Option (ℕ × Coupon)
  find_coupon code d = first (find (λ c. text_eq c.code code) d)

  -- `findOne({ filter: { _id: id, createdBy: user._id } })`
  unfoldable pub find_own : ℕ → ℕ → Docs Coupon → Result Coupon
  find_own id author d = do
    c ← or_throw (find_by_id d id) coupon_not_found
    throw_if (not (c.created_by == author)) coupon_not_found
    ok c

  -- `fresh` is the identifier that the driver gives the new document.
  unfoldable pub create_coupon :
      CouponBody → List ℕ → ℕ → ℕ → Docs Coupon → Result (Coupon × Bool) × Docs Coupon
  unfolding find_coupon new_coupon
  create_coupon body code author fresh d =
      let normalized_code = normalize code in
      elim (find_coupon normalized_code d) [
        | some other ↦ (err coupon_exists, d)
        | none ↦ elim (new_coupon body normalized_code author) [
          | err e ↦ (err e, d)
          | ok c ↦ (ok (c, or_default body.is_active true), insert fresh c d)
        ]
      ]

  unfoldable pub update_coupon : ℕ → CouponBody → ℕ → Docs Coupon → Result Coupon × Docs Coupon
  unfolding find_own patch
  update_coupon id body author d = elim (find_own id author d) [
    | err e ↦ (err e, d)
    | ok c ↦ (ok (patch body c), update id (patch body) d)
  ]

  unfoldable pub delete_coupon : ℕ → ℕ → Docs Coupon → Result (Unit {0}) × Docs Coupon
  unfolding find_own
  delete_coupon id author d = elim (find_own id author d) [
    | err e ↦ (err e, d)
    | ok c ↦ (ok tt, delete id d)
  ]

  unfoldable pub validate_coupon : List ℕ → ℕ → ℕ → Docs Coupon → Result DiscountResult
  unfolding find_coupon redeemable
  validate_coupon code booking_amount now d = do
    (_, c) ← or_throw (find_coupon (normalize code) d) coupon_not_found
    redeemable c now
    ok (calculate_coupon_discount c.discount_type c.discount booking_amount)
