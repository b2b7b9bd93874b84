-- ===== src/Examples/Coupons.antt =====
-- The theorems on the coupons, applied.
use sports_venue_management.Common.{◌≡◌, ◌≢◌, refl, true, none, some, [], ◌∷◌, arith}
use sports_venue_management.Common.Text.{normalize}
use sports_venue_management.Common.Outcome.{ok, ◌>>◌}
use sports_venue_management.Entities.{Coupon, DiscountType}
use sports_venue_management.Mongo.{list_mongo}
use sports_venue_management.Mongo.ListStore.{get, matching, drop_id}
use sports_venue_management.Coupon.{
  CouponBody, create_coupon, validate_coupon, calculate_coupon_discount, redeemable,
}
use sports_venue_management.Coupon.Lookup.{HasUniqueCodes, create_coupon-validate_coupon}

-- a coupon of 20 percent with the code "ab"
abbrev coupon_body : CouponBody
coupon_body = record {
  code = none;
  discount_type = some DiscountType.percentage;
  discount = some 2000;
  start_date = some 0;
  end_date = some 100;
  max_uses = some 3;
  uses_count = none;
  is_active = none;
}

abbrev ab : Coupon
ab = record {
  code = 65 ∷ 66 ∷ [];
  discount = 2000;
  discount_type = DiscountType.percentage;
  start_date = 0;
  end_date = 100;
  max_uses = 3;
  uses_count = 0;
  is_active = true;
  created_by = 1;
}

abbrev cd : Coupon
cd = record ab { code = 67 ∷ 68 ∷ [] }

create_coupon-validate_coupon_example :
    validate_coupon list_mongo
      (32 ∷ 97 ∷ 66 ∷ [])
      10000
      50
      (create_coupon list_mongo coupon_body (97 ∷ 98 ∷ []) 1 11 ((10, cd) ∷ [])).1
    ≡ (redeemable ab 50 >> ok (calculate_coupon_discount DiscountType.percentage 2000 10000))
unfolding create_coupon get matching drop_id normalize
create_coupon-validate_coupon_example =
    create_coupon-validate_coupon list_mongo coupon_body (97 ∷ 98 ∷ []) (32 ∷ 97 ∷ 66 ∷ []) 1 11
      10000 50 ((10, cd) ∷ []) (ab, true) refl refl refl

one_coupon : HasUniqueCodes list_mongo ((10, cd) ∷ [])
unfolding get
one_coupon i j b c at_i at_j same = ground arith

author_is_one : (c : Coupon) → get ((10, cd) ∷ []) 10 ≡ some c → c.created_by ≢ 2
unfolding get
author_is_one c h e = ground arith
