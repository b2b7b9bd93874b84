-- ===== src/Coupon.antt =====
-- src/modules/coupon: the discount of a coupon, and the coupons themselves.
mod Calculator
mod Service
pub mod Bounds
pub mod Lookup
pub use Calculator.{DiscountResult}
unfoldable pub use Calculator.{calculate_coupon_discount}
pub use Service.{CouponBody}
unfoldable pub use Service.{
  redeemable, create_coupon, update_coupon, delete_coupon, validate_coupon, find_coupon,
}
