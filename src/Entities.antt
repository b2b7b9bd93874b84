-- ===== src/Entities.antt =====
-- The documents of the collections (the entities folders of src/modules) and the enumerations of
-- src/common/enums. Amounts are hundredths of a pound, instants are milliseconds, identifiers and
-- codes that are only compared are numbers. Amounts that a schema defaults to 0 are plain numbers.
use sports_venue_management.Common.{ℕ, Bool, true, false, Option, List}
use sports_venue_management.Common.Int.{ℤ}

-- bookingEnum.ts
pub data BookingStatus : Type 0 where
  pending confirmed cancelled completed expired no_show : BookingStatus

pub data PaymentStatus : Type 0 where
  unpaid paid partially_paid refunded pay_at_venue : PaymentStatus

pub data PaymentMethod : Type 0 where
  wallet paymob cash : PaymentMethod

-- couponEnum.ts
pub data DiscountType : Type 0 where
  percentage fixed : DiscountType

-- userEnum.ts
pub data Role : Type 0 where
  user customer admin super_admin owner manager : Role

pub data CustomerStatus : Type 0 where
  active hold suspended inactive archived : CustomerStatus

pub data Provider : Type 0 where
  system google : Provider

-- walletEnum.ts
pub data TransactionType : Type 0 where
  deposit deduction booking_payment booking_refund : TransactionType

-- booking.entity.ts
pub record Booking : Type 0 where
  pub user_id : ℕ
  pub venue_id : ℕ
  pub group_id : Option ℕ
  pub date : ℕ
  pub start_time : ℕ
  pub end_time : ℕ
  pub total_price : ℕ
  pub status : BookingStatus
  pub payment_status : PaymentStatus
  pub coupon_id : Option ℕ
  pub coupon_code : Option (List ℕ)
  pub discount_type : Option DiscountType
  pub discount_value : Option ℕ
  pub discount_amount : ℤ
  pub final_price : Option ℕ
  pub paid_amount : ℕ
  pub remaining_amount : ℕ
  pub payment_method : Option PaymentMethod
  pub expires_at : Option ℕ
  pub idempotency_key : Option ℕ
  pub request_hash : Option ℕ
  pub morning_reminder_sent : Bool
  pub two_hour_reminder_sent : Bool
  pub cancelled_by_system : Bool
  pub cash_collected_by : Option ℕ

-- payment.entity.ts
pub record Payment : Type 0 where
  pub booking_id : Option ℕ
  pub group_id : Option ℕ
  pub user_id : ℕ
  pub amount : ℕ
  pub payment_method : PaymentMethod
  pub transaction_id : ℕ
  pub paymob_transaction_id : Option ℕ
  pub status : PaymentStatus
  pub paid_at : Option ℕ
  pub refunded_amount : ℕ
  pub wallet_deduction : ℕ
  pub collected_by : Option ℕ

-- wallet.entity.ts; the document is found by its unique index `userId`
pub record Wallet : Type 0 where
  pub balance : ℕ

-- wallet-transaction.entity.ts; the wallet is named by its user
pub record Transaction : Type 0 where
  pub wallet_user : ℕ
  pub type : TransactionType
  pub amount : ℕ
  pub balance_before : ℕ
  pub balance_after : ℕ
  pub reference_id : Option ℕ

-- coupon.entity.ts
pub record Coupon : Type 0 where
  pub code : List ℕ
  pub discount : ℕ
  pub discount_type : DiscountType
  pub start_date : ℕ
  pub end_date : ℕ
  pub max_uses : ℕ
  pub uses_count : ℕ
  pub is_active : Bool
  pub created_by : ℕ

-- venue.entity.ts
pub record HourPrice : Type 0 where
  pub hour : ℕ
  pub price_per_hour : ℕ

pub record DatePrice : Type 0 where
  pub date : ℕ
  pub start_hour : ℕ
  pub end_hour : ℕ
  pub price_per_hour : ℕ

pub record Venue : Type 0 where
  pub name : List ℕ
  pub images : List (List ℕ)
  -- those that are set to true
  pub amenities : List (List ℕ)
  pub working_hours : ℤ
  pub start_working_hours : ℕ
  pub end_working_hours : ℕ
  pub default_hour_price : ℕ
  pub custom_hour_prices : List HourPrice
  pub custom_date_prices : List DatePrice
  pub minimum_deposit_amount : Option ℕ
  pub is_active : Bool
  pub created_by : Option ℕ
  pub is_deleted : Bool

-- customer-user.entity.ts; 0 is the empty text
pub record Customer : Type 0 where
  pub phone : Option ℕ
  pub email : Option ℕ
  pub email_confirmed : Bool
  pub provider : Option Provider
  pub status : CustomerStatus

-- Equality of the enumerations, as `===` on their strings.
abbrev pub status_eq : BookingStatus → BookingStatus → Bool
status_eq pending pending = true
status_eq confirmed confirmed = true
status_eq cancelled cancelled = true
status_eq completed completed = true
status_eq expired expired = true
status_eq no_show no_show = true
status_eq _ _ = false

abbrev pub payment_status_eq : PaymentStatus → PaymentStatus → Bool
payment_status_eq unpaid unpaid = true
payment_status_eq paid paid = true
payment_status_eq partially_paid partially_paid = true
payment_status_eq refunded refunded = true
payment_status_eq pay_at_venue pay_at_venue = true
payment_status_eq _ _ = false

abbrev pub customer_status_eq : CustomerStatus → CustomerStatus → Bool
customer_status_eq active active = true
customer_status_eq hold hold = true
customer_status_eq suspended suspended = true
customer_status_eq inactive inactive = true
customer_status_eq archived archived = true
customer_status_eq _ _ = false

-- `[admin, superAdmin, owner, manager].includes(role)`
abbrev pub is_staff : Role → Bool
is_staff admin = true
is_staff super_admin = true
is_staff owner = true
is_staff manager = true
is_staff _ = false
