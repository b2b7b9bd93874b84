-- ===== src/Reports.antt =====
-- The totals of src/modules/reports/reports.service.ts, `getRevenueReport`, over the documents that
-- its queries match: the payments and the wallets' entries of the period and the bookings of its
-- days. A group of an aggregation is the sum over the documents of its key. Tables, time series and
-- percentages are left out.
pub mod Refunds
use sports_venue_management.Common.{
  ℕ, ◌+◌, ◌-◌, Bool, true, false, ◌&&◌, ◌||◌, not, Option, none, some, List, [], ◌∷◌, ltb, length,
  filter, sum_by, if◌then◌else◌,
}
use sports_venue_management.Common.Int.{pos_part, neg_part}
use sports_venue_management.Entities.{
  Booking, BookingStatus, Payment, PaymentMethod, paymob, cash, wallet, PaymentStatus, paid,
  partially_paid, pay_at_venue, Transaction, TransactionType, booking_refund, deduction, status_eq,
  payment_status_eq,
}

abbrev pub method_eq : PaymentMethod → PaymentMethod → Bool
method_eq wallet wallet = true
method_eq paymob paymob = true
method_eq cash cash = true
method_eq _ _ = false

abbrev pub type_eq : TransactionType → TransactionType → Bool
type_eq TransactionType.deposit TransactionType.deposit = true
type_eq deduction deduction = true
type_eq TransactionType.booking_payment TransactionType.booking_payment = true
type_eq booking_refund booking_refund = true
type_eq _ _ = false

-- `$in: ['$status', [paid, partially_paid]]`
abbrev pub counts : Payment → Bool
counts y = payment_status_eq y.status paid || payment_status_eq y.status partially_paid

-- the part of a payment in the two sums of the group of a method
abbrev pub collected : PaymentMethod → Payment → ℕ
collected m y = if method_eq m y.payment_method && counts y then y.amount else 0

abbrev pub given_back : PaymentMethod → Payment → ℕ
given_back m y = if method_eq m y.payment_method then y.refunded_amount else 0

-- a group of `paymentMethodStats`, without its counts, which the report does not read
pub record MethodStats : Type 0 where
  pub total_amount : ℕ
  pub total_refunded : ℕ

unfoldable pub method_stats : PaymentMethod → List Payment → MethodStats
method_stats m ys = record {
  total_amount = sum_by (collected m) ys;
  total_refunded = sum_by (given_back m) ys;
}

-- the part of an entry in the group of a type
abbrev pub moved : TransactionType → Transaction → ℕ
moved k t = if type_eq k t.type then t.amount else 0

-- a group of `walletActivity`
unfoldable pub wallet_activity : TransactionType → List Transaction → ℕ
wallet_activity k ts = sum_by (moved k) ts

-- the bookings that the sums of the amounts read
abbrev pub is_live : Booking → Bool
is_live b = not (status_eq b.status BookingStatus.cancelled)

pub record BookingFinancials : Type 0 where
  pub total_gross : ℕ
  pub total_base_price : ℕ
  -- the discounts that are positive, and those that are negative
  pub discounts : ℕ
  pub surcharges : ℕ
  pub total_paid_amount : ℕ
  pub total_remaining_amount : ℕ
  pub deposit_bookings_count : ℕ
  pub full_paid_bookings_count : ℕ
  pub pay_at_venue_bookings_count : ℕ
  pub cancelled_bookings_count : ℕ
  pub total_bookings_count : ℕ

unfoldable pub booking_financials : List Booking → BookingFinancials
booking_financials bs =
    let live = filter is_live bs in
    let has = λ (s : PaymentStatus) (b : Booking). payment_status_eq b.payment_status s in
    record {
      total_gross =
          sum_by (λ b. elim b.final_price [ none ↦ b.total_price | some price ↦ price ]) live;
      total_base_price = sum_by (λ b. b.total_price) live;
      discounts = sum_by (λ b. pos_part b.discount_amount) live;
      surcharges = sum_by (λ b. neg_part b.discount_amount) live;
      total_paid_amount = sum_by (λ b. b.paid_amount) live;
      total_remaining_amount = sum_by (λ b. b.remaining_amount) (filter (has partially_paid) live);
      deposit_bookings_count = length (filter (has partially_paid) bs);
      full_paid_bookings_count = length (filter (has paid) bs);
      pay_at_venue_bookings_count = length (filter (has pay_at_venue) bs);
      cancelled_bookings_count = length (filter (λ b. not (is_live b)) bs);
      total_bookings_count = length bs;
    }

-- The amounts of the `summary`. `net_revenue` is
-- `Math.max(0, grossRevenue - discountSavings - totalRefunds)`.
pub record Summary : Type 0 where
  pub gross_revenue : ℕ
  pub net_revenue : ℕ
  pub total_refunds : ℕ
  pub refunds_wallet : ℕ
  pub refunds_cash_payout : ℕ
  pub card_refunds : ℕ
  pub total_collected_payments : ℕ
  pub card_revenue : ℕ
  pub cash_revenue : ℕ
  pub wallet_revenue : ℕ
  pub physical_cash_inflow : ℕ
  pub outstanding_deposit_balance : ℕ

unfoldable pub gross_of : BookingFinancials → ℕ
gross_of f = if ltb 0 f.total_base_price then f.total_base_price else f.total_gross

unfoldable pub refunds_of : List Payment → List Transaction → ℕ
unfolding method_stats wallet_activity
refunds_of ys ts =
    wallet_activity booking_refund ts
    + wallet_activity deduction ts
    + (method_stats paymob ys).total_refunded

unfoldable pub revenue_summary : List Payment → List Transaction → List Booking → Summary
unfolding method_stats wallet_activity booking_financials gross_of refunds_of
revenue_summary ys ts bs =
    let f = booking_financials bs in
    let card = (method_stats paymob ys).total_amount in
    let at_venue = (method_stats cash ys).total_amount in
    let by_wallet = (method_stats wallet ys).total_amount in
    record {
      gross_revenue = gross_of f;
      net_revenue = gross_of f + f.surcharges - (f.discounts + refunds_of ys ts);
      total_refunds = refunds_of ys ts;
      refunds_wallet = wallet_activity booking_refund ts;
      refunds_cash_payout = wallet_activity deduction ts;
      card_refunds = (method_stats paymob ys).total_refunded;
      total_collected_payments = card + at_venue + by_wallet;
      card_revenue = card;
      cash_revenue = at_venue;
      wallet_revenue = by_wallet;
      physical_cash_inflow = card + at_venue;
      outstanding_deposit_balance = f.total_remaining_amount;
    }
