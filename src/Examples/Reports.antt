-- ===== src/Examples/Reports.antt =====
-- The theorem on the report on revenue, applied.
use sports_venue_management.Common.{◌+◌, ◌-◌, ◌*◌, ◌≡◌, refl, some, [], ◌∷◌}
use sports_venue_management.Entities.{Payment, PaymentMethod, Transaction, TransactionType}
use sports_venue_management.Payment.Service.{check_refund, refund_amount, available, refund_part}
use sports_venue_management.Reports.{revenue_summary}
use sports_venue_management.Reports.Refunds.{refund_part-revenue_summary}
use sports_venue_management.Examples.Data.{payment, paid_booking}

abbrev card_payment : Payment
card_payment = record payment { payment_method = PaymentMethod.paymob }

abbrev entry : Transaction
entry = record {
  wallet_user = 7;
  type = TransactionType.booking_refund;
  amount = 5000;
  balance_before = 0;
  balance_after = 5000;
  reference_id = some 100;
}

refund_part-revenue_summary_example :
    let old = revenue_summary (payment ∷ card_payment ∷ []) [] (paid_booking ∷ []) in
    let new =
      revenue_summary
        (payment ∷ refund_part 5000 card_payment ∷ [])
        (entry ∷ [])
        (paid_booking ∷ []) in
    (new.total_refunds ≡ old.total_refunds + 2 * 5000)
    × (new.net_revenue ≡ old.net_revenue - 2 * 5000)
    × (new.card_revenue + 0 ≡ old.card_revenue)
    × (new.physical_cash_inflow + 0 ≡ old.physical_cash_inflow)
    × (new.total_collected_payments + 0 ≡ old.total_collected_payments)
unfolding check_refund refund_amount available
refund_part-revenue_summary_example =
    refund_part-revenue_summary (payment ∷ []) [] card_payment (some 5000) entry []
      (paid_booking ∷ []) tt refl refl refl refl
