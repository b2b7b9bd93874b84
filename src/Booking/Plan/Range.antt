-- ===== src/Booking/Plan/Range.antt =====
-- The range of a payment plan.
use sports_venue_management.Common.{
  ℕ, ◌≤◌, ◌<◌, ◌≡◌, ◌↔◌, true, Option, none, some, inl, inr, arith,
}
use sports_venue_management.Common.Outcome.{ok, err, Result-cases, below_deposit, above_total}
use sports_venue_management.Booking.Plan.{
  PaymentPlan, payment_plan, deposit_of, min_required_deposit, offered,
}

-- An accepted plan asks for at least the required deposit and at most the final price, and it is a
-- deposit exactly if it is less than the final price.
pub payment_plan_range :
    (minimum custom : Option ℕ) (slots final : ℕ) (p : PaymentPlan)
    → payment_plan minimum custom slots final ≡ ok p
    → (min_required_deposit (deposit_of minimum) slots final ≤ p.amount_to_pay)
      × (p.amount_to_pay ≤ final)
      × ((p.is_deposit_only ≡ true) ↔ (p.amount_to_pay < final))
unfolding payment_plan
payment_plan_range minimum custom slots final p h = ground arith

-- Only an offer outside that range is refused: without one, or with one that is 0, there is a plan.
pub payment_plan_refusal :
    (minimum custom : Option ℕ) (slots final : ℕ)
    → (offered custom ≡ none → (p : PaymentPlan) × (payment_plan minimum custom slots final ≡ ok p))
      × ((offer : ℕ)
          → offered custom ≡ some offer
          → (offer < min_required_deposit (deposit_of minimum) slots final
              → payment_plan minimum custom slots final ≡ err below_deposit)
            × (final < offer
                → min_required_deposit (deposit_of minimum) slots final ≤ offer
                → payment_plan minimum custom slots final ≡ err above_total))
unfolding payment_plan
payment_plan_refusal minimum custom slots final = (
  (λ none_offered. elim (Result-cases (payment_plan minimum custom slots final)) [
    | inl (e, refused) ↦ absurd (ground arith)
    | inr (p, planned) ↦ (p, planned)
  ]),
  λ offer e. ((λ short. ground arith), λ over enough. ground arith),
)
