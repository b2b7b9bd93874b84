-- ===== src/Booking/Plan.antt =====
-- What has to be paid now: the deposit rules, which `createBooking` and `payBooking` share. The
-- venue's minimum deposit is for each slot; `custom` is the amount that the customer offers.
pub mod Range
use sports_venue_management.Common.{
  ℕ, ◌*◌, min, Bool, true, false, Option, none, some, ltb, ◌==◌, if◌then◌else◌,
}
use sports_venue_management.Common.Outcome.{
  Result, ok, err, ◌>>=◌, ◌>>◌, throw_if, below_deposit, above_total,
}

pub record PaymentPlan : Type 0 where
  pub amount_to_pay : ℕ
  pub is_deposit_only : Bool

-- `depositConfigured`, with the deposit for each slot
unfoldable pub deposit_of : Option ℕ → Option ℕ
deposit_of none = none
deposit_of (some amount) = if ltb 0 amount then some amount else none

-- `minRequiredDeposit`
unfoldable pub min_required_deposit : Option ℕ → ℕ → ℕ → ℕ
min_required_deposit none slots final = final
min_required_deposit (some amount) slots final = min (slots * amount) final

-- `customAmount`, where it is a number above 0
unfoldable pub offered : Option ℕ → Option ℕ
offered none = none
offered (some amount) = if ltb 0 amount then some amount else none

-- the plan for the amount to pay out of the group's final price
abbrev pub plan_of : ℕ → ℕ → PaymentPlan
plan_of amount final = record { amount_to_pay = amount; is_deposit_only = ltb amount final }

unfoldable pub payment_plan : Option ℕ → Option ℕ → ℕ → ℕ → Result PaymentPlan
unfolding deposit_of min_required_deposit offered
payment_plan minimum_deposit custom slots final =
    let deposit = deposit_of minimum_deposit in
    let required = min_required_deposit deposit slots final in
    elim (offered custom) [
      | some amount ↦ do
        throw_if (ltb amount required) below_deposit
        throw_if (ltb final amount) above_total
        ok (plan_of amount final)
      | none ↦ elim deposit [
        | some each ↦ ok (plan_of required final)
        | none ↦ ok (record { amount_to_pay = final; is_deposit_only = false })
      ]
    ]
