-- ===== src/Wallet/Refinement.antt =====
-- What the wallets promise, as a relation on the balances alone, and that the service keeps it.
use sports_venue_management.Common.{
  ℕ, ◌+◌, ◌≤◌, ◌≡◌, refl, ap, Bool, true, false, Option, some, List, [], ◌∷◌, map, sum_by, arith,
  ◌==◌, if◌then◌else◌,
}
use sports_venue_management.Common.Outcome.{Result, ok, err}
use sports_venue_management.Entities.{
  Wallet, Transaction, TransactionType, deduction, booking_payment, booking_refund,
}
use sports_venue_management.Mongo.{Mongo}
use sports_venue_management.Wallet.Service.{
  Accounts, Faults, deposit, process_deduction, pay_for_booking, refund_booking,
}
use sports_venue_management.Wallet.Moves.{
  Credited, Debited, deposit-Credited, process_deduction-Debited,
}
use sports_venue_management.Wallet.Payments.{pay_for_booking-Debited, refund_booking-Credited}
use sports_venue_management.Wallet.Balances.{balance_of}

-- The calls of the service that move money: the user, the amount, and the booking or the reference.
pub data Call : Type 0 where
  adding taking : ℕ → ℕ → Option ℕ → Call
  paying refunding : ℕ → ℕ → ℕ → Call

abbrev pub user_of : Call → ℕ
user_of (adding u amount reference) = u
user_of (taking u amount reference) = u
user_of (paying u amount booking) = u
user_of (refunding u amount booking) = u

abbrev pub amount_of : Call → ℕ
amount_of (adding u amount reference) = amount
amount_of (taking u amount reference) = amount
amount_of (paying u amount booking) = amount
amount_of (refunding u amount booking) = amount

abbrev pub goes_in : Call → Bool
goes_in (adding u amount reference) = true
goes_in (refunding u amount booking) = true
goes_in _ = false

-- the part of a call in one user's balance
abbrev pub share_of : ℕ → Call → ℕ
share_of v call = if user_of call == v then amount_of call else 0

-- One call, on the balances, and whether it is answered with a success: then its amount comes in, or
-- its amount, which was there, goes out; otherwise nothing moves.
pub data Step : (ℕ → ℕ) → Call → Bool → (ℕ → ℕ) → Type 0 where
  came_in :
      {b c : ℕ → ℕ} {call : Call}
      → goes_in call ≡ true
      → ((v : ℕ) → c v ≡ b v + share_of v call)
      → Step b call true c
  went_out :
      {b c : ℕ → ℕ} {call : Call}
      → goes_in call ≡ false
      → ((v : ℕ) → c v + share_of v call ≡ b v)
      → Step b call true c
  refused : {b c : ℕ → ℕ} {call : Call} → ((v : ℕ) → c v ≡ b v) → Step b call false c

-- calls one after the other, each with its answer
pub data Steps : (ℕ → ℕ) → List (Call × Bool) → (ℕ → ℕ) → Type 0 where
  done : {b : ℕ → ℕ} → Steps b [] b
  next :
      {b m c : ℕ → ℕ} {call : Call} {answer : Bool} {rest : List (Call × Bool)}
      → Step b call answer m
      → Steps m rest c
      → Steps b ((call, answer) ∷ rest) c

-- what could come into a balance, and out of it
abbrev pub total_in : ℕ → List (Call × Bool) → ℕ
total_in v = sum_by (λ e. if goes_in e.0 then share_of v e.0 else 0)

abbrev pub total_out : ℕ → List (Call × Bool) → ℕ
total_out v = sum_by (λ e. if goes_in e.0 then 0 else share_of v e.0)

Step-bounds :
    (b c : ℕ → ℕ) (call : Call) (answer : Bool) (v : ℕ)
    → Step b call answer c
    → (c v ≤ b v + (if goes_in call then share_of v call else 0))
      × (b v ≤ c v + (if goes_in call then 0 else share_of v call))
Step-bounds b c call _ v (came_in inward moved) =
    let law = moved v in rw inward (omega (arith, law), omega (arith, law))
Step-bounds b c call _ v (went_out outward moved) =
    let law = moved v in rw outward (omega (arith, law), omega (arith, law))
Step-bounds b c call _ v (refused still) =
    let law = still v in (omega (arith, law), omega (arith, law))

-- Along any calls, a balance grows by at most what was put into it and falls by at most what was
-- taken from it.
Steps-bounds :
    (calls : List (Call × Bool)) (b c : ℕ → ℕ) (v : ℕ)
    → Steps b calls c
    → (c v ≤ b v + total_in v calls) × (b v ≤ c v + total_out v calls)
Steps-bounds [] b c v done = (omega arith, omega arith)
Steps-bounds ((call, answer) ∷ rest) b c v (next {m = m} first later) =
    let here = Step-bounds b m call answer v first in
    let there = Steps-bounds rest m c v later in
    (omega (arith, here.0, there.0), omega (arith, here.1, there.1))

abbrev pub succeeds {ℓ} : {A : Type ℓ} → Result A → Bool
succeeds (ok x) = true
succeeds (err e) = false

abbrev pub answered {ℓ κ} : {A : Type ℓ} {B : Type κ} → Result A × B → Bool × B
answered r = (succeeds r.0, r.1)

module _ (mongo : Mongo) where
  -- a call of the service, with what the store throws during it, and whether it succeeds
  unfoldable pub perform : Faults → Call → Accounts mongo → Bool × Accounts mongo
  unfolding deposit process_deduction pay_for_booking refund_booking
  perform f (adding u amount reference) a =
      answered (deposit mongo f (λ b. b) false (some u) amount TransactionType.deposit reference a)
  perform f (taking u amount reference) a =
      answered (process_deduction mongo f (λ b. b) false u amount deduction reference a)
  perform f (paying u amount booking) a =
      answered (pay_for_booking mongo f (λ b. b) false u amount booking a)
  perform f (refunding u amount booking) a =
      answered (refund_booking mongo f (λ b. b) false u amount booking a)

  -- the calls with their answers, and what they leave
  unfoldable pub perform_all :
      List (Faults × Call) → Accounts mongo → List (Call × Bool) × Accounts mongo
  unfolding perform
  perform_all [] a = ([], a)
  perform_all (e ∷ rest) a =
      let (answer, b) = perform e.0 e.1 a in
      let (answers, c) = perform_all rest b in ((e.1, answer) ∷ answers, c)

  -- the balances of the stored wallets
  abbrev pub balances : Accounts mongo → ℕ → ℕ
  balances a v = balance_of mongo v a.wallets

  Credited-Step :
      (call : Call) (type : TransactionType) (a : Accounts mongo)
      (x : Result (Wallet × Transaction) × Accounts mongo)
      → goes_in call ≡ true
      → Credited mongo (user_of call) (amount_of call) type a x
      → Step (balances a) call (succeeds x.0) (balances x.1)
  Credited-Step call type a (ok _, b) inward h = came_in inward h.0
  Credited-Step call type a (err _, b) inward h = refused h.0

  Debited-Step :
      (call : Call) (type : TransactionType) (a : Accounts mongo)
      (x : Result (Wallet × Transaction) × Accounts mongo)
      → goes_in call ≡ false
      → Debited mongo (user_of call) (amount_of call) type a x
      → Step (balances a) call (succeeds x.0) (balances x.1)
  Debited-Step call type a (ok _, b) outward h = went_out outward h.0
  Debited-Step call type a (err _, b) outward h = refused h.0

  perform-Step :
      (f : Faults) (call : Call) (a : Accounts mongo)
      → Step (balances a) call (perform f call a).0 (balances (perform f call a).1)
  unfolding perform
  perform-Step f (adding u amount reference) a =
      Credited-Step (adding u amount reference) TransactionType.deposit a _ refl
        (deposit-Credited mongo f u amount TransactionType.deposit reference a)
  perform-Step f (taking u amount reference) a =
      Debited-Step (taking u amount reference) deduction a _ refl
        (process_deduction-Debited mongo f u amount deduction reference a)
  perform-Step f (paying u amount booking) a =
      Debited-Step (paying u amount booking) booking_payment a _ refl
        (pay_for_booking-Debited mongo f u amount booking a)
  perform-Step f (refunding u amount booking) a =
      Credited-Step (refunding u amount booking) booking_refund a _ refl
        (refund_booking-Credited mongo f u amount booking a)

  -- Deposits, deductions, payments and refunds, one after the other and whether the reading of a
  -- wallet or the writing of an entry throws during each or not, refine the specification on balances: every call that is answered with a success
  -- adds its amount to the balance of its user, or takes it from there, where it was, and changes no
  -- other balance; every call that throws changes no balance. Each call is answered, in order.
  pub perform_all-Steps :
      (calls : List (Faults × Call)) (a : Accounts mongo)
      → (map (λ e. e.0) (perform_all calls a).0 ≡ map (λ e. e.1) calls)
        × Steps (balances a) (perform_all calls a).0 (balances (perform_all calls a).1)
  unfolding perform_all
  perform_all-Steps [] a = (refl, done)
  perform_all-Steps (e ∷ rest) a =
      let (same, later) = perform_all-Steps rest (perform e.0 e.1 a).1 in
      (ap (λ cs. e.1 ∷ cs) same, next (perform-Step e.0 e.1 a) later)

  -- Along any such calls, a stored balance grows by at most what the calls put into it, and falls by
  -- at most what they take from it.
  pub perform_all_bounds :
      (calls : List (Faults × Call)) (a : Accounts mongo) (v : ℕ)
      → (balance_of mongo v (perform_all calls a).1.wallets
          ≤ balance_of mongo v a.wallets + total_in v (perform_all calls a).0)
        × (balance_of mongo v a.wallets
            ≤ balance_of mongo v (perform_all calls a).1.wallets
              + total_out v (perform_all calls a).0)
  perform_all_bounds calls a v =
      Steps-bounds (perform_all calls a).0 (balances a) (balances (perform_all calls a).1) v
        (perform_all-Steps calls a).1
