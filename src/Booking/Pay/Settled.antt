-- ===== src/Booking/Pay/Settled.antt =====
-- The loop of a payment over the bookings of its group.
use sports_venue_management.Common.{
  ℕ, ◌+◌, ◌*◌, min, Bool, true, false, arith, ◌≤◌, ◌≡◌, refl, inl, inr, Option, some, List, [], ◌∷◌,
  suc, ◌==◌, ==_iff, Bool-cases, Option-cases,
}
use sports_venue_management.Common.Outcome.{Error, ok}
use sports_venue_management.Entities.{Booking, confirmed}
use sports_venue_management.Common.Decimal.{round_div_near}
use sports_venue_management.Mongo.{Mongo, Found}
use sports_venue_management.Booking.Settle.{booking_final, divisor, paid_share, settle}
use sports_venue_management.Booking.Settle.Amounts.{IsSettled, settle-IsSettled}
use sports_venue_management.Booking.Order.{settle_each}

-- How much of a payment of `amount` for a group that costs `due` a booking has got: a deposit is
-- shared out by the prices, to within half a hundredth, and any other payment comes on top of what
-- was paid before, up to the price.
abbrev pub HasShare : Bool → ℕ → ℕ → Booking → Booking → Type 0
HasShare true due amount before after =
    (2 * (booking_final before * amount) ≤ 2 * (due * after.paid_amount) + due)
    × (2 * (due * after.paid_amount) ≤ 2 * (booking_final before * amount) + due)
HasShare false due amount before after =
    min (booking_final before) (before.paid_amount + amount) ≤ after.paid_amount

-- a booking before and after a payment that has confirmed it
abbrev pub IsPaidFor : Bool → ℕ → ℕ → Booking → Booking → Type 0
IsPaidFor deposit due amount before after =
    (after.status ≡ confirmed)
    × IsSettled after
    × (booking_final after ≡ booking_final before)
    × HasShare deposit due amount before after

-- what holds of a booking of the group all along
abbrev pub IsUnderway : Bool → Booking → Booking → Type 0
IsUnderway true before b = (booking_final b ≡ booking_final before) × Unit {0}
IsUnderway false before b =
    (booking_final b ≡ booking_final before)
    × (min (booking_final before) before.paid_amount ≤ b.paid_amount)

starts_out : (deposit : Bool) (b : Booking) → IsUnderway deposit b b
starts_out true b = (refl, tt)
starts_out false b = (refl, omega arith)

pub share_bounds :
    (due amount : ℕ) (b : Booking)
    → amount ≤ due
    → let share = paid_share true due amount b in
      (2 * (booking_final b * amount) ≤ 2 * (due * share) + due)
      × (2 * (due * share) ≤ 2 * (booking_final b * amount) + due)
unfolding paid_share divisor
share_bounds due amount b h = elim (Bool-cases (due == 0)) [
  | inl free ↦
      let no_due : due ≡ 0 = (==_iff due 0).0 free in
      let nothing : amount ≡ 0 = omega arith in rw (no_due, nothing) (omega arith, omega arith)
  | inr priced ↦
      let near = round_div_near (booking_final b * amount) due (ground (arith, priced)) in
      rw priced (omega (arith, near.1), near.0)
]

settle-IsPaidFor :
    (deposit : Bool) (due amount : ℕ) (before b : Booking)
    → amount ≤ due
    → IsUnderway deposit before b
    → IsPaidFor deposit due amount before (settle deposit due amount b)
unfolding settle
settle-IsPaidFor true due amount before b h u =
    let law = share_bounds due amount b h in
    (refl, (settle-IsSettled true due amount b h).0, u.0, rw (← u.0) law)
settle-IsPaidFor false due amount before b h u =
    (refl, (settle-IsSettled false due amount b h).0, u.0, omega (arith, u.0, u.1))

IsPaidFor-IsUnderway :
    (deposit : Bool) (due amount : ℕ) (before b : Booking)
    → IsPaidFor deposit due amount before b
    → IsUnderway deposit before b
IsPaidFor-IsUnderway true due amount before b h = (h.2, tt)
IsPaidFor-IsUnderway false due amount before b h = (h.2, omega (arith, h.3))

module _ (mongo : Mongo) where
  open mongo use {Docs, find_by_id, update, find_by_id-update}

  -- what holds of a stored document
  abbrev pub At : Docs Booking → ℕ → (Booking → Type 0) → Type 0
  At d i P = (b : Booking) × (find_by_id d i ≡ some b) × P b

  module _ (I P : Booking → Type 0) (change : Booking → Booking)
      (holds : (b : Booking) → I b → P (change b)) (goes_on : (b : Booking) → P b → I b) where
    update-At : (j i : ℕ) (d : Docs Booking) → At d i P → At (update j change d) i P
    update-At j i d (b, stored, p) =
        let law = find_by_id-update j i change d in
        elim (Bool-cases (j == i)) [
          | inl same ↦ (change b, rw (law, same, stored) refl, holds b (goes_on b p))
          | inr other ↦ (b, rw (law, other) stored, p)
        ]

    settle_each-At :
        (faults : ℕ → Option Error) (k i : ℕ) (xs : List (ℕ × Booking)) (d : Docs Booking)
        → At d i P
        → At (settle_each mongo faults change k xs d).1 i P
    unfolding settle_each
    settle_each-At faults k i [] d h = h
    settle_each-At faults k i (e ∷ rest) d h = elim (Option-cases (faults k)) [
      | inl fine ↦
          rw (settle_each, fine)
            (settle_each-At faults (suc k) i rest (update e.0 change d) (update-At e.0 i d h))
      | inr (x, thrown) ↦ rw (settle_each, thrown) h
    ]

    -- every listed document has been changed, where no update throws
    pub settle_each-Found :
        (faults : ℕ → Option Error) (k i : ℕ) (b w : Booking) (xs : List (ℕ × Booking))
        (d : Docs Booking)
        → I w
        → (settle_each mongo faults change k xs d).0 ≡ ok tt
        → Found i b xs
        → find_by_id d i ≡ some w
        → At (settle_each mongo faults change k xs d).1 i P
    unfolding settle_each
    settle_each-Found faults k i b w [] d starts went there stored = absurd there
    settle_each-Found faults k i b w (e ∷ rest) d starts went there stored =
        let law = find_by_id-update e.0 i change d in
        elim (Option-cases (faults k)) [
          | inr (x, thrown) ↦ absurd (cc (rw (settle_each, thrown) at went))
          | inl fine ↦ elim (Bool-cases (e.0 == i)) [
            | inl same ↦
                rw (settle_each, fine)
                  (settle_each-At faults (suc k) i rest (update e.0 change d)
                    (change w, rw (law, same, stored) refl, holds w starts))
            | inr other ↦ elim there [
              | inl here ↦ absurd (cc (other, (==_iff e.0 i).1 here.0))
              | inr later ↦
                  rw (settle_each, fine)
                    (settle_each-Found faults (suc k) i b w rest (update e.0 change d) starts
                      (rw (settle_each, fine) at went) later (rw (law, other) stored))
            ]
          ]
        ]

  -- the loop of a payment of at most the group's price
  pub settle_each-IsPaidFor :
      (deposit : Bool) (due amount : ℕ) (faults : ℕ → Option Error) (i : ℕ) (b w : Booking)
      (xs : List (ℕ × Booking)) (d : Docs Booking)
      → amount ≤ due
      → (settle_each mongo faults (settle deposit due amount) 0 xs d).0 ≡ ok tt
      → Found i b xs
      → find_by_id d i ≡ some w
      → At
          (settle_each mongo faults (settle deposit due amount) 0 xs d).1
          i
          (IsPaidFor deposit due amount w)
  settle_each-IsPaidFor deposit due amount faults i b w xs d bounded went there stored =
      settle_each-Found (IsUnderway deposit w) (IsPaidFor deposit due amount w)
        (settle deposit due amount) (λ c u. settle-IsPaidFor deposit due amount w c bounded u)
        (λ c done. IsPaidFor-IsUnderway deposit due amount w c done) faults 0 i b w xs d
        (starts_out deposit w) went there stored
