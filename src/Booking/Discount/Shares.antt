-- ===== src/Booking/Discount/Shares.antt =====
-- The shares of a discount, added up.
use sports_venue_management.Common.{
  ℕ, ◌+◌, ◌*◌, ◌≤◌, ◌<◌, ◌≡◌, ◌≢◌, refl, List, [], ◌∷◌, sum_by, arith,
}
use sports_venue_management.Common.Int.{pos_part, neg_part}
use sports_venue_management.Common.Decimal.{round_div_le}
use sports_venue_management.Booking.Pricing.{SlotPricing, total_raw_price}
use sports_venue_management.Booking.Discount.{
  SlotCalculation, share, allocate, slot_final_calculations,
}

abbrev pub added : List SlotCalculation → ℕ
added = sum_by (λ c. pos_part c.discount_amount)

abbrev pub given_back : List SlotCalculation → ℕ
given_back = sum_by (λ c. neg_part c.discount_amount)

abbrev pub finals : List SlotCalculation → ℕ
finals = sum_by (λ c. c.final_price)

allocate_sum :
    (d t a : ℕ) (p : SlotPricing) (rest : List SlotPricing)
    → added (allocate d t a (p ∷ rest)) + a ≡ d + given_back (allocate d t a (p ∷ rest))
unfolding allocate
allocate_sum d t a p [] = ground arith
allocate_sum d t a p (q ∷ rest) = omega (arith, allocate_sum d t (a + share d t p) q rest)

calculations-allocate :
    (d t : ℕ) (slots : List SlotPricing)
    → 0 < d
    → 0 < t
    → slot_final_calculations d t slots ≡ allocate d t 0 slots
unfolding slot_final_calculations
calculations-allocate d t slots p q = ground arith

-- The discounts of the slots add up to the discount of the group, rounding included.
pub slot_final_calculations_discount :
    (d t : ℕ) (slots : List SlotPricing)
    → 0 < d
    → 0 < t
    → slots ≢ []
    → let cs = slot_final_calculations d t slots in added cs ≡ d + given_back cs
slot_final_calculations_discount d t [] p q h = absurd (h refl)
slot_final_calculations_discount d t (s ∷ rest) p q h =
    rw (calculations-allocate d t (s ∷ rest) p q) (omega (arith, allocate_sum d t 0 s rest))

le_product : (a b c : ℕ) → b ≤ c → a * b ≤ a * c
le_product a b c h = grind arith

-- A share is at most the price of its slot.
share-le : (d t : ℕ) (p : SlotPricing) → d ≤ t → 0 < t → share d t p ≤ p.total_price
unfolding share
share-le d t p h q =
    round_div_le (p.total_price * d) p.total_price t q (le_product p.total_price d t h)

-- the last slot's discount is at most its price
abbrev pub LastFits : List SlotCalculation → Type 0
LastFits [] = Unit
LastFits (c ∷ []) = pos_part c.discount_amount ≤ c.total_price
LastFits (c ∷ b ∷ rest) = LastFits (b ∷ rest)

finals-allocate :
    (d t a : ℕ) (slots : List SlotPricing)
    → d ≤ t
    → 0 < t
    → LastFits (allocate d t a slots)
    → finals (allocate d t a slots) + added (allocate d t a slots)
      ≡ total_raw_price slots + given_back (allocate d t a slots)
unfolding allocate total_raw_price
finals-allocate d t a [] h q fits = refl
finals-allocate d t a (p ∷ []) h q fits = omega arith
finals-allocate d t a (p ∷ r ∷ []) h q fits =
    omega (arith, finals-allocate d t (a + share d t p) (r ∷ []) h q fits, share-le d t p h q)
finals-allocate d t a (p ∷ r ∷ s ∷ rest) h q fits =
    omega (arith, finals-allocate d t (a + share d t p) (r ∷ s ∷ rest) h q fits, share-le d t p h q)

nothing : (d : ℕ) → 0 < d → d ≤ total_raw_price [] → ⊥
unfolding total_raw_price
nothing d p h = omega arith

-- Where a group of slots has a price and a discount of at most that price, and the last slot's
-- discount does not exceed its own price, the final prices of the slots add up to the price of the
-- group less its discount.
pub finals-slot_final_calculations :
    (d : ℕ) (slots : List SlotPricing)
    → 0 < d
    → d ≤ total_raw_price slots
    → LastFits (slot_final_calculations d (total_raw_price slots) slots)
    → finals (slot_final_calculations d (total_raw_price slots) slots) + d ≡ total_raw_price slots
finals-slot_final_calculations d [] p h fits = absurd (nothing d p h)
finals-slot_final_calculations d (s ∷ rest) p h fits =
    let t = total_raw_price (s ∷ rest) in
    let e = calculations-allocate d t (s ∷ rest) p (omega arith) in
    let fits' = rw e at fits in
    rw e (
      omega
        (arith, allocate_sum d t 0 s rest, finals-allocate d t 0 (s ∷ rest) h (omega arith) fits'))
