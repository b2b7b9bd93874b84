-- ===== src/Booking/Pricing/Totals.antt =====
-- What a reservation costs.
use sports_venue_management.Common.{
  ℕ, zero, suc, ◌+◌, ◌-◌, ◌*◌, ◌≤◌, ◌<◌, ◌≡◌, refl, none, some, [], ◌∷◌, arith,
}
use native.Mathlib.Nat.{zero-add, add-zero}
use sports_venue_management.Entities.{Venue, DatePrice, HourPrice}
use sports_venue_management.Booking.Pricing.{
  hour_price, date_price, custom_price, price_hours, price_slot, price_slots, total_raw_price,
}

-- A price of the date comes before a recurring price of the hour, and that before the default.
pub hour_price_precedence :
    (v : Venue) (day h : ℕ)
    → ((r : DatePrice) → date_price v day h ≡ some r → hour_price v day h ≡ r.price_per_hour)
      × ((c : HourPrice)
          → date_price v day h ≡ none
          → custom_price v h ≡ some c
          → hour_price v day h ≡ c.price_per_hour)
      × (date_price v day h ≡ none
          → custom_price v h ≡ none
          → hour_price v day h ≡ v.default_hour_price)
unfolding hour_price
hour_price_precedence v day h = (
  (λ r e. rw (hour_price, e) refl),
  (λ c e k. rw (hour_price, e, k) refl),
  λ e k. rw (hour_price, e, k) refl,
)

hour_default :
    (v : Venue) (day h : ℕ)
    → date_price v day h ≡ none
    → custom_price v h ≡ none
    → hour_price v day h ≡ v.default_hour_price
hour_default v day h e k = (hour_price_precedence v day h).2 e k

price_hours-add :
    (v : Venue) (day h m n : ℕ)
    → price_hours v day h (m + n) ≡ price_hours v day h m + price_hours v day (h + m) n
unfolding price_hours
price_hours-add v day h zero n = rw (zero-add n, add-zero h) (omega arith)
price_hours-add v day h (suc m) n =
    let e : suc m + n ≡ suc (m + n) = omega arith in
    let k : h + suc m ≡ h + 1 + m = omega arith in
    rw (e, k) (omega (arith, price_hours-add v day (h + 1) m n))

-- A slot costs as much as two adjacent slots that it is cut into.
pub price_slot_cut :
    (v : Venue) (day a b c : ℕ)
    → a ≤ b
    → b ≤ c
    → total_raw_price (
        price_slots v day
          (record { start_time = a; end_time = b } ∷ record { start_time = b; end_time = c } ∷ []))
      ≡ total_raw_price (price_slots v day (record { start_time = a; end_time = c } ∷ []))
unfolding total_raw_price price_slots
price_slot_cut v day a b c p q =
    let e : c - a ≡ (b - a) + (c - b) = omega arith in
    let k : a + (b - a) ≡ b = omega arith in
    let cut = price_hours-add v day a (b - a) (c - b) in rw e (omega (arith, rw k at cut))

-- no special price names an hour that a slot of the day covers
abbrev pub HasNoRule : Venue → ℕ → ℕ → ℕ → Type 0
HasNoRule v day h n =
    (k : ℕ) → h ≤ k → k < h + n → (date_price v day k ≡ none) × (custom_price v k ≡ none)

price_hours_default :
    (v : Venue) (day h n : ℕ)
    → HasNoRule v day h n
    → price_hours v day h n ≡ n * v.default_hour_price
unfolding price_hours
price_hours_default v day h zero none_apply = omega arith
price_hours_default v day h (suc n) none_apply =
    let here = none_apply h (omega arith) (omega arith) in
    let rest =
      price_hours_default v day (h + 1) n (λ k p q. none_apply k (omega arith) (omega arith)) in
    rw (hour_default v day h here.0 here.1, rest) (omega arith)

-- Where no special price applies to its hours, a slot costs its length times the default price.
pub price_slot_default :
    (v : Venue) (day a b : ℕ)
    → HasNoRule v day a (b - a)
    → (price_slot v day (record { start_time = a; end_time = b })).total_price
      ≡ (b - a) * v.default_hour_price
unfolding price_slot
price_slot_default v day a b h = price_hours_default v day a (b - a) h
