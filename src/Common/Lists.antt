-- ===== src/Common/Lists.antt =====
-- Lists measured, searched and summed with native numbers and Boolean tests. `filter` and `any`
-- are the methods of the language's arrays, whose test is a Boolean function.
use Prim.Native.Nat.{ℕ, suc, ◌+◌}
use mathlib.Core.Path.{◌≡◌, refl, subst}
use mathlib.Core.Logic.{◌⊎◌, inl, inr}
use mathlib.Core.Bool.{Bool, true, false, ◌||◌}
use mathlib.Core.List.{List, [], ◌∷◌, ◌++◌}
use mathlib.Core.Option.{Option, none, some, some-injective}
use native.Mathlib.Omega.{arith}
use sports_venue_management.Common.Tests.{if◌then◌else◌}

module _ {ℓ} {A : Type ℓ} where
  abbrev pub length : List A → ℕ
  length [] = 0
  length (x ∷ xs) = suc (length xs)

  -- `Array.prototype.filter`
  abbrev pub filter : (A → Bool) → List A → List A
  filter p [] = []
  filter p (x ∷ xs) = let rest = filter p xs in if p x then x ∷ rest else rest

  -- `Array.prototype.find`
  abbrev pub find? : (A → Bool) → List A → Option A
  find? p [] = none
  find? p (x ∷ xs) = if p x then some x else find? p xs

  -- the first element, as `findOne` takes it from a query
  abbrev pub first : List A → Option A
  first [] = none
  first (x ∷ xs) = some x

  -- `Array.prototype.some`
  abbrev pub any : (A → Bool) → List A → Bool
  any p [] = false
  any p (x ∷ xs) = p x || any p xs

  -- `reduce((total, x) => total + f(x), 0)`
  abbrev pub sum_by : (A → ℕ) → List A → ℕ
  sum_by f [] = 0
  sum_by f (x ∷ xs) = f x + sum_by f xs

  abbrev pub All {κ} : (A → Type κ) → List A → Type κ
  All P [] = Unit
  All P (x ∷ xs) = P x × All P xs

module _ {ℓ} {A : Type ℓ} where
  pub sum_by-append : (f : A → ℕ) (xs ys : List A) → sum_by f (xs ++ ys) ≡ sum_by f xs + sum_by f ys
  sum_by-append f [] ys = omega arith
  sum_by-append f (x ∷ xs) ys = omega (arith, sum_by-append f xs ys)

  pub All-filter : (p : A → Bool) (xs : List A) → All (λ x. p x ≡ true) (filter p xs)
  All-filter p [] = tt
  All-filter p (x ∷ xs) = ground (arith, All-filter p xs)

  -- What is left out is left out because of its test.
  pub filter-nil : (p : A → Bool) (xs : List A) → filter p xs ≡ [] → All (λ x. p x ≡ false) xs
  filter-nil p [] h = tt
  filter-nil p (x ∷ xs) h = ground (arith, filter-nil p xs)

  pub first-All {κ} : (P : A → Type κ) (xs : List A) (x : A) → All P xs → first xs ≡ some x → P x
  first-All P [] x h e = cc
  first-All P (y ∷ ys) x h e = subst P (some-injective y x e) h.0

  pub All-map {κ} :
      {P Q : A → Type κ} (imply : (x : A) → P x → Q x) (xs : List A) → All P xs → All Q xs
  All-map imply [] h = tt
  All-map imply (x ∷ xs) h = (imply x h.0, All-map imply xs h.1)

  pub first-none : (xs : List A) → first xs ≡ none → xs ≡ []
  first-none [] e = refl
  first-none (y ∷ ys) e = cc

  pub List-cases : (xs : List A) → (xs ≡ []) ⊎ ((x : A) × (rest : List A) × (xs ≡ x ∷ rest))
  List-cases [] = inl refl
  List-cases (x ∷ rest) = inr (x, rest, refl)
