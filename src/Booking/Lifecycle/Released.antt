-- ===== src/Booking/Lifecycle/Released.antt =====
-- Holds that nobody pays, under the repeated clean-up job.
use sports_venue_management.Common.{
  ℕ, ◌≤◌, ◌≡◌, ◌⊎◌, refl, inl, inr, false, some, List, [], ◌∷◌, arith, Bool-cases, ap, ◌∙◌,
}
use mathlib.Core.Option
use sports_venue_management.Entities.{Booking, pending}
use sports_venue_management.Mongo.{Mongo}
use sports_venue_management.Booking.Reserve.{is_active}
use sports_venue_management.Booking.Lifecycle.{is_expired_hold, is_overdue, clean}
use sports_venue_management.Booking.Lifecycle.Clean.{clean_one, clean_each}

-- one of the instants has come to `t`
abbrev pub Reaches : ℕ → List ℕ → Type 0
Reaches t [] = ⊥
Reaches t (now ∷ rest) = (t ≤ now) ⊎ Reaches t rest

clean_one-inactive :
    (now : ℕ) (b : Booking)
    → is_active b.status ≡ false
    → is_active (clean_one now b).status ≡ false
unfolding clean_one
clean_one-inactive now b h = ground arith

-- the job keeps a booking as it is, or frees its slot
clean_one_either :
    (now : ℕ) (b : Booking) → (clean_one now b ≡ b) ⊎ (is_active (clean_one now b).status ≡ false)
unfolding clean_one
clean_one_either now b = elim (Bool-cases (is_expired_hold now b)) [
  | inl over ↦ inr (rw (clean_one, over) refl)
  | inr held ↦ elim (Bool-cases (is_overdue now b)) [
    | inl late ↦ inr (rw (clean_one, held, late) refl)
    | inr kept ↦ inl (simp (clean_one, held, kept) refl)
  ]
]

clean_one-expired :
    (now t : ℕ) (b : Booking)
    → b.status ≡ pending
    → b.expires_at ≡ some t
    → t ≤ now
    → is_active (clean_one now b).status ≡ false
unfolding clean_one
clean_one-expired now t b waits until over = ground arith

module _ (mongo : Mongo) where
  open mongo use {Docs, find_by_id}

  -- the job at each of the instants, with nothing else in between
  unfoldable pub clean_all : List ℕ → Docs Booking → Docs Booking
  unfolding clean
  clean_all [] d = d
  clean_all (now ∷ rest) d = clean_all rest (clean mongo now d)

  clean_all-inactive :
      (runs : List ℕ) (d : Docs Booking) (i : ℕ) (b : Booking)
      → find_by_id d i ≡ some b
      → is_active b.status ≡ false
      → (c : Booking) × (find_by_id (clean_all runs d) i ≡ some c) × (is_active c.status ≡ false)
  unfolding clean_all
  clean_all-inactive [] d i b stored h = (b, stored, h)
  clean_all-inactive (now ∷ rest) d i b stored h =
      clean_all-inactive rest (clean mongo now d) i (clean_one now b)
        (clean_each mongo now i d ∙ ap (Option.map (clean_one now)) stored)
        (clean_one-inactive now b h)

  -- A pending booking with an end of its hold keeps its slot no longer once the clean-up job has run
  -- at or after that end, however often and whenever else the job runs.
  pub clean_all-releases :
      (runs : List ℕ) (d : Docs Booking) (i t : ℕ) (b : Booking)
      → find_by_id d i ≡ some b
      → b.status ≡ pending
      → b.expires_at ≡ some t
      → Reaches t runs
      → (c : Booking) × (find_by_id (clean_all runs d) i ≡ some c) × (is_active c.status ≡ false)
  unfolding clean_all
  clean_all-releases [] d i t b stored waits until reached = absurd reached
  clean_all-releases (now ∷ rest) d i t b stored waits until reached =
      let next : find_by_id (clean mongo now d) i ≡ some (clean_one now b) =
        clean_each mongo now i d ∙ ap (Option.map (clean_one now)) stored in
      elim (clean_one_either now b) [
        | inr gone ↦ clean_all-inactive rest (clean mongo now d) i (clean_one now b) next gone
        | inl same ↦ elim reached [
          | inl over ↦
              clean_all-inactive rest (clean mongo now d) i (clean_one now b) next
                (clean_one-expired now t b waits until over)
          | inr later ↦
              clean_all-releases rest (clean mongo now d) i t b (next ∙ ap some same) waits until
                later
        ]
      ]
