-- ===== src/Payment/Webhook/Targets.antt =====
-- The bookings that a callback is for, as they are stored when it reads them.
use sports_venue_management.Common.{
  ℕ, ◌≡◌, inl, inr, Option, none, some, List, [], ◌∷◌, All, Option-cases, first, first-All, All-map,
  List-cases,
}
use mathlib.Core.Path.{subst}
use mathlib.Core.Option.{some-injective}
use sports_venue_management.Entities.{Booking, Payment}
use sports_venue_management.Mongo.{Mongo, Found}
use sports_venue_management.Payment.Service.{is_in_group}
use sports_venue_management.Payment.Webhook.{located, card_targets, in_group}

module _ (mongo : Mongo) where
  open mongo use {Docs, find_by_id, find, update, find_by_id-update, find_sound}

  -- every document of a list as it is stored
  abbrev pub Sound : List (ℕ × Booking) → Docs Booking → Type 0
  Sound xs d = All (λ e. find_by_id d e.0 ≡ some e.1) xs

  in_group-Sound : (o : Option ℕ) (d : Docs Booking) → Sound (in_group mongo o d) d
  in_group-Sound none d = tt
  in_group-Sound (some g) d =
      All-map (λ e h. h.0) (find (is_in_group g) d) (find_sound (is_in_group g) d)

  pub located-Sound :
      (y : Payment) (e : ℕ × Booking) (group : List (ℕ × Booking)) (d : Docs Booking)
      → located mongo y d ≡ some (e, group)
      → (find_by_id d e.0 ≡ some e.1) × Sound group d
  unfolding located
  located-Sound y e group d h = elim (Option-cases (first (in_group mongo y.group_id d))) [
    | inr (x, found) ↦
        let same =
          some-injective (x, in_group mongo y.group_id d) (e, group) (rw (located, found) at h) in
        subst (λ r. (find_by_id d r.0.0 ≡ some r.0.1) × Sound r.1 d) same
          (
            first-All (λ e. find_by_id d e.0 ≡ some e.1) (in_group mongo y.group_id d) x
                (in_group-Sound y.group_id d) found,
            in_group-Sound y.group_id d,
          )
    | inl nobody ↦ elim (Option-cases y.booking_id) [
      | inl unnamed ↦ absurd (cc (simp (located, nobody, unnamed) at h))
      | inr (i, named) ↦ elim (Option-cases (find_by_id d i)) [
        | inl missing ↦ absurd (cc (simp (located, nobody, named, missing) at h))
        | inr (b, stored) ↦
            let same =
              some-injective ((i, b), in_group mongo b.group_id d) (e, group)
                (simp (located, nobody, named, stored) at h) in
            subst (λ r. (find_by_id d r.0.0 ≡ some r.0.1) × Sound r.1 d) same
              (stored, in_group-Sound b.group_id d)
      ]
    ]
  ]

  pub card_targets-Sound :
      (y : Payment) (e : ℕ × Booking) (group : List (ℕ × Booking)) (d : Docs Booking)
      → (find_by_id d e.0 ≡ some e.1) × Sound group d
      → Sound (card_targets mongo y e group d) d
  unfolding card_targets
  card_targets-Sound y e (x ∷ rest) d h = h.1
  card_targets-Sound y e [] d h =
      let o : Option ℕ = elim y.group_id [ some g ↦ some g | none ↦ e.1.group_id ] in
      elim (List-cases (in_group mongo o d)) [
        | inl nobody ↦ rw (card_targets, nobody) (h.0, tt)
        | inr (x, rest, there) ↦
            rw (card_targets, there) (subst (λ l. Sound l d) there (in_group-Sound o d))
      ]

  abbrev pub WasRead : ℕ → Booking → List (ℕ × Booking) → Type 0
  WasRead i b xs = All (λ e. e.0 ≡ i → e.1 ≡ b) xs

  pub Sound-WasRead :
      (xs : List (ℕ × Booking)) (d : Docs Booking) (i : ℕ) (b : Booking)
      → Sound xs d
      → find_by_id d i ≡ some b
      → WasRead i b xs
  Sound-WasRead [] d i b sound stored = tt
  Sound-WasRead (e ∷ rest) d i b sound stored = (
    (λ same. some-injective e.1 b (cc (sound.0, stored, same))),
    Sound-WasRead rest d i b sound.1 stored,
  )

  pub Sound-Found :
      (xs : List (ℕ × Booking)) (d : Docs Booking) (i : ℕ) (b : Booking)
      → Sound xs d
      → Found i b xs
      → find_by_id d i ≡ some b
  Sound-Found [] d i b sound there = absurd there
  Sound-Found (e ∷ rest) d i b sound (inl here) = cc (sound.0, here.0, here.1)
  Sound-Found (e ∷ rest) d i b sound (inr later) = Sound-Found rest d i b sound.1 later
