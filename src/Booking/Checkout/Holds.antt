-- ===== src/Booking/Checkout/Holds.antt =====
-- The holds of a customer that a new request replaces.
use sports_venue_management.Common.{
  ℕ, ◌≡◌, refl, Bool, true, not, ◌⊎◌, inl, inr, none, some, List, [], ◌∷◌, All, filter, List-cases,
  arith, ◌==◌, Bool-cases, ◌∙◌,
}
use sports_venue_management.Entities.{Booking, pending}
use sports_venue_management.Mongo.{Mongo}
use sports_venue_management.Booking.Slots.{Slot}
use sports_venue_management.Booking.Reserve.{
  delete_all, clear_slots, valid_overlaps, in_the_way, is_third_party, has_run_out,
}

own_hold :
    (user : ℕ) (b : Booking)
    → not (is_third_party user b) ≡ true
    → (b.status ≡ pending) × (b.user_id ≡ user)
unfolding is_third_party
own_hold user b h = ground arith

module _ (mongo : Mongo) where
  open mongo use {Docs, find_by_id, find, delete, find_by_id-delete, find_sound}

  -- Of the bookings before, all are as they were, but that pending ones of the user may be gone; and
  -- there are no new ones.
  abbrev pub KeepsOthers : ℕ → Docs Booking → Docs Booking → Type 0
  KeepsOthers user before after =
      (j : ℕ)
      → (find_by_id after j ≡ find_by_id before j)
        ⊎ ((b : Booking) × (find_by_id after j ≡ none)
            × (find_by_id before j ≡ some b)
            × (b.status ≡ pending)
            × (b.user_id ≡ user))

  pub KeepsOthers-eq :
      (user : ℕ) (before d e : Docs Booking)
      → ((j : ℕ) → find_by_id e j ≡ find_by_id d j)
      → KeepsOthers user before d
      → KeepsOthers user before e
  KeepsOthers-eq user before d e same keeps j = elim (keeps j) [
    | inl kept ↦ inl (same j ∙ kept)
    | inr (b, gone, stored, is_pending, own) ↦ inr (b, same j ∙ gone, stored, is_pending, own)
  ]

  abbrev IsOwnHold : ℕ → Docs Booking → ℕ × Booking → Type 0
  IsOwnHold user d e = (find_by_id d e.0 ≡ some e.1) × (not (is_third_party user e.1) ≡ true)

  delete_all-KeepsOthers :
      (user : ℕ) (xs : List (ℕ × Booking)) (before d : Docs Booking)
      → All (IsOwnHold user before) xs
      → KeepsOthers user before d
      → KeepsOthers user before (delete_all mongo xs d)
  unfolding delete_all
  delete_all-KeepsOthers user [] before d own keeps = keeps
  delete_all-KeepsOthers user (e ∷ rest) before d own keeps =
      delete_all-KeepsOthers user rest before (delete e.0 d) own.1 (λ j.
        let law = find_by_id-delete e.0 j d in
        elim (Bool-cases (e.0 == j)) [
          | inl same ↦
              let id : e.0 ≡ j = ground arith in
              let (is_pending, his) = own_hold user e.1 own.0.1 in
              inr (e.1, rw (law, same) refl, rw (← id) own.0.0, is_pending, his)
          | inr other ↦ elim (keeps j) [
            | inl kept ↦ inl (rw (law, other) kept)
            | inr (b, gone, stored, is_pending, his) ↦
                inr (b, rw (law, other) gone, stored, is_pending, his)
          ]
        ])

  All-own :
      (user : ℕ) (d : Docs Booking) (xs : List (ℕ × Booking))
      → All (λ e. find_by_id d e.0 ≡ some e.1) xs
      → All (IsOwnHold user d) (filter (λ e. not (is_third_party user e.1)) xs)
  All-own user d [] h = tt
  All-own user d (x ∷ xs) h = elim (Bool-cases (not (is_third_party user x.1))) [
    | inl own ↦ rw own ((h.0, own), All-own user d xs h.1)
    | inr other ↦ rw other (All-own user d xs h.1)
  ]

  All-stored :
      (p q : Booking → Bool) (d : Docs Booking) (xs : List (ℕ × Booking))
      → All (λ e. (find_by_id d e.0 ≡ some e.1) × (p e.1 ≡ true)) xs
      → All (λ e. find_by_id d e.0 ≡ some e.1) (filter (λ e. q e.1) xs)
  All-stored p q d [] h = tt
  All-stored p q d (x ∷ xs) h = elim (Bool-cases (q x.1)) [
    | inl kept ↦ rw kept (h.0.0, All-stored p q d xs h.1)
    | inr dropped ↦ rw dropped (All-stored p q d xs h.1)
  ]

  pub clear_slots-KeepsOthers :
      (now user venue day : ℕ) (slots : List Slot) (d : Docs Booking)
      → KeepsOthers user d (clear_slots mongo now user venue day slots d).1
  unfolding clear_slots valid_overlaps
  clear_slots-KeepsOthers now user venue day slots d =
      let overlaps = valid_overlaps mongo now venue day slots d in
      elim (List-cases (filter (λ e. is_third_party user e.1) overlaps)) [
        | inr (x, xs, somebody) ↦ rw (somebody, clear_slots) (λ j. inl refl)
        | inl nobody ↦
            rw (nobody, clear_slots)
              (delete_all-KeepsOthers user (filter (λ e. not (is_third_party user e.1)) overlaps) d
                d
                (All-own user d overlaps (
                  All-stored (in_the_way venue day slots) (λ b. not (has_run_out now b)) d
                    (find (in_the_way venue day slots) d)
                    (find_sound (in_the_way venue day slots) d)))
                (λ j. inl refl))
      ]
