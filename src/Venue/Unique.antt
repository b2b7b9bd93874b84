-- ===== src/Venue/Unique.antt =====
-- The service keeps the names of venues apart.
use sports_venue_management.Common.{
  ℕ, ◌≡◌, refl, true, false, none, some, List, ◌∷◌, inl, inr, ◌⊎◌, arith, List-cases, if◌then◌else◌,
  Bool-cases, Option-cases, sym,
}
use mathlib.Core.Path.{subst}
use sports_venue_management.Common.Outcome.{ok, Result-cases}
use sports_venue_management.Common.Text.{text_eq}
use sports_venue_management.Entities.{Venue}
use sports_venue_management.Mongo.{Mongo}
use sports_venue_management.Venue.{
  VenueBody, is_given, resolved_name, find_live, find_named, find_other_named, new_venue,
  updated_name, updated_venue, create_venue, update_venue, delete_venue_image, delete_venue,
}
use sports_venue_management.Venue.Amenities.{parse_and_validate_amenities}
use sports_venue_management.Venue.Images.{match_stored_image_key, remove_key}
use sports_venue_management.Venue.Life.{
  Step, creating, updating, removing, deleting, Steps, nothing, before,
}
use sports_venue_management.Venue.Names.{
  HasUniqueNames, IsFree, update-HasUniqueNames, insert-HasUniqueNames, find_other_named-none,
}

module _ (mongo : Mongo) where
  open mongo use {Docs, find_by_id, update, insert}

  find_live-some :
      (id : ℕ) (d : Docs Venue) (v w : Venue)
      → find_live mongo id d ≡ some v
      → find_by_id d id ≡ some w
      → (w ≡ v) × (w.is_deleted ≡ false)
  unfolding find_live
  find_live-some id d v w found stored = ground (arith, found, stored)

  create_venue-HasUniqueNames :
      (body : VenueBody) (author start finish price : ℕ) (uploaded : List (List ℕ)) (fresh : ℕ)
      (d : Docs Venue)
      → find_by_id d fresh ≡ none
      → HasUniqueNames mongo d
      → HasUniqueNames mongo (create_venue mongo body author start finish price uploaded fresh d).1
  unfolding create_venue new_venue
  create_venue-HasUniqueNames body author start finish price uploaded fresh d unused unique =
      elim (Option-cases (find_named mongo (resolved_name body) d)) [
        | inr (e, taken) ↦ rw (create_venue, taken) unique
        | inl free ↦ elim (Result-cases (parse_and_validate_amenities body.amenities)) [
          | inl (e, bad) ↦ rw (create_venue, free, bad) unique
          | inr (a, good) ↦
              rw (create_venue, free, good)
                (insert-HasUniqueNames mongo fresh
                  (new_venue mongo body author start finish price a uploaded) d unused free unique)
        ]
      ]

  -- the name that an update writes is the old one or free
  updated_name-IsFree :
      (id : ℕ) (body : VenueBody) (v : Venue) (d : Docs Venue) (name : List ℕ)
      → updated_name mongo id body v d ≡ ok name
      → (name ≡ v.name) ⊎ IsFree mongo id name d
  unfolding updated_name
  updated_name-IsFree id body v d name h = elim (List-cases (resolved_name body)) [
    | inl blank ↦ inl (cc (rw (updated_name, blank) at h))
    | inr (c, s, given) ↦ elim (Bool-cases (text_eq (c ∷ s) v.name)) [
      | inl same ↦ inl (cc (rw (updated_name, given, same) at h))
      | inr other ↦ elim (Option-cases (find_other_named mongo id (c ∷ s) d)) [
        | inl free ↦ inr (
            subst (λ n. IsFree mongo id n d) (cc (rw (updated_name, given, other, free) at h))
              (find_other_named-none mongo id (c ∷ s) d free))
        | inr (e, taken) ↦ absurd (cc (rw (updated_name, given, other, taken) at h))
      ]
    ]
  ]

  update_venue-HasUniqueNames :
      (id : ℕ) (body : VenueBody) (uploaded : List (List ℕ)) (d : Docs Venue)
      → HasUniqueNames mongo d
      → HasUniqueNames mongo (update_venue mongo id body uploaded d).1
  unfolding update_venue updated_venue
  update_venue-HasUniqueNames id body uploaded d unique =
      elim (Option-cases (find_live mongo id d)) [
        | inl missing ↦ rw (update_venue, missing) unique
        | inr (v, live) ↦ elim (Result-cases (updated_name mongo id body v d)) [
          | inl (e, taken) ↦ rw (update_venue, live, taken) unique
          | inr (name, fine) ↦ elim (Result-cases (parse_and_validate_amenities body.amenities)) [
            | inl (e, bad) ↦ rw (update_venue, live, fine, bad) unique
            | inr (parsed, good) ↦
                let set = if is_given body.amenities then parsed else v.amenities in
                rw (update_venue, live, fine, good)
                  (update-HasUniqueNames mongo id (updated_venue mongo body name set uploaded) d
                    (λ w stored alive.
                      let own = find_live-some id d v w live stored in
                      (
                        own.1,
                        subst (λ x. (name ≡ x.name) ⊎ IsFree mongo id name d) (sym own.0)
                            (updated_name-IsFree id body v d name fine),
                      ))
                    unique)
          ]
        ]
      ]

  delete_venue_image-HasUniqueNames :
      (id : ℕ) (input : List ℕ) (d : Docs Venue)
      → HasUniqueNames mongo d
      → HasUniqueNames mongo (delete_venue_image mongo id input d).1
  unfolding delete_venue_image
  delete_venue_image-HasUniqueNames id input d unique = elim (Option-cases (find_live mongo id d)) [
    | inl missing ↦ rw (delete_venue_image, missing) unique
    | inr (v, live) ↦ elim (Option-cases (match_stored_image_key input v.images)) [
      | inl unknown ↦ rw (delete_venue_image, live, unknown) unique
      | inr (key, matched) ↦
          rw (delete_venue_image, live, matched)
            (update-HasUniqueNames mongo id (λ w. record w { images = remove_key key v.images }) d
              (λ w stored alive. (alive, inl refl)) unique)
    ]
  ]

  delete_venue-HasUniqueNames :
      (id : ℕ) (d : Docs Venue)
      → HasUniqueNames mongo d
      → HasUniqueNames mongo (delete_venue mongo id d).1
  unfolding delete_venue
  delete_venue-HasUniqueNames id d unique = elim (Option-cases (find_live mongo id d)) [
    | inl missing ↦ rw (delete_venue, missing) unique
    | inr (v, live) ↦
        rw (delete_venue, live)
          (update-HasUniqueNames mongo id (λ w. record w { is_deleted = true; is_active = false }) d
            (λ w stored dead. cc (dead)) unique)
  ]

  Step-HasUniqueNames :
      {d e : Docs Venue} → Step mongo d e → HasUniqueNames mongo d → HasUniqueNames mongo e
  Step-HasUniqueNames (creating body author start finish price uploaded fresh d unused) unique =
      create_venue-HasUniqueNames body author start finish price uploaded fresh d unused unique
  Step-HasUniqueNames (updating id body uploaded d) unique =
      update_venue-HasUniqueNames id body uploaded d unique
  Step-HasUniqueNames (removing id input d) unique =
      delete_venue_image-HasUniqueNames id input d unique
  Step-HasUniqueNames (deleting id d) unique = delete_venue-HasUniqueNames id d unique

  -- Whatever calls of the venue service follow one another, of the venues that are not deleted no
  -- two have the same name, if none had before.
  pub Steps-HasUniqueNames :
      {d e : Docs Venue} → Steps mongo d e → HasUniqueNames mongo d → HasUniqueNames mongo e
  Steps-HasUniqueNames (nothing d) unique = unique
  Steps-HasUniqueNames (before first last) unique =
      Step-HasUniqueNames last (Steps-HasUniqueNames first unique)
