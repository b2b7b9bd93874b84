-- ===== src/Venue/Closed.antt =====
-- A deleted venue, in the service that deletes it and in the one that books it.
use sports_venue_management.Common.{
  ℕ, ◌≡◌, refl, true, false, none, some, inl, inr, arith, ◌==◌, Bool-cases, Option-cases,
}
use sports_venue_management.Common.Outcome.{Error, ok, err, Result-cases}
use sports_venue_management.Entities.{Venue}
use sports_venue_management.Mongo.{Mongo, update_here}
use sports_venue_management.Platform.{Platform}
use sports_venue_management.Venue.{
  find_live, find_named, resolved_name, updated_name, create_venue, update_venue,
  delete_venue_image, delete_venue,
}
use sports_venue_management.Venue.Amenities.{parse_and_validate_amenities}
use sports_venue_management.Venue.Images.{match_stored_image_key}
use sports_venue_management.Venue.Life.{
  Step, creating, updating, removing, deleting, Steps, nothing, before,
}
use sports_venue_management.Booking.Create.{Context, CreateBody, check_request, create_booking}

module _ (mongo : Mongo) where
  open mongo use {Docs, find_by_id, update, insert, find_by_id-update, find_by_id-insert}

  -- the venue is stored, deleted and inactive
  abbrev pub IsClosed : ℕ → Docs Venue → Type 0
  IsClosed id d =
      (v : Venue) × (find_by_id d id ≡ some v) × (v.is_deleted ≡ true) × (v.is_active ≡ false)

  -- A venue that a call finds is another one.
  update-IsClosed :
      (id j : ℕ) (g : Venue → Venue) (d : Docs Venue) (w : Venue)
      → find_live mongo j d ≡ some w
      → IsClosed id d
      → IsClosed id (update j g d)
  unfolding find_live
  update-IsClosed id j g d w live (v, stored, deleted, idle) =
      let law = find_by_id-update j id g d in
      elim (Bool-cases (j == id)) [
        | inl same ↦ absurd (ground arith)
        | inr other ↦ (v, rw (law, other) stored, deleted, idle)
      ]

  insert-IsClosed :
      (id fresh : ℕ) (w : Venue) (d : Docs Venue)
      → find_by_id d fresh ≡ none
      → IsClosed id d
      → IsClosed id (insert fresh w d)
  insert-IsClosed id fresh w d unused (v, stored, deleted, idle) =
      let law = find_by_id-insert fresh id w d unused in
      elim (Bool-cases (fresh == id)) [
        | inl same ↦ absurd (ground arith)
        | inr other ↦ (v, rw (law, other) stored, deleted, idle)
      ]

  Step-IsClosed : (id : ℕ) {d e : Docs Venue} → Step mongo d e → IsClosed id d → IsClosed id e
  unfolding create_venue update_venue delete_venue_image delete_venue
  Step-IsClosed id (creating body author start finish price uploaded fresh d unused) closed =
      elim (Option-cases (find_named mongo (resolved_name body) d)) [
        | inr (e, taken) ↦ rw (create_venue, taken) closed
        | inl free ↦ elim (Result-cases (parse_and_validate_amenities body.amenities)) [
          | inl (e, bad) ↦ rw (create_venue, free, bad) closed
          | inr (a, good) ↦
              rw (create_venue, free, good) (insert-IsClosed id fresh _ d unused closed)
        ]
      ]
  Step-IsClosed id (updating j body uploaded d) closed = elim (Option-cases (find_live mongo j d)) [
    | inl missing ↦ rw (update_venue, missing) closed
    | inr (v, live) ↦ elim (Result-cases (updated_name mongo j body v d)) [
      | inl (e, taken) ↦ rw (update_venue, live, taken) closed
      | inr (name, fine) ↦ elim (Result-cases (parse_and_validate_amenities body.amenities)) [
        | inl (e, bad) ↦ rw (update_venue, live, fine, bad) closed
        | inr (parsed, good) ↦
            rw (update_venue, live, fine, good) (update-IsClosed id j _ d v live closed)
      ]
    ]
  ]
  Step-IsClosed id (removing j input d) closed = elim (Option-cases (find_live mongo j d)) [
    | inl missing ↦ rw (delete_venue_image, missing) closed
    | inr (v, live) ↦ elim (Option-cases (match_stored_image_key input v.images)) [
      | inl unknown ↦ rw (delete_venue_image, live, unknown) closed
      | inr (key, matched) ↦
          rw (delete_venue_image, live, matched) (update-IsClosed id j _ d v live closed)
    ]
  ]
  Step-IsClosed id (deleting j d) closed = elim (Option-cases (find_live mongo j d)) [
    | inl missing ↦ rw (delete_venue, missing) closed
    | inr (v, live) ↦ rw (delete_venue, live) (update-IsClosed id j _ d v live closed)
  ]

  Steps-IsClosed : (id : ℕ) {d e : Docs Venue} → Steps mongo d e → IsClosed id d → IsClosed id e
  Steps-IsClosed id (nothing d) closed = closed
  Steps-IsClosed id (before first last) closed =
      Step-IsClosed id last (Steps-IsClosed id first closed)

  delete_venue-IsClosed :
      (id : ℕ) (d : Docs Venue)
      → (delete_venue mongo id d).0 ≡ ok tt
      → IsClosed id (delete_venue mongo id d).1
  unfolding delete_venue find_live
  delete_venue-IsClosed id d done = elim (Option-cases (find_by_id d id)) [
    | inl missing ↦ absurd (ground (arith, missing))
    | inr (v, stored) ↦ elim (Bool-cases v.is_deleted) [
      | inl gone ↦ absurd (ground (arith, stored, gone))
      | inr live ↦
          let closing = λ (w : Venue). record w { is_deleted = true; is_active = false } in
          rw (delete_venue, find_live, stored, live)
            (closing v, update_here mongo id closing d v stored, refl, refl)
    ]
  ]

  -- A request for an inactive venue fails at a check.
  check_request-inactive :
      (x : Context) (body : CreateBody) (v r : Venue)
      → v.is_active ≡ false
      → check_request mongo x body (some v) ≡ ok r
      → ⊥
  unfolding check_request
  check_request-inactive x body v r idle h = ground (arith, idle, h)

  -- Once a venue has been deleted, then, whatever further calls of the venue service follow, every
  -- request to book it fails and changes no booking, payment, coupon or wallet.
  pub delete_venue-create_booking :
      (x : Context) (body : CreateBody) (p : Platform mongo) (d later : Docs Venue)
      → (delete_venue mongo body.venue_id d).0 ≡ ok tt
      → Steps mongo (delete_venue mongo body.venue_id d).1 later
      → (e : Error) × (create_booking mongo x body later p ≡ (err e, p))
  unfolding create_booking
  delete_venue-create_booking x body p d later done steps =
      let (v, stored, deleted, idle) =
        Steps-IsClosed body.venue_id steps (delete_venue-IsClosed body.venue_id d done) in
      elim (Result-cases (check_request mongo x body (some v))) [
        | inl (e, refused) ↦ (e, rw (create_booking, stored, refused) refl)
        | inr (r, passed) ↦ absurd (check_request-inactive x body v r idle passed)
      ]
