-- ===== src/Venue/Life.antt =====
-- The calls of the venue service as steps.
use sports_venue_management.Common.{ℕ, ◌≡◌, none, List}
use sports_venue_management.Entities.{Venue}
use sports_venue_management.Mongo.{Mongo}
use sports_venue_management.Venue.{
  VenueBody, create_venue, update_venue, delete_venue_image, delete_venue,
}

module _ (mongo : Mongo) where
  open mongo use {Docs, find_by_id}

  -- one call of the service; a new venue gets an identifier that no document has
  pub data Step : Docs Venue → Docs Venue → Type 0 where
    creating :
        (body : VenueBody) (author start finish price : ℕ) (uploaded : List (List ℕ)) (fresh : ℕ)
        (d : Docs Venue)
        → find_by_id d fresh ≡ none
        → Step d (create_venue mongo body author start finish price uploaded fresh d).1
    updating :
        (id : ℕ) (body : VenueBody) (uploaded : List (List ℕ)) (d : Docs Venue)
        → Step d (update_venue mongo id body uploaded d).1
    removing :
        (id : ℕ) (input : List ℕ) (d : Docs Venue) → Step d (delete_venue_image mongo id input d).1
    deleting : (id : ℕ) (d : Docs Venue) → Step d (delete_venue mongo id d).1

  pub data Steps : Docs Venue → Docs Venue → Type 0 where
    nothing : (d : Docs Venue) → Steps d d
    before : {d e f : Docs Venue} → Steps d e → Step e f → Steps d f
