-- ===== src/Examples/Venues.antt =====
-- The theorems on venues, applied.
use sports_venue_management.Common.{ℕ, ◌≡◌, refl, true, none, some, List, [], ◌∷◌, arith}
use sports_venue_management.Common.Outcome.{Error, err}
use sports_venue_management.Entities.{Venue}
use sports_venue_management.Mongo.{list_mongo}
use sports_venue_management.Mongo.ListStore.{get}
use sports_venue_management.Booking.Create.{create_booking}
use sports_venue_management.Venue.{VenueBody, create_venue, update_venue, delete_venue}
use sports_venue_management.Venue.Life.{creating, updating, nothing, before}
use sports_venue_management.Venue.Names.{HasUniqueNames}
use sports_venue_management.Venue.Unique.{Steps-HasUniqueNames}
use sports_venue_management.Venue.Closed.{delete_venue-create_booking}
use sports_venue_management.Examples.Data.{paid_booking, platform, venue, body, context}

-- "B", with nothing else said
abbrev renaming : VenueBody
renaming = record {
  venue_name = 66 ∷ [];
  venue_name_en = [];
  venue_name_ar = [];
  amenities = none;
  start_working_hours = none;
  end_working_hours = none;
  default_hour_price = none;
  custom_hour_prices = none;
  custom_date_prices = none;
  minimum_deposit_amount = none;
  existing_images = none;
  keep_images = none;
  removed_images = none;
  delete_images = none;
  is_active = none;
}

abbrev venues : List (ℕ × Venue)
venues = (3, venue) ∷ []

-- another venue is created, and the first takes a name that is not free and then loses its image
Steps-HasUniqueNames_example :
    HasUniqueNames list_mongo
      (update_venue list_mongo 3 renaming []
        (create_venue list_mongo renaming 1 8 23 30000 [] 4 venues).1).1
unfolding get
Steps-HasUniqueNames_example =
    Steps-HasUniqueNames list_mongo
      (before (before (nothing venues) (creating renaming 1 8 23 30000 [] 4 venues refl))
        (updating 3 renaming [] (create_venue list_mongo renaming 1 8 23 30000 [] 4 venues).1))
      (λ i j b c at_i at_j same. ground arith)

delete_venue-create_booking_example :
    (e : Error) × (create_booking list_mongo context body
        (update_venue list_mongo 3
          (record renaming { is_active = some true })
          []
          (delete_venue list_mongo 3 venues).1).1
        (platform paid_booking)
      ≡ (err e, platform paid_booking))
unfolding delete_venue get
delete_venue-create_booking_example =
    delete_venue-create_booking list_mongo context body (platform paid_booking) venues
      (update_venue list_mongo 3 (record renaming { is_active = some true }) []
        (delete_venue list_mongo 3 venues).1).1
      refl
      (before (nothing (delete_venue list_mongo 3 venues).1) (
        updating 3 (record renaming { is_active = some true }) []
          (delete_venue list_mongo 3 venues).1))

-- the images "a" and "b", of which "a" is removed while "c" comes in
abbrev pictured : Venue
pictured = record venue { images = (97 ∷ []) ∷ (98 ∷ []) ∷ [] }

abbrev cleaning_up : VenueBody
cleaning_up = record renaming { removed_images = some ((97 ∷ []) ∷ []) }
