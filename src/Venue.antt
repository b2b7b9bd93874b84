-- ===== src/Venue.antt =====
-- src/modules/venue/venue.service.ts: the venues that customers book. Texts in other languages, the
-- address and the place are left out. Objects of the storage are named by their keys.
pub mod Images
pub mod Amenities
pub mod Names
pub mod Life
pub mod Unique
pub mod Closed
pub mod Gallery
use sports_venue_management.Common.{
  ℕ, Bool, true, false, not, ◌&&◌, ◌||◌, Option, none, some, List, [], ◌∷◌, ◌++◌, ◌==◌, filter,
  first, if◌then◌else◌,
}
use sports_venue_management.Common.Int.{sub_ℕ}
use sports_venue_management.Common.Text.{text_eq}
use sports_venue_management.Common.Outcome.{
  Result, ok, err, venue_exists, venue_not_found, venue_image_not_found,
}
use sports_venue_management.Entities.{Venue, HourPrice, DatePrice}
use sports_venue_management.Mongo.{Mongo}
use Images.{match_stored_image_key, matched_keys, kept_images, remove_key}
use Amenities.{parse_and_validate_amenities}

-- `CreateVenueDto` and `UpdateVenueDto`. A name that is left out is the empty text, which the
-- service takes alike; any other field that is left out is `none`.
pub record VenueBody : Type 0 where
  pub venue_name : List ℕ
  pub venue_name_en : List ℕ
  pub venue_name_ar : List ℕ
  pub amenities : Option (List (List ℕ))
  pub start_working_hours : Option ℕ
  pub end_working_hours : Option ℕ
  pub default_hour_price : Option ℕ
  pub custom_hour_prices : Option (List HourPrice)
  pub custom_date_prices : Option (List DatePrice)
  pub minimum_deposit_amount : Option ℕ
  pub existing_images : Option (List (List ℕ))
  pub keep_images : Option (List (List ℕ))
  pub removed_images : Option (List (List ℕ))
  pub delete_images : Option (List (List ℕ))
  pub is_active : Option Bool

-- `a || b` on texts
abbrev pub or_text : List ℕ → List ℕ → List ℕ
or_text [] b = b
or_text (c ∷ s) b = c ∷ s

-- `a ?? b`
abbrev pub or_option {ℓ} : {A : Type ℓ} → Option A → Option A → Option A
or_option none b = b
or_option (some a) b = some a

abbrev pub or_else {ℓ} : {A : Type ℓ} → Option A → A → A
or_else none b = b
or_else (some a) b = a

abbrev pub is_given {ℓ} : {A : Type ℓ} → Option A → Bool
is_given none = false
is_given (some a) = true

-- `venueName || venueNameEn || venueNameAr`
unfoldable pub resolved_name : VenueBody → List ℕ
resolved_name body = or_text body.venue_name (or_text body.venue_name_en body.venue_name_ar)

module _ (mongo : Mongo) where
  open mongo use {Docs, find_by_id, find, update, insert}

  -- `findOne({ _id: id, isDeleted: { $ne: true } })`
  unfoldable pub find_live : ℕ → Docs Venue → Option Venue
  find_live id d = elim (find_by_id d id) [
    | none ↦ none
    | some v ↦ if v.is_deleted then none else some v
  ]

  -- `findOne({ venueName: name, isDeleted: { $ne: true } })`
  unfoldable pub find_named : List ℕ → Docs Venue → Option (ℕ × Venue)
  find_named name d = first (find (λ v. text_eq v.name name && not v.is_deleted) d)

  -- the same, with `_id: { $ne: id }`
  unfoldable pub find_other_named : ℕ → List ℕ → Docs Venue → Option (ℕ × Venue)
  find_other_named id name d =
      first (filter (λ e. not (e.0 == id)) (find (λ v. text_eq v.name name && not v.is_deleted) d))

  -- the document of `createVenue`
  unfoldable pub new_venue : VenueBody → ℕ → ℕ → ℕ → ℕ → List (List ℕ) → List (List ℕ) → Venue
  new_venue body author start finish price amenities uploaded = record {
    name = resolved_name body;
    images = or_else (or_option body.existing_images body.keep_images) [] ++ uploaded;
    amenities = amenities;
    start_working_hours = start;
    end_working_hours = finish;
    working_hours = sub_ℕ finish start;
    default_hour_price = price;
    custom_hour_prices = or_else body.custom_hour_prices [];
    custom_date_prices = or_else body.custom_date_prices [];
    minimum_deposit_amount = some (or_else body.minimum_deposit_amount 0);
    is_active = or_else body.is_active true;
    created_by = some author;
    is_deleted = false;
  }

  -- `createVenue`, with the hours and the price that its DTO requires, and with the keys under which
  -- the new images were stored
  unfoldable pub create_venue :
      VenueBody → ℕ → ℕ → ℕ → ℕ → List (List ℕ) → ℕ → Docs Venue → Result (Unit {0}) × Docs Venue
  unfolding resolved_name find_named parse_and_validate_amenities new_venue
  create_venue body author start finish price uploaded fresh d =
      elim (find_named (resolved_name body) d) [
        | some e ↦ (err venue_exists, d)
        | none ↦ elim (parse_and_validate_amenities body.amenities) [
          | err e ↦ (err e, d)
          | ok amenities ↦
              (ok tt, insert fresh (new_venue body author start finish price amenities uploaded) d)
        ]
      ]

  -- the name that `updateVenue` writes, where another venue does not have it
  unfoldable pub updated_name : ℕ → VenueBody → Venue → Docs Venue → Result (List ℕ)
  unfolding resolved_name find_other_named
  updated_name id body v d = elim (resolved_name body) [
    | [] ↦ ok v.name
    | c ∷ s ↦
        if text_eq (c ∷ s) v.name
        then ok v.name
        else elim (find_other_named id (c ∷ s) d) [ some e ↦ err venue_exists | none ↦ ok (c ∷ s) ]
  ]

  -- the keys that `updateVenue` removes from the storage
  unfoldable pub removed_keys : VenueBody → Venue → List (List ℕ)
  unfolding matched_keys
  removed_keys body v =
      matched_keys (or_else body.removed_images [] ++ or_else body.delete_images []) v.images []

  unfoldable pub updated_venue : VenueBody → List ℕ → List (List ℕ) → List (List ℕ) → Venue → Venue
  unfolding removed_keys kept_images
  updated_venue body name amenities uploaded v =
      let start = or_else body.start_working_hours v.start_working_hours in
      let finish = or_else body.end_working_hours v.end_working_hours in
      record v {
        name = name;
        images =
            kept_images (or_option body.existing_images body.keep_images) (removed_keys body v)
              v.images
            ++ uploaded;
        amenities = amenities;
        start_working_hours = start;
        end_working_hours = finish;
        working_hours =
            if is_given body.start_working_hours || is_given body.end_working_hours
            then sub_ℕ finish start
            else v.working_hours;
        default_hour_price = or_else body.default_hour_price v.default_hour_price;
        custom_hour_prices = or_else body.custom_hour_prices v.custom_hour_prices;
        custom_date_prices = or_else body.custom_date_prices v.custom_date_prices;
        minimum_deposit_amount = or_option body.minimum_deposit_amount v.minimum_deposit_amount;
        is_active = or_else body.is_active v.is_active;
      }

  unfoldable pub update_venue :
      ℕ → VenueBody → List (List ℕ) → Docs Venue → Result (Unit {0}) × Docs Venue
  unfolding find_live updated_name parse_and_validate_amenities updated_venue
  update_venue id body uploaded d = elim (find_live id d) [
    | none ↦ (err venue_not_found, d)
    | some v ↦ elim (updated_name id body v d) [
      | err e ↦ (err e, d)
      | ok name ↦ elim (parse_and_validate_amenities body.amenities) [
        | err e ↦ (err e, d)
        | ok parsed ↦
            let amenities = if is_given body.amenities then parsed else v.amenities in
            (ok tt, update id (updated_venue body name amenities uploaded) d)
      ]
    ]
  ]

  unfoldable pub delete_venue_image : ℕ → List ℕ → Docs Venue → Result (List (List ℕ)) × Docs Venue
  unfolding find_live match_stored_image_key remove_key
  delete_venue_image id input d = elim (find_live id d) [
    | none ↦ (err venue_not_found, d)
    | some v ↦ elim (match_stored_image_key input v.images) [
      | none ↦ (err venue_image_not_found, d)
      | some key ↦
          let rest = remove_key key v.images in
          (ok rest, update id (λ w. record w { images = rest }) d)
    ]
  ]

  unfoldable pub delete_venue : ℕ → Docs Venue → Result (Unit {0}) × Docs Venue
  unfolding find_live
  delete_venue id d = elim (find_live id d) [
    | none ↦ (err venue_not_found, d)
    | some v ↦ (ok tt, update id (λ w. record w { is_deleted = true; is_active = false }) d)
  ]
