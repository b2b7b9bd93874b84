-- ===== src/Venue/Amenities.antt =====
-- `parseAndValidateAmenities`: the names that a request gives, once the texts of JSON among them are
-- parsed.
use sports_venue_management.Common.{
  ℕ, Bool, ◌||◌, ◌&&◌, Option, none, some, List, [], ◌∷◌, ◌++◌, find?, if◌then◌else◌,
}
use sports_venue_management.Common.Text.{text_eq, trim, lower, ends_with, includes, codes}
use sports_venue_management.Common.Outcome.{Result, ok, err, bad_amenity}

-- `ALLOWED_AMENITIES`
abbrev pub allowed_amenities : List (List ℕ)
allowed_amenities =
    codes "Parking"
    ∷ codes "Cafeteria"
    ∷ codes "Shower"
    ∷ codes "ChangingRoom"
    ∷ codes "Toilets"
    ∷ codes "WiFi"
    ∷ codes "Lockers"
    ∷ codes "FloodLights"
    ∷ codes "DrinkingWater"
    ∷ codes "FirstAid"
    ∷ codes "PrayerArea"
    ∷ codes "EquipmentRental"
    ∷ []

-- `s.slice(0, -1)`
abbrev but_last : List ℕ → List ℕ
but_last [] = []
but_last (c ∷ []) = []
but_last (c ∷ d ∷ s) = c ∷ but_last (d ∷ s)

-- the same word, but for capitals and for an `s` at the end of either
unfoldable pub same_word : List ℕ → List ℕ → Bool
unfolding lower ends_with
same_word trimmed allowed =
    text_eq (lower allowed) (lower trimmed)
    || (text_eq (lower allowed ++ codes "s") (lower trimmed)
        || (ends_with allowed (codes "s") && text_eq (lower (but_last allowed)) (lower trimmed)))

abbrev add_amenity : List ℕ → List (List ℕ) → List (List ℕ)
add_amenity a set = if includes set a then set else set ++ (a ∷ [])

-- the loop over the names; a blank one is passed over
unfoldable pub validate_amenities : List (List ℕ) → List (List ℕ) → Result (List (List ℕ))
unfolding trim same_word includes
validate_amenities [] set = ok set
validate_amenities (amenity ∷ rest) set = elim (trim amenity) [
  | [] ↦ validate_amenities rest set
  | c ∷ s ↦ elim (find? (same_word (c ∷ s)) allowed_amenities) [
    | none ↦ err bad_amenity
    | some a ↦ validate_amenities rest (add_amenity a set)
  ]
]

unfoldable pub parse_and_validate_amenities : Option (List (List ℕ)) → Result (List (List ℕ))
unfolding validate_amenities
parse_and_validate_amenities none = ok []
parse_and_validate_amenities (some names) = validate_amenities names []
