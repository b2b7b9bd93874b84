-- ===== src/Venue/Gallery.antt =====
-- The images that an update leaves.
use sports_venue_management.Common.{ℕ, ◌≡◌, true, false, Option, none, some, List, All}
use sports_venue_management.Common.Text.{includes}
use sports_venue_management.Entities.{Venue}
use sports_venue_management.Mongo.{Mongo}
use sports_venue_management.Venue.Images.{match_stored_image_key, without}

-- a key that was stored and that was not removed
abbrev pub IsKept : List (List ℕ) → List (List ℕ) → List ℕ → Type 0
IsKept stored gone k = (includes stored k ≡ true) × (includes gone k ≡ false)

-- every image that an input names is on the list
abbrev pub HasNamed : List (List ℕ) → List (List ℕ) → List (List ℕ) → Type 0
HasNamed inputs stored kept =
    All (λ x. (k : List ℕ) → match_stored_image_key x stored ≡ some k → includes kept k ≡ true)
      inputs

-- Nothing else goes: without a list of images to keep every image that was not removed is kept, and
-- with one every such image that the list names.
abbrev pub IsComplete :
    Option (List (List ℕ)) → List (List ℕ) → List (List ℕ) → List (List ℕ) → Type 0
IsComplete none gone stored kept = (k : List ℕ) → IsKept stored gone k → includes kept k ≡ true
IsComplete (some inputs) gone stored kept = HasNamed inputs (without gone stored) kept
