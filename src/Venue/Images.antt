-- ===== src/Venue/Images.antt =====
-- The gallery of a venue (`matchStoredImageKey`, and the images of `updateVenue` and
-- `deleteVenueImage`).
use sports_venue_management.Common.{
  ℕ, Bool, ◌||◌, not, Option, none, some, List, [], ◌∷◌, ◌++◌, find?, filter, if◌then◌else◌,
}
use sports_venue_management.Common.Text.{text_eq, trim, before, ends_with, has_part, includes}

-- `inputStr.split('?')[0].trim()`
unfoldable pub clean_input : List ℕ → List ℕ
unfolding trim before
clean_input input = trim (before 63 input)

-- the test of the loop
unfoldable pub names_key : List ℕ → List ℕ → Bool
unfolding clean_input ends_with has_part
names_key input key =
    let clean = clean_input input in
    text_eq clean key || (ends_with clean key || (ends_with key clean || has_part input key))

unfoldable pub match_stored_image_key : List ℕ → List (List ℕ) → Option (List ℕ)
unfolding names_key
match_stored_image_key [] stored = none
match_stored_image_key (c ∷ s) stored = find? (names_key (c ∷ s)) stored

-- `if (matched && !keys.includes(matched)) keys.push(matched)`
unfoldable pub push_key : Option (List ℕ) → List (List ℕ) → List (List ℕ)
unfolding includes
push_key none keys = keys
push_key (some key) keys = if includes keys key then keys else keys ++ (key ∷ [])

unfoldable pub matched_keys : List (List ℕ) → List (List ℕ) → List (List ℕ) → List (List ℕ)
unfolding match_stored_image_key push_key
matched_keys [] stored keys = keys
matched_keys (x ∷ xs) stored keys =
    matched_keys xs stored (push_key (match_stored_image_key x stored) keys)

-- `currentStoredKeys.filter((k) => !keysToDelete.includes(k))`
unfoldable pub without : List (List ℕ) → List (List ℕ) → List (List ℕ)
unfolding includes
without gone keys = filter (λ k. not (includes gone k)) keys

-- what `updateVenue` keeps of the gallery: without the keys that it removes from the storage, and
-- of these, where the request has a list of images to keep, those that the list names
unfoldable pub kept_images : Option (List (List ℕ)) → List (List ℕ) → List (List ℕ) → List (List ℕ)
unfolding matched_keys without
kept_images none gone stored = without gone stored
kept_images (some kept) gone stored = matched_keys kept (without gone stored) []

-- `currentKeys.filter((k) => k !== matchedKey)`
unfoldable pub remove_key : List ℕ → List (List ℕ) → List (List ℕ)
remove_key key keys = filter (λ k. not (text_eq k key)) keys
