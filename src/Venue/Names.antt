-- ===== src/Venue/Names.antt =====
-- The names of the venues that are not deleted.
use sports_venue_management.Common.{
  ℕ, ◌≡◌, refl, false, not, ◌&&◌, none, some, List, ◌⊎◌, inl, inr, first-none, filter, filter-nil,
  arith, ◌==◌, sym, ◌∙◌,
}
use sports_venue_management.Common.Text.{text_eq, text_eq_refl}
use sports_venue_management.Entities.{Venue}
use sports_venue_management.Mongo.{Mongo, Found, Found-All, IsApart, update-IsApart, insert-IsApart}
use sports_venue_management.Venue.{find_named, find_other_named}

module _ (mongo : Mongo) where
  open mongo use {Docs, find_by_id, find, update, insert, find_complete}

  -- neither venue is deleted, and their names are the same
  abbrev pub SameName : Venue → Venue → Type 0
  SameName b c = (b.is_deleted ≡ false) × (c.is_deleted ≡ false) × (b.name ≡ c.name)

  pub SameName-swap : (b c : Venue) → SameName b c → SameName c b
  SameName-swap b c (live_b, live_c, same) = (live_c, live_b, sym same)

  -- Of the venues that are not deleted, no two have the same name.
  abbrev pub HasUniqueNames : Docs Venue → Type 0
  HasUniqueNames = IsApart mongo SameName

  -- nobody but `id` has the name
  abbrev pub IsFree : ℕ → List ℕ → Docs Venue → Type 0
  IsFree id name d =
      (j : ℕ) (c : Venue) → find_by_id d j ≡ some c → c.is_deleted ≡ false → c.name ≡ name → j ≡ id

  -- an update that revives nothing, and keeps the name or writes a free one
  abbrev pub Renames : ℕ → (Venue → Venue) → Docs Venue → Type 0
  Renames id g d =
      (w : Venue)
      → find_by_id d id ≡ some w
      → (g w).is_deleted ≡ false
      → (w.is_deleted ≡ false) × (((g w).name ≡ w.name) ⊎ IsFree id (g w).name d)

  pub update-HasUniqueNames :
      (id : ℕ) (g : Venue → Venue) (d : Docs Venue)
      → Renames id g d
      → HasUniqueNames d
      → HasUniqueNames (update id g d)
  update-HasUniqueNames id g d fair unique =
      update-IsApart mongo SameName SameName-swap id g d
        (λ w c j at_id at_j (live, live_c, same).
          let was = fair w at_id live in
          elim was.1 [
            | inl kept ↦ unique id j w c at_id at_j (was.0, live_c, sym kept ∙ same)
            | inr free ↦ sym (free j c at_j live_c (sym same))
          ])
        unique

  -- a live venue with the name is among those of the query
  named :
      (name : List ℕ) (d : Docs Venue) (j : ℕ) (c : Venue)
      → find_by_id d j ≡ some c
      → c.is_deleted ≡ false
      → c.name ≡ name
      → Found j c (find (λ v. text_eq v.name name && not v.is_deleted) d)
  named name d j c stored live same =
      find_complete (λ v. text_eq v.name name && not v.is_deleted) d j c stored
        (rw (same, text_eq_refl name, live) refl)

  pub find_named-none :
      (name : List ℕ) (d : Docs Venue) (j : ℕ) (c : Venue)
      → find_named mongo name d ≡ none
      → find_by_id d j ≡ some c
      → c.is_deleted ≡ false
      → c.name ≡ name
      → ⊥
  unfolding find_named
  find_named-none name d j c absent stored live same =
      rw (first-none (find (λ v. text_eq v.name name && not v.is_deleted) d) absent) at
        (named name d j c stored live same)

  pub find_other_named-none :
      (id : ℕ) (name : List ℕ) (d : Docs Venue)
      → find_other_named mongo id name d ≡ none
      → IsFree id name d
  unfolding find_other_named
  find_other_named-none id name d absent j c stored live same =
      let matching = find (λ v. text_eq v.name name && not v.is_deleted) d in
      let own =
        filter-nil (λ e. not (e.0 == id)) matching
          (first-none (filter (λ e. not (e.0 == id)) matching) absent) in
      let at_j =
        Found-All j c (λ e. not (e.0 == id) ≡ false) matching own
          (named name d j c stored live same) in
      ground arith

  pub insert-HasUniqueNames :
      (fresh : ℕ) (v : Venue) (d : Docs Venue)
      → find_by_id d fresh ≡ none
      → find_named mongo v.name d ≡ none
      → HasUniqueNames d
      → HasUniqueNames (insert fresh v d)
  insert-HasUniqueNames fresh v d unused absent unique =
      insert-IsApart mongo SameName SameName-swap fresh v d unused
        (λ c j stored (live, live_c, same).
          find_named-none v.name d j c absent stored live_c (sym same))
        unique
