-- ===== src/Mongo/Interface.antt =====
-- The calls of src/common/repositories/base-repo.ts that the services make, and the documented
-- behaviour of the driver that they rest on.
use sports_venue_management.Common.{
  ℕ, ◌≡◌, ◌⊎◌, Bool, true, Option, none, some, List, [], ◌∷◌, All, ◌==◌, if◌then◌else◌,
}
use mathlib.Core.Option

-- A document and its identifier are among those that a query returned.
abbrev pub Found : {V : Type 0} → ℕ → V → List (ℕ × V) → Type 0
Found i v [] = ⊥
Found i v (d ∷ ds) = ((d.0 ≡ i) × (d.1 ≡ v)) ⊎ Found i v ds

-- An identifier is among those that a query returned.
abbrev pub IdIn : {V : Type 0} → ℕ → List (ℕ × V) → Type 0
IdIn i [] = ⊥
IdIn i (d ∷ ds) = (d.0 ≡ i) ⊎ IdIn i ds

pub record Mongo : Type 1 where
  pub Docs : Type 0 → Type 0
  -- `findById`, and `findOne` by a unique index
  pub find_by_id : {V : Type 0} → Docs V → ℕ → Option V
  -- `find`
  pub find : {V : Type 0} → (V → Bool) → Docs V → List (ℕ × V)
  -- `findByIdAndUpdate`, `save` of a document, and `findOneAndUpdate` by a unique index
  pub update : {V : Type 0} → ℕ → (V → V) → Docs V → Docs V
  -- `create` under a fresh identifier
  pub insert : {V : Type 0} → ℕ → V → Docs V → Docs V
  -- `findByIdAndDelete`
  pub delete : {V : Type 0} → ℕ → Docs V → Docs V
  pub find_by_id-update :
      {V : Type 0} (i j : ℕ) (f : V → V) (d : Docs V)
      → find_by_id (update i f d) j
        ≡ (if i == j then Option.map f (find_by_id d j) else find_by_id d j)
  pub find_by_id-insert :
      {V : Type 0} (i j : ℕ) (v : V) (d : Docs V)
      → find_by_id d i ≡ none
      → find_by_id (insert i v d) j ≡ (if i == j then some v else find_by_id d j)
  pub find_by_id-delete :
      {V : Type 0} (i j : ℕ) (d : Docs V)
      → find_by_id (delete i d) j ≡ (if i == j then none else find_by_id d j)
  -- A query returns stored documents that fit its filter,
  pub find_sound :
      {V : Type 0} (p : V → Bool) (d : Docs V)
      → All (λ e. (find_by_id d e.0 ≡ some e.1) × (p e.1 ≡ true)) (find p d)
  -- and every one of them.
  pub find_complete :
      {V : Type 0} (p : V → Bool) (d : Docs V) (i : ℕ) (v : V)
      → find_by_id d i ≡ some v
      → p v ≡ true
      → Found i v (find p d)
