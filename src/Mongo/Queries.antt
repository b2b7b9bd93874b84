-- ===== src/Mongo/Queries.antt =====
-- What a query returned.
use sports_venue_management.Common.{
  ℕ, ◌≡◌, ◌↔◌, refl, inl, inr, Bool, true, none, some, List, [], ◌∷◌, All, first, first-All,
  first-none, sym, ap, ◌∙◌, ◌==◌, ==_refl, Bool-cases, Option-cases,
}
use mathlib.Core.Option.{some-injective}
use mathlib.Core.Path.{subst₂}
use sports_venue_management.Mongo.Interface.{Mongo, Found}

-- what holds of all results holds of one that was found
pub Found-All :
    {V : Type 0} (i : ℕ) (v : V) (P : ℕ × V → Type 0) (ds : List (ℕ × V))
    → All P ds
    → Found i v ds
    → P (i, v)
Found-All i v P [] all found = absurd found
Found-All i v P (d ∷ ds) (pd, all) (inl (same_id, same)) = subst₂ (λ j w. P (j, w)) same_id same pd
Found-All i v P (d ∷ ds) (pd, all) (inr later) = Found-All i v P ds all later

module _ (mongo : Mongo) where
  open mongo use {Docs, find_by_id, find, insert, find_sound, find_complete, find_by_id-insert}

  -- A stored document is found exactly if it fits.
  pub find_iff :
      {V : Type 0} (p : V → Bool) (d : Docs V) (i : ℕ) (v : V)
      → find_by_id d i ≡ some v
      → ((x : V) × Found i x (find p d)) ↔ (p v ≡ true)
  find_iff p d i v here = (
    λ found.
        let (stored, fits) =
          Found-All i found.0 (λ e. (find_by_id d e.0 ≡ some e.1) × (p e.1 ≡ true)) (find p d)
            (find_sound p d) found.1 in
        let same = some-injective found.0 v (sym stored ∙ here) in sym (ap p same) ∙ fits,
    λ fits. (v, find_complete p d i v here fits),
  )

  -- what `findOne` returns is stored and fits
  pub first_find-some :
      {V : Type 0} (p : V → Bool) (d : Docs V) (e : ℕ × V)
      → first (find p d) ≡ some e
      → (find_by_id d e.0 ≡ some e.1) × (p e.1 ≡ true)
  first_find-some p d e h =
      first-All (λ x. (find_by_id d x.0 ≡ some x.1) × (p x.1 ≡ true)) (find p d) e (find_sound p d)
        h

  -- where it returns nothing, nothing that is stored fits
  pub first_find-none :
      {V : Type 0} (p : V → Bool) (d : Docs V) (i : ℕ) (v : V)
      → first (find p d) ≡ none
      → find_by_id d i ≡ some v
      → p v ≡ true
      → ⊥
  first_find-none p d i v h stored fits =
      rw (first-none (find p d) h) at (find_complete p d i v stored fits)

  -- The first document that fits is the one that `findOne` then returns.
  pub first_find-insert :
      {V : Type 0} (p : V → Bool) (fresh : ℕ) (v : V) (d : Docs V)
      → find_by_id d fresh ≡ none
      → first (find p d) ≡ none
      → p v ≡ true
      → (i : ℕ) × (first (find p (insert fresh v d)) ≡ some (i, v))
  first_find-insert p fresh v d unused absent fits =
      elim (Option-cases (first (find p (insert fresh v d)))) [
        | inl missing ↦ absurd (
            first_find-none p (insert fresh v d) fresh v missing
              (rw (find_by_id-insert fresh fresh v d unused, ==_refl fresh) refl) fits)
        | inr (e, found) ↦
            let (stored, fits_e) = first_find-some p (insert fresh v d) e found in
            let at_key = rw (find_by_id-insert fresh e.0 v d unused) at stored in
            elim (Bool-cases (fresh == e.0)) [
              | inl new ↦ (e.0, cc (found, some-injective v e.1 (rw new at at_key)))
              | inr old ↦ absurd (first_find-none p d e.0 e.1 absent (rw old at at_key) fits_e)
            ]
      ]
