-- ===== src/Mongo/Updates.antt =====
-- What a stored document was before an update.
use sports_venue_management.Common.{
  ℕ, ◌≡◌, ◌⊎◌, inl, inr, true, false, some, arith, ◌==◌, Bool-cases, Option-cases, sym,
}
use mathlib.Core.Option.{some-injective}
use sports_venue_management.Mongo.Interface.{Mongo}

module _ (mongo : Mongo) {V : Type 0} where
  open mongo use {Docs, find_by_id, update, find_by_id-update}

  pub update_was :
      (i j : ℕ) (g : V → V) (d : Docs V) (v : V)
      → find_by_id (update i g d) j ≡ some v
      → (w : V) × (find_by_id d j ≡ some w)
        × ((((i == j) ≡ true) × (v ≡ g w)) ⊎ (((i == j) ≡ false) × (v ≡ w)))
  update_was i j g d v here =
      let law = find_by_id-update i j g d in
      elim (Option-cases (find_by_id d j)) [
        | inl missing ↦ absurd (ground (arith, law, missing, here))
        | inr (w, stored) ↦ elim (Bool-cases (i == j)) [
          | inl same ↦
              (w, stored, inl (same, sym (some-injective (g w) v (rw (law, same, stored) at here))))
          | inr other ↦
              (w, stored, inr (other, sym (some-injective w v (rw (law, other, stored) at here))))
        ]
      ]

  -- a document after an update of it
  pub update_here :
      (i : ℕ) (g : V → V) (d : Docs V) (w : V)
      → find_by_id d i ≡ some w
      → find_by_id (update i g d) i ≡ some (g w)
  update_here i g d w stored = ground (arith, find_by_id-update i i g d)
