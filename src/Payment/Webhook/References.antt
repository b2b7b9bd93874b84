-- ===== src/Payment/Webhook/References.antt =====
-- The unique index `transactionId`, by which a callback finds its payment.
use sports_venue_management.Common.{
  ℕ, ◌≡◌, ◌≢◌, refl, inl, inr, Bool, true, some, List, [], ◌∷◌, ◌==◌, ==_iff, ==_refl, List-cases,
  first-All, sym, ap, ◌∙◌,
}
use mathlib.Core.Option.{some-injective}
use sports_venue_management.Entities.{Payment}
use sports_venue_management.Mongo.{Mongo, Found, update_was}
use sports_venue_management.Payment.Webhook.{payment_of}

Found-nil : {V : Type 0} (i : ℕ) (v : V) (xs : List (ℕ × V)) → Found i v xs → xs ≢ []
Found-nil i v [] f e = f
Found-nil i v (x ∷ xs) f e = cc

module _ (mongo : Mongo) where
  open mongo use {Docs, find_by_id, find, update, find_by_id-update, find_sound, find_complete}

  -- the unique index `transactionId`
  abbrev pub HasUniqueReferences : Docs Payment → Type 0
  HasUniqueReferences d =
      (i j : ℕ) (y z : Payment)
      → find_by_id d i ≡ some y
      → find_by_id d j ≡ some z
      → y.transaction_id ≡ z.transaction_id
      → i ≡ j

  pub payment_of-some :
      (reference : ℕ) (d : Docs Payment) (e : ℕ × Payment)
      → payment_of mongo reference d ≡ some e
      → (find_by_id d e.0 ≡ some e.1) × (e.1.transaction_id ≡ reference)
  payment_of-some reference d e h =
      let p : Payment → Bool = λ z. z.transaction_id == reference in
      let sound =
        first-All (λ e. (find_by_id d e.0 ≡ some e.1) × (p e.1 ≡ true)) (find p d) e
          (find_sound p d) h in
      (sound.0, (==_iff e.1.transaction_id reference).0 sound.1)

  pub payment_of-stored :
      (d : Docs Payment) (i : ℕ) (y : Payment)
      → HasUniqueReferences d
      → find_by_id d i ≡ some y
      → (e : ℕ × Payment) × (payment_of mongo y.transaction_id d ≡ some e) × (e.1 ≡ y)
  payment_of-stored d i y unique stored =
      let p : Payment → Bool = λ z. z.transaction_id == y.transaction_id in
      let there = find_complete p d i y stored (==_refl y.transaction_id) in
      elim (List-cases (find p d)) [
        | inl nothing ↦ absurd (Found-nil i y (find p d) there nothing)
        | inr (e, rest, some_found) ↦
            let taken : payment_of mongo y.transaction_id d ≡ some e = rw some_found refl in
            let sound = payment_of-some y.transaction_id d e taken in
            let same = unique e.0 i e.1 y sound.0 stored sound.1 in
            (e, taken, some-injective e.1 y (cc (sound.0, stored, same)))
      ]

  -- a payment keeps its reference
  reference_was :
      (d : Docs Payment) (i m : ℕ) (g : Payment → Payment) (v : Payment)
      → ((y : Payment) → (g y).transaction_id ≡ y.transaction_id)
      → find_by_id (update i g d) m ≡ some v
      → (w : Payment) × (find_by_id d m ≡ some w) × (w.transaction_id ≡ v.transaction_id)
  reference_was d i m g v keeps here =
      let (w, stored, became) = update_was mongo i m g d v here in
      elim became [
        | inl (same, changed) ↦
            (w, stored, sym (keeps w) ∙ sym (ap (λ x. x.transaction_id) changed))
        | inr (apart, kept) ↦ (w, stored, sym (ap (λ x. x.transaction_id) kept))
      ]

  pub HasUniqueReferences-update :
      (d : Docs Payment) (i : ℕ) (g : Payment → Payment)
      → ((y : Payment) → (g y).transaction_id ≡ y.transaction_id)
      → HasUniqueReferences d
      → HasUniqueReferences (update i g d)
  HasUniqueReferences-update d i g keeps unique j k y z at_j at_k same =
      let (v, was_j, same_j) = reference_was d i j g y keeps at_j in
      let (w, was_k, same_k) = reference_was d i k g z keeps at_k in
      unique j k v w was_j was_k (cc (same, same_j, same_k))
