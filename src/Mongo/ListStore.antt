-- ===== src/Mongo/ListStore.antt =====
-- A store as a list of documents without repeated identifiers shows that the laws can be met.
use sports_venue_management.Common.{
  ℕ, ◌≡◌, refl, inl, inr, Bool, true, false, Option, none, some, List, [], ◌∷◌, All, arith, ◌==◌,
  ==_refl, if◌then◌else◌, Bool-cases,
}
use mathlib.Core.Option
use sports_venue_management.Mongo.Interface.{Mongo, Found}

module _ {V : Type 0} where
  unfoldable pub get : List (ℕ × V) → ℕ → Option V
  get [] j = none
  get (e ∷ d) j = if e.0 == j then some e.1 else get d j

  unfoldable pub drop_id : ℕ → List (ℕ × V) → List (ℕ × V)
  drop_id i [] = []
  drop_id i (e ∷ d) = let rest = drop_id i d in if e.0 == i then rest else e ∷ rest

  -- The documents are read from the front, and those behind one of the same identifier are hidden.
  unfoldable pub matching : (V → Bool) → List (ℕ × V) → List (ℕ × V)
  matching p [] = []
  matching p (e ∷ d) = let rest = drop_id e.0 (matching p d) in if p e.1 then e ∷ rest else rest

  unfoldable pub modify : ℕ → (V → V) → List (ℕ × V) → List (ℕ × V)
  modify i f [] = []
  modify i f (e ∷ d) = if e.0 == i then (e.0, f e.1) ∷ d else e ∷ modify i f d

  pub get-drop_id :
      (i j : ℕ) (d : List (ℕ × V)) → get (drop_id i d) j ≡ (if i == j then none else get d j)
  unfolding get drop_id
  get-drop_id i j [] = ground arith
  get-drop_id i j (e ∷ d) = ground (arith, get-drop_id i j d)

  pub get-modify :
      (i j : ℕ) (f : V → V) (d : List (ℕ × V))
      → get (modify i f d) j ≡ (if i == j then Option.map f (get d j) else get d j)
  unfolding get modify
  get-modify i j f [] = ground arith
  get-modify i j f (e ∷ d) = ground (arith, get-modify i j f d)

  pub get-cons :
      (i j : ℕ) (v : V) (d : List (ℕ × V))
      → get d i ≡ none
      → get ((i, v) ∷ d) j ≡ (if i == j then some v else get d j)
  unfolding get
  get-cons i j v d fresh = refl

  All-drop_id :
      (P Q : ℕ × V → Type 0) (i : ℕ) (d : List (ℕ × V))
      → ((e : ℕ × V) → P e → (e.0 == i) ≡ false → Q e)
      → All P d
      → All Q (drop_id i d)
  unfolding drop_id
  All-drop_id P Q i [] k h = tt
  All-drop_id P Q i (e ∷ d) k h = elim (Bool-cases (e.0 == i)) [
    | inl same ↦ rw same (All-drop_id P Q i d k h.1)
    | inr other ↦ rw other (k e h.0 other, All-drop_id P Q i d k h.1)
  ]

  Found-drop_id :
      (i j : ℕ) (v : V) (d : List (ℕ × V))
      → (i == j) ≡ false
      → Found j v d
      → Found j v (drop_id i d)
  unfolding drop_id
  Found-drop_id i j v [] ne h = h
  Found-drop_id i j v (e ∷ d) ne h = ground (arith, Found-drop_id i j v d ne)

  pub matching_sound :
      (p : V → Bool) (d : List (ℕ × V))
      → All (λ e. (get d e.0 ≡ some e.1) × (p e.1 ≡ true)) (matching p d)
  unfolding get matching
  matching_sound p [] = tt
  matching_sound p (e ∷ d) =
      let rest =
        All-drop_id (λ x. (get d x.0 ≡ some x.1) × (p x.1 ≡ true))
          (λ x. ((if e.0 == x.0 then some e.1 else get d x.0) ≡ some x.1) × (p x.1 ≡ true)) e.0
          (matching p d) (λ x h ne. ground arith) (matching_sound p d) in
      elim (Bool-cases (p e.1)) [
        | inl fits ↦ rw fits ((rw ==_refl refl, fits), rest)
        | inr not_fits ↦ rw not_fits rest
      ]

  pub matching_complete :
      (p : V → Bool) (d : List (ℕ × V)) (i : ℕ) (v : V)
      → get d i ≡ some v
      → p v ≡ true
      → Found i v (matching p d)
  unfolding get matching
  matching_complete p [] i v h k = cc
  matching_complete p (e ∷ d) i v h k = elim (Bool-cases (e.0 == i)) [
    | inl same ↦ ground arith
    | inr other ↦ ground (
      arith,
      Found-drop_id e.0 i v (matching p d) other,
      matching_complete p d i v (rw other at h) k,
    )
  ]

abbrev pub list_mongo : Mongo
list_mongo = record {
  Docs = λ V. List (ℕ × V);
  find_by_id = get;
  find = matching;
  update = modify;
  insert = λ i v d. (i, v) ∷ d;
  delete = drop_id;
  find_by_id-update = get-modify;
  find_by_id-insert = get-cons;
  find_by_id-delete = get-drop_id;
  find_sound = matching_sound;
  find_complete = matching_complete;
}
