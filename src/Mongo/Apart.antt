-- ===== src/Mongo/Apart.antt =====
-- Collections in which no two documents clash: what a check before a write keeps up where the requests
-- come one after the other.
use sports_venue_management.Common.{
  ℕ, ◌≡◌, inl, inr, none, some, arith, ◌==◌, ==_iff, Bool-cases, sym, ◌∙◌,
}
use mathlib.Core.Option.{some-injective}
use mathlib.Core.Path.{subst, subst₂}
use sports_venue_management.Mongo.Interface.{Mongo}
use sports_venue_management.Mongo.Updates.{update_was}

module _ (mongo : Mongo) {V : Type 0} (Clash : V → V → Type 0) where
  open mongo use {Docs, find_by_id, update, insert, find_by_id-insert}

  -- Documents that clash are the same document.
  abbrev pub IsApart : Docs V → Type 0
  IsApart d =
      (i j : ℕ) (b c : V) → find_by_id d i ≡ some b → find_by_id d j ≡ some c → Clash b c → i ≡ j

  module _ (swap : (b c : V) → Clash b c → Clash c b) where
    pub update-IsApart :
        (id : ℕ) (g : V → V) (d : Docs V)
        → ((w c : V) (j : ℕ)
            → find_by_id d id ≡ some w
            → find_by_id d j ≡ some c
            → Clash (g w) c
            → id ≡ j)
        → IsApart d
        → IsApart (update id g d)
    update-IsApart id g d fair apart i j b c at_i at_j clash =
        let (v, stored_v, how_v) = update_was mongo id i g d b at_i in
        let (w, stored_w, how_w) = update_was mongo id j g d c at_j in
        elim how_v [
          | inl (at_id, is_v) ↦ elim how_w [
            | inl (here, is_w) ↦ ground arith
            | inr (there, is_w) ↦
                let e : id ≡ i = (==_iff id i).0 at_id in
                sym e
                ∙ fair v w j (subst (λ k. find_by_id d k ≡ some v) (sym e) stored_v) stored_w
                    (subst₂ Clash is_v is_w clash)
          ]
          | inr (off_id, is_v) ↦ elim how_w [
            | inl (here, is_w) ↦
                let e : id ≡ j = (==_iff id j).0 here in
                sym (
                  fair w v i (subst (λ k. find_by_id d k ≡ some w) (sym e) stored_w) stored_v
                    (subst₂ Clash is_w is_v (swap b c clash)))
                ∙ e
            | inr (there, is_w) ↦ apart i j v w stored_v stored_w (subst₂ Clash is_v is_w clash)
          ]
        ]

    pub insert-IsApart :
        (fresh : ℕ) (v : V) (d : Docs V)
        → find_by_id d fresh ≡ none
        → ((c : V) (j : ℕ) → find_by_id d j ≡ some c → Clash v c → ⊥)
        → IsApart d
        → IsApart (insert fresh v d)
    insert-IsApart fresh v d unused free apart i j b c at_i at_j clash =
        let p = rw (find_by_id-insert fresh i v d unused) at at_i in
        let q = rw (find_by_id-insert fresh j v d unused) at at_j in
        elim (Bool-cases (fresh == i)) [
          | inl new_i ↦ elim (Bool-cases (fresh == j)) [
            | inl new_j ↦ ground arith
            | inr old_j ↦ absurd (
                free c j (rw old_j at q)
                  (subst (λ x. Clash x c) (sym (some-injective v b (rw new_i at p))) clash))
          ]
          | inr old_i ↦ elim (Bool-cases (fresh == j)) [
            | inl new_j ↦ absurd (
                free b i (rw old_i at p) (
                  subst (λ x. Clash x b) (sym (some-injective v c (rw new_j at q)))
                    (swap b c clash)))
            | inr old_j ↦ apart i j b c (rw old_i at p) (rw old_j at q) clash
          ]
        ]
