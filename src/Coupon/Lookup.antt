-- ===== src/Coupon/Lookup.antt =====
-- What the coupon service promises of codes, ownership and redemption.
use sports_venue_management.Common.{
  ℕ, ◌≡◌, ◌≢◌, refl, Bool, true, false, none, some, List, inl, inr, first-All, first-none, arith,
  ◌==◌, ==_refl, Bool-cases, Option-cases,
}
use sports_venue_management.Common.Outcome.{Error, ok, err, Result-cases, ◌>>◌, coupon_not_found}
use sports_venue_management.Common.Text.{normalize, text_eq, text_eq_refl}
use sports_venue_management.Entities.{Coupon}
use sports_venue_management.Mongo.{Mongo}
use sports_venue_management.Coupon.Calculator.{calculate_coupon_discount}
use sports_venue_management.Coupon.Service.{
  CouponBody, find_coupon, new_coupon, redeemable, create_coupon, update_coupon, delete_coupon,
  validate_coupon, patch,
}

module _ (mongo : Mongo) where
  open mongo use {
    Docs, find, find_by_id, update, insert, delete, find_by_id-update, find_by_id-insert,
    find_by_id-delete, find_sound, find_complete,
  }

  -- No two coupons of the store have the same code.
  abbrev pub HasUniqueCodes : Docs Coupon → Type 0
  HasUniqueCodes d =
      (i j : ℕ) (b c : Coupon)
      → find_by_id d i ≡ some b
      → find_by_id d j ≡ some c
      → b.code ≡ c.code
      → i ≡ j

  find_coupon-some :
      (code : List ℕ) (d : Docs Coupon) (e : ℕ × Coupon)
      → find_coupon mongo code d ≡ some e
      → (find_by_id d e.0 ≡ some e.1) × (text_eq e.1.code code ≡ true)
  unfolding find_coupon
  find_coupon-some code d e h =
      first-All (λ x. (find_by_id d x.0 ≡ some x.1) × (text_eq x.1.code code ≡ true))
        (find (λ c. text_eq c.code code) d) e (find_sound (λ c. text_eq c.code code) d) h

  find_coupon-none :
      (code : List ℕ) (d : Docs Coupon) (i : ℕ) (c : Coupon)
      → find_coupon mongo code d ≡ none
      → find_by_id d i ≡ some c
      → text_eq c.code code ≡ true
      → ⊥
  unfolding find_coupon
  find_coupon-none code d i c h stored same =
      rw (first-none (find (λ b. text_eq b.code code) d) h) at
        (find_complete (λ b. text_eq b.code code) d i c stored same)

  new_coupon_code :
      (body : CouponBody) (code : List ℕ) (author : ℕ) (c : Coupon)
      → new_coupon body code author ≡ ok c
      → c.code ≡ code
  unfolding new_coupon
  new_coupon_code body code author c h = ground arith

  -- how a successful `createCoupon` came about
  create_coupon_ok :
      (body : CouponBody) (code : List ℕ) (author fresh : ℕ) (d : Docs Coupon) (r : Coupon × Bool)
      → (create_coupon mongo body code author fresh d).0 ≡ ok r
      → (find_coupon mongo (normalize code) d ≡ none)
        × (new_coupon body (normalize code) author ≡ ok r.0)
        × ((create_coupon mongo body code author fresh d).1 ≡ insert fresh r.0 d)
  unfolding create_coupon
  create_coupon_ok body code author fresh d r h = ground arith

  -- The only coupon found under the new code is the new one.
  found_is_new :
      (code : List ℕ) (fresh : ℕ) (c : Coupon) (d : Docs Coupon) (e : ℕ × Coupon)
      → find_by_id d fresh ≡ none
      → find_coupon mongo code d ≡ none
      → find_by_id (insert fresh c d) e.0 ≡ some e.1
      → text_eq e.1.code code ≡ true
      → c ≡ e.1
  found_is_new code fresh c d e unused absent stored same =
      let at_key = rw (find_by_id-insert fresh e.0 c d unused) at stored in
      elim (Bool-cases (fresh == e.0)) [
        | inl new ↦ ground (arith, at_key)
        | inr old ↦ absurd (find_coupon-none code d e.0 e.1 absent (rw old at at_key) same)
      ]

  found_new :
      (code : List ℕ) (fresh : ℕ) (c : Coupon) (d : Docs Coupon)
      → find_by_id d fresh ≡ none
      → find_coupon mongo code d ≡ none
      → c.code ≡ code
      → (i : ℕ) × (find_coupon mongo code (insert fresh c d) ≡ some (i, c))
  found_new code fresh c d unused absent same =
      elim (Option-cases (find_coupon mongo code (insert fresh c d))) [
        | inl missing ↦ absurd (
            find_coupon-none code (insert fresh c d) fresh c missing
              (rw (find_by_id-insert fresh fresh c d unused, ==_refl fresh) refl)
              (rw (← same) (text_eq_refl c.code)))
        | inr (e, found) ↦
            let h = find_coupon-some code (insert fresh c d) e found in
            (e.0, cc (found, found_is_new code fresh c d e unused absent h.0 h.1))
      ]

  -- A coupon that was created under a fresh identifier is found by every spelling of its code that
  -- trims and capitalises to the same text: validating it then gives the coupon's own verdict at
  -- that instant, and the discount of its type and value.
  pub create_coupon-validate_coupon :
      (body : CouponBody) (code spelling : List ℕ) (author fresh amount now : ℕ) (d : Docs Coupon)
      (r : Coupon × Bool)
      → find_by_id d fresh ≡ none
      → normalize spelling ≡ normalize code
      → (create_coupon mongo body code author fresh d).0 ≡ ok r
      → validate_coupon mongo spelling amount now (create_coupon mongo body code author fresh d).1
        ≡ (redeemable r.0 now
            >> ok (calculate_coupon_discount r.0.discount_type r.0.discount amount))
  unfolding validate_coupon
  create_coupon-validate_coupon body code spelling author fresh amount now d r unused same h =
      let made = create_coupon_ok body code author fresh d r h in
      let found =
        found_new (normalize code) fresh r.0 d unused made.0
          (new_coupon_code body (normalize code) author r.0 made.1) in
      rw (made.2, same, found.1) refl

  create_coupon_err :
      (body : CouponBody) (code : List ℕ) (author fresh : ℕ) (d : Docs Coupon) (e : Error)
      → (create_coupon mongo body code author fresh d).0 ≡ err e
      → (create_coupon mongo body code author fresh d).1 ≡ d
  unfolding create_coupon
  create_coupon_err body code author fresh d e h = ground arith

  clash :
      (c : Coupon) (k : ℕ) (v : Coupon) (d : Docs Coupon)
      → find_coupon mongo c.code d ≡ none
      → find_by_id d k ≡ some v
      → v.code ≡ c.code
      → ⊥
  clash c k v d absent stored equal =
      find_coupon-none c.code d k v absent stored (rw equal (text_eq_refl c.code))

  insert-HasUniqueCodes :
      (fresh : ℕ) (c : Coupon) (d : Docs Coupon)
      → find_by_id d fresh ≡ none
      → find_coupon mongo c.code d ≡ none
      → HasUniqueCodes d
      → HasUniqueCodes (insert fresh c d)
  insert-HasUniqueCodes fresh c d unused absent unique i j a b at_i at_j same =
      let p = rw (find_by_id-insert fresh i c d unused) at at_i in
      let q = rw (find_by_id-insert fresh j c d unused) at at_j in
      elim (Bool-cases (fresh == i)) [
        | inl new_i ↦ elim (Bool-cases (fresh == j)) [
          | inl new_j ↦ ground arith
          | inr old_j ↦ absurd (clash c j b d absent (rw old_j at q) (cc (rw new_i at p)))
        ]
        | inr old_i ↦ elim (Bool-cases (fresh == j)) [
          | inl new_j ↦ absurd (clash c i a d absent (rw old_i at p) (cc (rw new_j at q)))
          | inr old_j ↦ unique i j a b (rw old_i at p) (rw old_j at q) same
        ]
      ]

  -- Creating a coupon keeps the codes of the store different from one another, whether it succeeds
  -- or throws.
  pub create_coupon-HasUniqueCodes :
      (body : CouponBody) (code : List ℕ) (author fresh : ℕ) (d : Docs Coupon)
      → find_by_id d fresh ≡ none
      → HasUniqueCodes d
      → HasUniqueCodes (create_coupon mongo body code author fresh d).1
  create_coupon-HasUniqueCodes body code author fresh d unused unique =
      elim (Result-cases (create_coupon mongo body code author fresh d).0) [
        | inl (e, h) ↦ rw (create_coupon_err body code author fresh d e h) unique
        | inr (r, h) ↦
            let made = create_coupon_ok body code author fresh d r h in
            rw made.2 (
              insert-HasUniqueCodes fresh r.0 d unused
                (rw (new_coupon_code body (normalize code) author r.0 made.1) made.0) unique)
      ]

  -- Whoever did not create a coupon can neither change nor delete it: both calls answer that it is
  -- not found, and the store stays as it is. So do calls that name no coupon.
  pub coupons_of_others :
      (id author : ℕ) (body : CouponBody) (d : Docs Coupon)
      → ((c : Coupon) → find_by_id d id ≡ some c → c.created_by ≢ author)
      → (update_coupon mongo id body author d ≡ (err coupon_not_found, d))
        × (delete_coupon mongo id author d ≡ (err coupon_not_found, d))
  unfolding update_coupon delete_coupon
  coupons_of_others id author body d others = elim (Option-cases (find_by_id d id)) [
    | inl missing ↦ rw (missing, update_coupon, delete_coupon) (refl, refl)
    | inr (c, stored) ↦
        let other : (c.created_by == author) ≡ false = ground (arith, others c stored) in
        rw (stored, other, update_coupon, delete_coupon) (refl, refl)
  ]

  -- Neither an update nor a deletion of one coupon changes another coupon.
  pub other_coupons_stay :
      (id j author : ℕ) (body : CouponBody) (d : Docs Coupon)
      → id ≢ j
      → (find_by_id (update_coupon mongo id body author d).1 j ≡ find_by_id d j)
        × (find_by_id (delete_coupon mongo id author d).1 j ≡ find_by_id d j)
  unfolding update_coupon delete_coupon
  other_coupons_stay id j author body d ne =
      ground (arith, find_by_id-update id j (patch body) d, find_by_id-delete id j d)
