-- ===== src/User/Phones.antt =====
-- The phones of customers, under every call that creates or changes a customer.
use sports_venue_management.Common.{
  ℕ, ◌<◌, ◌≡◌, refl, Bool, false, not, Option, none, some, ◌⊎◌, inl, inr, first, first-none, filter,
  filter-nil, arith, ◌==◌, ==_refl, Bool-cases, Option-cases, sym, ◌∙◌, ap,
}
use mathlib.Core.Option.{some-injective}
use mathlib.Core.Path.{subst}
use sports_venue_management.Common.Outcome.{Error, ok, Result-cases}
use sports_venue_management.Entities.{Customer, Provider, system, google}
use sports_venue_management.Mongo.{Mongo, Found, Found-All, IsApart, update-IsApart, insert-IsApart}
use sports_venue_management.Redis.Values.{Values}
use sports_venue_management.Otp.{verify_otp}
use sports_venue_management.Booking.Lifecycle.{SuspendFaults}
use sports_venue_management.User.{
  CustomerBody, has_phone, patch_customer, find_phone, find_other_phone, create_customer,
  check_phone, update_customer_user, Users,
}
use sports_venue_management.Auth.SignUp.{
  GooglePayload, google_email, has_email, google_account, verify_customer_otp, sign_up_with_google,
}

Provider-cases : (p : Provider) → (p ≡ system) ⊎ (p ≡ google)
Provider-cases system = inl refl
Provider-cases google = inr refl

module _ (mongo : Mongo) where
  open mongo use {Docs, find_by_id, find, update, insert, find_complete}

  -- both have the phone, and it is not the empty text
  abbrev pub SamePhone : Customer → Customer → Type 0
  SamePhone b c = (p : ℕ) × (0 < p) × (b.phone ≡ some p) × (c.phone ≡ some p)

  SamePhone-swap : (b c : Customer) → SamePhone b c → SamePhone c b
  SamePhone-swap b c (p, given, has_b, has_c) = (p, given, has_c, has_b)

  -- No two customers have the same phone.
  abbrev pub HasUniquePhones : Docs Customer → Type 0
  HasUniquePhones = IsApart mongo SamePhone

  -- one call of `createCustomer`, `verifyCustomerOtp`, `signUpWithGoogle` or `updateCustomerUser`; a
  -- new customer gets an identifier that no document has
  pub data Step : Docs Customer → Docs Customer → Type 0 where
    creating :
        (p fresh : ℕ) (d : Docs Customer)
        → find_by_id d fresh ≡ none
        → Step d (create_customer mongo p fresh d).1
    verifying :
        (now p code fresh : ℕ) (kv : Values) (d : Docs Customer)
        → find_by_id d fresh ≡ none
        → Step d (verify_customer_otp mongo now p code fresh kv d).1.1
    signing_up :
        (configured : Bool) (ticket : Option (Option GooglePayload)) (fresh : ℕ) (d : Docs Customer)
        → find_by_id d fresh ≡ none
        → Step d (sign_up_with_google mongo configured ticket fresh d).1
    updating :
        (fault : Option Error) (f : SuspendFaults) (now id : ℕ) (body : CustomerBody)
        (u : Users mongo)
        → Step u.customers (update_customer_user mongo fault f now id body u).1.customers

  pub data Steps : Docs Customer → Docs Customer → Type 0 where
    nothing : (d : Docs Customer) → Steps d d
    before : {d e f : Docs Customer} → Steps d e → Step e f → Steps d f

  phoned :
      (p : ℕ) (d : Docs Customer) (j : ℕ) (c : Customer)
      → find_by_id d j ≡ some c
      → c.phone ≡ some p
      → Found j c (find (has_phone p) d)
  phoned p d j c stored has = find_complete (has_phone p) d j c stored (rw has (==_refl p))

  -- The new customer has the phone `p` at most, which nobody else has.
  insert-HasUniquePhones :
      (p fresh : ℕ) (v : Customer) (d : Docs Customer)
      → ((q : ℕ) → v.phone ≡ some q → q ≡ p)
      → find_by_id d fresh ≡ none
      → find_phone mongo p d ≡ none
      → HasUniquePhones d
      → HasUniquePhones (insert fresh v d)
  unfolding find_phone
  insert-HasUniquePhones p fresh v d only unused absent unique =
      insert-IsApart mongo SamePhone SamePhone-swap fresh v d unused
        (λ c j stored (q, given, has_v, has_c).
          rw (first-none (find (has_phone p) d) absent) at
            (phoned p d j c stored (has_c ∙ ap (λ (k : ℕ). some k) (only q has_v))))
        unique

  without_phone :
      (fresh : ℕ) (v : Customer) (d : Docs Customer)
      → v.phone ≡ none
      → find_by_id d fresh ≡ none
      → HasUniquePhones d
      → HasUniquePhones (insert fresh v d)
  without_phone fresh v d bare unused unique =
      insert-IsApart mongo SamePhone SamePhone-swap fresh v d unused
        (λ c j stored (q, given, has_v, has_c). cc (bare, has_v)) unique

  -- an update that leaves the phone alone
  keep_phone :
      (id : ℕ) (g : Customer → Customer) (d : Docs Customer)
      → ((c : Customer) → (g c).phone ≡ c.phone)
      → HasUniquePhones d
      → HasUniquePhones (update id g d)
  keep_phone id g d keeps unique =
      update-IsApart mongo SamePhone SamePhone-swap id g d
        (λ w c j at_id at_j (q, given, has_w, has_c).
          unique id j w c at_id at_j (q, given, sym (keeps w) ∙ has_w, has_c))
        unique

  check_phone-free :
      (id p : ℕ) (c : Customer) (d : Docs Customer)
      → 0 < p
      → check_phone mongo id (some p) c d ≡ ok tt
      → (c.phone ≡ some p)
        ⊎ ((j : ℕ) (w : Customer) → find_by_id d j ≡ some w → w.phone ≡ some p → id ≡ j)
  unfolding check_phone find_other_phone
  check_phone-free id p c d given fine = elim (Bool-cases (has_phone p c)) [
    | inl own ↦ inl (ground arith)
    | inr other ↦ elim (Option-cases (find_other_phone mongo id p d)) [
      | inr (e, taken) ↦ absurd (
          let zero_not : (p == 0) ≡ false = ground arith in
          cc (rw (check_phone, zero_not, other, taken) at fine))
      | inl free ↦ inr (λ j w stored has.
          let matching = find (has_phone p) d in
          let own =
            filter-nil (λ e. not (e.0 == id)) matching
              (first-none (filter (λ e. not (e.0 == id)) matching) free) in
          let at_j =
            Found-All j w (λ e. not (e.0 == id) ≡ false) matching own (phoned p d j w stored has) in
          ground arith)
    ]
  ]

  patch-HasUniquePhones :
      (id : ℕ) (body : CustomerBody) (c : Customer) (d : Docs Customer)
      → find_by_id d id ≡ some c
      → check_phone mongo id body.phone c d ≡ ok tt
      → HasUniquePhones d
      → HasUniquePhones (update id (patch_customer body) d)
  unfolding patch_customer
  patch-HasUniquePhones id body c d stored fine unique = elim (Option-cases body.phone) [
    | inl left_out ↦ keep_phone id (patch_customer body) d (λ w. rw (left_out) refl) unique
    | inr (p, asked) ↦
        update-IsApart mongo SamePhone SamePhone-swap id (patch_customer body) d
          (λ w v j at_id at_j (q, given, has_w, has_v).
            let e : p ≡ q = some-injective p q (rw asked at has_w) in
            let given_p : 0 < p = subst (λ k. 0 < k) (sym e) given in
            let has_p : v.phone ≡ some p = has_v ∙ ap (λ (k : ℕ). some k) (sym e) in
            elim (check_phone-free id p c d given_p (rw asked at fine)) [
              | inl own ↦ unique id j c v stored at_j (p, given_p, own, has_p)
              | inr free ↦ free j v at_j has_p
            ])
          unique
  ]

  google_account-HasUniquePhones :
      (email : ℕ) (g : GooglePayload) (fresh : ℕ) (d : Docs Customer)
      → find_by_id d fresh ≡ none
      → HasUniquePhones d
      → HasUniquePhones (google_account mongo email g fresh d).1
  unfolding google_account
  google_account-HasUniquePhones email g fresh d unused unique =
      elim (Option-cases (first (find (has_email email) d))) [
        | inl new ↦ rw (google_account, new) (without_phone fresh _ d refl unused unique)
        | inr (e, known) ↦ elim (Option-cases e.1.provider) [
          | inl unset ↦ rw (google_account, known, unset) (keep_phone e.0 _ d (λ c. refl) unique)
          | inr (p, is_p) ↦ elim (Provider-cases p) [
            | inl is_system ↦ rw (google_account, known, is_p, is_system) unique
            | inr is_google ↦ rw (google_account, known, is_p, is_google) unique
          ]
        ]
      ]

  Step-HasUniquePhones : {d e : Docs Customer} → Step d e → HasUniquePhones d → HasUniquePhones e
  unfolding create_customer verify_customer_otp sign_up_with_google update_customer_user
  Step-HasUniquePhones (creating p fresh d unused) unique =
      elim (Option-cases (find_phone mongo p d)) [
        | inr (e, known) ↦ rw (create_customer, known) unique
        | inl new ↦
            rw (create_customer, new)
              (insert-HasUniquePhones p fresh _ d (λ q has. cc (has)) unused new unique)
      ]
  Step-HasUniquePhones (verifying now p code fresh kv d unused) unique =
      elim (Result-cases (verify_otp now p code kv).0) [
        | inl (e, wrong) ↦ rw (verify_customer_otp, wrong) unique
        | inr (t, right) ↦ elim (Option-cases (find_phone mongo p d)) [
          | inr (e, known) ↦ rw (verify_customer_otp, right, known) unique
          | inl new ↦
              rw (verify_customer_otp, right, new)
                (insert-HasUniquePhones p fresh _ d (λ q has. cc (has)) unused new unique)
        ]
      ]
  Step-HasUniquePhones (signing_up configured ticket fresh d unused) unique =
      elim (Result-cases (google_email configured ticket)) [
        | inl (e, refused) ↦ rw (sign_up_with_google, refused) unique
        | inr (r, passed) ↦
            rw (sign_up_with_google, passed)
              (google_account-HasUniquePhones r.0 r.1 fresh d unused unique)
      ]
  Step-HasUniquePhones (updating fault f now id body u) unique =
      elim (Option-cases (find_by_id u.customers id)) [
        | inl missing ↦ rw (update_customer_user, missing) unique
        | inr (c, stored) ↦ elim (Result-cases (check_phone mongo id body.phone c u.customers)) [
          | inl (e, taken) ↦ rw (update_customer_user, stored, taken) unique
          | inr (t, fine) ↦ elim (Option-cases fault) [
            | inr (e, thrown) ↦ rw (update_customer_user, stored, fine, thrown) unique
            | inl free ↦
                rw (update_customer_user, stored, fine, free)
                  (patch-HasUniquePhones id body c u.customers stored fine unique)
          ]
        ]
      ]

  -- Whatever accounts are created, signed up, confirmed by a code or changed, one after the other, no
  -- two customers have the same phone but for the empty one, if none had before.
  pub Steps-HasUniquePhones :
      {d e : Docs Customer} → Steps d e → HasUniquePhones d → HasUniquePhones e
  Steps-HasUniquePhones (nothing d) unique = unique
  Steps-HasUniquePhones (before first_steps last) unique =
      Step-HasUniquePhones last (Steps-HasUniquePhones first_steps unique)
