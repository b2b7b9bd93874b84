-- ===== src/Auth/SignUp/Logins.antt =====
-- The passwords of administrators.
use sports_venue_management.Common.{
  ℕ, ◌≡◌, refl, false, Option, none, some, List, inl, inr, Bool-cases, Option-cases, if◌then◌else◌,
}
use sports_venue_management.Common.Text.{text_eq, text_eq_refl}
use sports_venue_management.Common.Outcome.{Result, ok, err, bad_credentials}
use sports_venue_management.Entities.{Role, admin}
use sports_venue_management.Mongo.{Mongo, first_find-insert}
use sports_venue_management.Auth.SignUp.{
  AdminUser, Hashing, normalized_email, find_admin, create_admin_user, login_dashboard,
}

module _ (mongo : Mongo) (hashing : Hashing) where
  open mongo use {Docs, find_by_id, find, insert, find_by_id-insert, find_sound, find_complete}
  open hashing use {hash, compare, compare-hash}

  find_admin-insert :
      (key : List ℕ) (fresh : ℕ) (a : AdminUser) (d : Docs AdminUser)
      → find_by_id d fresh ≡ none
      → find_admin mongo key d ≡ none
      → a.email ≡ key
      → (i : ℕ) × (find_admin mongo key (insert fresh a d) ≡ some (i, a))
  unfolding find_admin
  find_admin-insert key fresh a d unused absent same =
      first_find-insert mongo (λ (b : AdminUser). text_eq b.email key) fresh a d unused absent
        (rw same (text_eq_refl key))

  -- an administrator who is found logs in with a password that agrees with the stored hash
  login_dashboard-found :
      (spelling key given stored : List ℕ) (e : ℕ × AdminUser) (d : Docs AdminUser)
      → normalized_email spelling ≡ key
      → find_admin mongo key d ≡ some e
      → e.1.password ≡ some stored
      → login_dashboard mongo hashing spelling given d
        ≡ (if compare given stored then ok e else err bad_credentials)
  unfolding login_dashboard
  login_dashboard-found spelling key given stored e d same found set =
      elim (Bool-cases (compare given stored)) [
        | inl agrees ↦ rw (login_dashboard, same, found, set, agrees) refl
        | inr differs ↦ rw (login_dashboard, same, found, set, differs) refl
      ]

  -- After an administrator has been created, a login with any spelling of the address that trims to
  -- the same lower-case text succeeds exactly with a password that agrees with the stored hash, so
  -- with the password itself.
  pub create_admin_user-login_dashboard :
      (email spelling password other : List ℕ) (role : Option Role) (fresh : ℕ) (d : Docs AdminUser)
      (r : ℕ × AdminUser)
      → find_by_id d fresh ≡ none
      → normalized_email spelling ≡ normalized_email email
      → (create_admin_user mongo hashing email password role fresh d).0 ≡ ok r
      → let after = (create_admin_user mongo hashing email password role fresh d).1 in
        ((i : ℕ) × (login_dashboard mongo hashing spelling password after ≡ ok (i, r.1)))
        × (compare other (hash password) ≡ false
            → login_dashboard mongo hashing spelling other after ≡ err bad_credentials)
  unfolding create_admin_user
  create_admin_user-login_dashboard email spelling password other role fresh d r unused same h =
      let key = normalized_email email in
      elim (Option-cases (find_admin mongo key d)) [
        | inr (e, known) ↦ absurd (cc (rw (create_admin_user, known) at h))
        | inl new ↦
            let a : AdminUser = record {
              email = key;
              password = some (hash password);
              role = elim role [ none ↦ admin | some r ↦ r ];
            } in
            let (i, found) = find_admin-insert key fresh a d unused new refl in
            let answer : Result (ℕ × AdminUser) = ok (fresh, a) in
            let made : answer ≡ ok r = rw (create_admin_user, new) at h in
            let same_admin : a ≡ r.1 = cc (made) in
            let login = λ (given : List ℕ).
              login_dashboard-found spelling key given (hash password) (i, a) (insert fresh a d)
                same found refl in
            rw (create_admin_user, new)
              (
                (i, rw (← same_admin, login password, compare-hash password) refl),
                λ wrong. rw (login other, wrong) refl,
              )
      ]
