-- ===== src/Auth/Used.antt =====
-- A used refresh token stays used under the requests of a day.
use sports_venue_management.Common.{
  ℕ, ◌+◌, ◌<◌, ◌≤◌, ◌≡◌, refl, inl, inr, false, Option, none, some, List, [], ◌∷◌, All, arith, ◌==◌,
  Bool-cases, Option-cases, ==_iff, sym, ap, ◌∙◌,
}
use mathlib.Core.Option.{some-injective}
use sports_venue_management.Redis.Values.{
  refresh_grace, revoked, key_eq, Values, set_value, get_value,
}
use sports_venue_management.Auth.Marks.{
  day, IsUsed, get_value-IsUsed, set_value-IsUsed, revoke_one-IsUsed, IsRevoked-get_value,
}
use sports_venue_management.Auth.{
  UserType, Claims, find_user, is_customer, refresh_ttl, Directory, grace_ttl, day_ttl, month_ttl,
  refresh_claims, refresh_token, revoke, logout, authenticate, Request, refresh, log_out, access,
  serve, serve_all,
}

-- A token with this `jti` belongs to this user, as the service has signed it.
abbrev pub IsGenuine : ℕ → ℕ → Request → Type 0
IsGenuine id jti (refresh fresh (some c)) = c.jti ≡ some jti → c.id ≡ some id
IsGenuine id jti _ = Unit

unrelated :
    (id jti id' jti' : ℕ)
    → (jti' == jti) ≡ false
    → key_eq (revoked id' jti') (revoked id jti) ≡ false
unrelated id jti id' jti' h = ground arith

-- what a refresh of another token writes
revoke_again :
    (start id jti pair now id' jti' fresh ttl : ℕ) (kv : Values)
    → (jti' == jti) ≡ false
    → IsUsed start id jti pair kv
    → IsUsed start id jti pair (
        set_value now
          (revoked id' jti')
          1
          ttl
          (set_value now (refresh_grace jti') fresh grace_ttl kv))
revoke_again start id jti pair now id' jti' fresh ttl kv apart h =
    let kept =
      set_value-IsUsed start id jti pair now fresh grace_ttl (refresh_grace jti') kv refl apart h in
    set_value-IsUsed start id jti pair now 1 ttl (revoked id' jti') _
      (unrelated id jti id' jti' apart) refl kept

refresh_claims-IsUsed :
    (start id jti pair now fresh id' jti' : ℕ) (d : Directory) (u : UserType) (kv : Values)
    → start ≤ now
    → now < start + day
    → (jti' ≡ jti → id' ≡ id)
    → IsUsed start id jti pair kv
    → IsUsed start id jti pair (refresh_claims d now fresh u id' jti' kv).1
unfolding refresh_claims
refresh_claims-IsUsed start id jti pair now fresh id' jti' d u kv after soon genuine h =
    let seen = get_value now (refresh_grace jti') kv in
    let used = get_value-IsUsed start id jti pair now (refresh_grace jti') kv soon h in
    elim (Option-cases seen.0) [
      | inr (m, cached) ↦ rw (refresh_claims, cached) used
      | inl missed ↦
          let looked = get_value now (revoked id' jti') seen.1 in
          let still = get_value-IsUsed start id jti pair now (revoked id' jti') seen.1 soon used in
          elim (Option-cases looked.0) [
            | inr (m, marked) ↦ rw (refresh_claims, missed, marked) still
            | inl unmarked ↦ elim (Option-cases (find_user d u id')) [
              | inl missing ↦ rw (refresh_claims, missed, unmarked, missing) still
              | inr (a, known) ↦ elim (Bool-cases (jti' == jti)) [
                | inl same ↦
                    let j : jti' ≡ jti = (==_iff jti' jti).0 same in
                    let i : id' ≡ id = genuine j in
                    let found = IsRevoked-get_value start id jti now seen.1 soon used.0 in
                    absurd (
                      cc (
                        unmarked,
                        found,
                        ap (λ n. (get_value now (revoked n jti') seen.1).0) i,
                        ap (λ n. (get_value now (revoked id n) seen.1).0) j,
                      ))
                | inr apart ↦
                    rw (refresh_claims, missed, unmarked, known)
                      (revoke_again start id jti pair now id' jti' fresh
                        (refresh_ttl (is_customer u a)) looked.1 apart still)
              ]
            ]
          ]
    ]

revoke-IsUsed :
    (start id jti pair now ttl : ℕ) (c : Option Claims) (kv : Values)
    → start ≤ now
    → 86400 ≤ ttl
    → IsUsed start id jti pair kv
    → IsUsed start id jti pair (revoke now ttl c kv)
unfolding revoke
revoke-IsUsed start id jti pair now ttl none kv after long h = h
revoke-IsUsed start id jti pair now ttl (some c) kv after long h = elim (Option-cases c.id) [
  | inl nobody ↦ rw (revoke, nobody) h
  | inr (i, named) ↦ elim (Option-cases c.jti) [
    | inl unmarked ↦ rw (revoke, named, unmarked) h
    | inr (j, marked) ↦
        rw (revoke, named, marked) (revoke_one-IsUsed start id jti pair now ttl i j kv after long h)
  ]
]

authenticate-IsUsed :
    (start id jti pair now : ℕ) (d : Directory) (c : Option Claims) (kv : Values)
    → now < start + day
    → IsUsed start id jti pair kv
    → IsUsed start id jti pair (authenticate d now c kv).1
unfolding authenticate
authenticate-IsUsed start id jti pair now d none kv soon h = h
authenticate-IsUsed start id jti pair now d (some c) kv soon h = elim (Option-cases c.jti) [
  | inl unmarked ↦ simp (authenticate, unmarked) h
  | inr (j, marked) ↦ elim (Option-cases c.id) [
    | inl nobody ↦ simp (authenticate, marked, nobody) h
    | inr (i, named) ↦ elim (Option-cases (find_user d c.user_type i)) [
      | inl missing ↦ simp (authenticate, marked, named, missing) h
      | inr (a, known) ↦
          let used = get_value-IsUsed start id jti pair now (revoked i j) kv soon h in
          elim (Option-cases (get_value now (revoked i j) kv).0) [
            | inl free ↦ simp (authenticate, marked, named, known, free) used
            | inr (m, over) ↦ simp (authenticate, marked, named, known, over) used
          ]
    ]
  ]
]

refresh_token-IsUsed :
    (start id jti pair now fresh : ℕ) (d : Directory) (c : Option Claims) (kv : Values)
    → start ≤ now
    → now < start + day
    → IsGenuine id jti (refresh fresh c)
    → IsUsed start id jti pair kv
    → IsUsed start id jti pair (refresh_token d now fresh c kv).1
unfolding refresh_token
refresh_token-IsUsed start id jti pair now fresh d none kv after soon genuine h = h
refresh_token-IsUsed start id jti pair now fresh d (some c) kv after soon genuine h =
    elim (Option-cases c.jti) [
      | inl unmarked ↦ simp (refresh_token, unmarked) h
      | inr (j, marked) ↦ elim (Option-cases c.id) [
        | inl nobody ↦ simp (refresh_token, marked, nobody) h
        | inr (i, named) ↦
            simp (refresh_token, marked, named)
              (refresh_claims-IsUsed start id jti pair now fresh i j d c.user_type kv after soon
                (λ same. some-injective i id (sym named ∙ genuine (marked ∙ ap some same))) h)
      ]
    ]

serve-IsUsed :
    (start id jti pair now : ℕ) (d : Directory) (r : Request) (kv : Values)
    → start ≤ now
    → now < start + day
    → IsGenuine id jti r
    → IsUsed start id jti pair kv
    → IsUsed start id jti pair (serve d now r kv)
unfolding serve logout
serve-IsUsed start id jti pair now d (refresh fresh c) kv after soon genuine h =
    refresh_token-IsUsed start id jti pair now fresh d c kv after soon genuine h
serve-IsUsed start id jti pair now d (log_out a r) kv after soon genuine h =
    revoke-IsUsed start id jti pair now month_ttl r (revoke now day_ttl a kv) after (omega arith)
      (revoke-IsUsed start id jti pair now day_ttl a kv after (omega arith) h)
serve-IsUsed start id jti pair now d (access c) kv after soon genuine h =
    authenticate-IsUsed start id jti pair now d c kv soon h

-- requests within a day of `start`, in any order
abbrev pub AreWithinDay : ℕ → ℕ → ℕ → List (ℕ × Request) → Type 0
AreWithinDay start id jti =
    All (λ e. (start ≤ e.0) × (e.0 < start + 86400000) × IsGenuine id jti e.1)

pub serve_all-IsUsed :
    (start id jti pair : ℕ) (d : Directory) (rs : List (ℕ × Request)) (kv : Values)
    → AreWithinDay start id jti rs
    → IsUsed start id jti pair kv
    → IsUsed start id jti pair (serve_all d rs kv)
unfolding serve_all
serve_all-IsUsed start id jti pair d [] kv times h = h
serve_all-IsUsed start id jti pair d (e ∷ rest) kv times h =
    serve_all-IsUsed start id jti pair d rest (serve d e.0 e.1 kv) times.1
      (serve-IsUsed start id jti pair e.0 d e.1 kv times.0.0 times.0.1 times.0.2 h)
