-- ===== src/Auth/Marks.antt =====
-- The marks that used and revoked tokens leave among the values.
use sports_venue_management.Common.{
  ℕ, ◌+◌, ◌*◌, ◌<◌, ◌≤◌, ◌≡◌, ◌⊎◌, refl, inl, inr, true, false, none, some, arith, leb, ◌==◌,
  Bool-cases, Option-cases, sym, ap, ◌∙◌,
}
use mathlib.Core.Option.{some-injective}
use sports_venue_management.Redis.Values.{
  Key, refresh_grace, revoked, key_eq, key_eq_sound, Values, set_value, get_value, is_over,
}

-- a day in milliseconds
abbrev pub day : ℕ
day = 86400000

pub run_out : (now t : ℕ) → leb t now ≡ true → ¬ (now < t)
run_out now t h soon = ground arith

-- The token was used at `start`: it is revoked for a day at least.
abbrev pub IsRevoked : ℕ → ℕ → ℕ → Values → Type 0
IsRevoked start id jti kv =
    (t : ℕ) × (kv (revoked id jti) ≡ some (record { value = 1; expires_at = some t }))
    × (start + day ≤ t)

get_value-IsRevoked :
    (start id jti now : ℕ) (key : Key) (kv : Values)
    → now < start + day
    → IsRevoked start id jti kv
    → IsRevoked start id jti (get_value now key kv).1
unfolding get_value
get_value-IsRevoked start id jti now key kv soon (t, stored, late) = elim (Option-cases (kv key)) [
  | inl missing ↦ rw (get_value, missing) (t, stored, late)
  | inr (e, here) ↦ elim (Bool-cases (is_over now e)) [
    | inr live ↦ rw (get_value, here, live) (t, stored, late)
    | inl over ↦ elim (Bool-cases (key_eq key (revoked id jti))) [
      | inr apart ↦ rw (get_value, here, over, apart) (t, stored, late)
      | inl same ↦
          let k = key_eq_sound key (revoked id jti) same in
          let e_is : e ≡ record { value = 1; expires_at = some t } =
            some-injective _ _ (sym here ∙ (ap kv k ∙ stored)) in
          absurd (run_out now t (ap (is_over now) (sym e_is) ∙ over) (omega arith))
    ]
  ]
]

-- the answer that is kept for a used token, if there is one yet, until 25 seconds are over
abbrev pub IsKept : ℕ → ℕ → ℕ → Values → Type 0
IsKept start jti pair kv =
    (kv (refresh_grace jti) ≡ none)
    ⊎ (kv (refresh_grace jti) ≡ some (record { value = pair; expires_at = some (start + 25000) }))

get_value-IsKept :
    (start jti pair now : ℕ) (key : Key) (kv : Values)
    → IsKept start jti pair kv
    → IsKept start jti pair (get_value now key kv).1
unfolding get_value
get_value-IsKept start jti pair now key kv h = elim (Option-cases (kv key)) [
  | inl missing ↦ rw (get_value, missing) h
  | inr (e, here) ↦ elim (Bool-cases (is_over now e)) [
    | inr live ↦ rw (get_value, here, live) h
    | inl over ↦ elim (Bool-cases (key_eq key (refresh_grace jti))) [
      | inr apart ↦ rw (get_value, here, over, apart) h
      | inl same ↦ rw (get_value, here, over, same) (inl refl)
    ]
  ]
]

abbrev pub IsUsed : ℕ → ℕ → ℕ → ℕ → Values → Type 0
IsUsed start id jti pair kv = IsRevoked start id jti kv × IsKept start jti pair kv

pub get_value-IsUsed :
    (start id jti pair now : ℕ) (key : Key) (kv : Values)
    → now < start + day
    → IsUsed start id jti pair kv
    → IsUsed start id jti pair (get_value now key kv).1
get_value-IsUsed start id jti pair now key kv soon h = (
  get_value-IsRevoked start id jti now key kv soon h.0,
  get_value-IsKept start jti pair now key kv h.1,
)

-- another key
pub set_value-IsUsed :
    (start id jti pair now value ttl : ℕ) (key : Key) (kv : Values)
    → key_eq key (revoked id jti) ≡ false
    → key_eq key (refresh_grace jti) ≡ false
    → IsUsed start id jti pair kv
    → IsUsed start id jti pair (set_value now key value ttl kv)
unfolding set_value
set_value-IsUsed start id jti pair now value ttl key kv apart elsewhere h =
    rw (set_value, apart, elsewhere) h

-- a token that is revoked, again or for the first time
pub revoke_one-IsUsed :
    (start id jti pair now ttl id' jti' : ℕ) (kv : Values)
    → start ≤ now
    → 86400 ≤ ttl
    → IsUsed start id jti pair kv
    → IsUsed start id jti pair (set_value now (revoked id' jti') 1 ttl kv)
unfolding set_value
revoke_one-IsUsed start id jti pair now ttl id' jti' kv after long h =
    elim (Bool-cases (key_eq (revoked id' jti') (revoked id jti))) [
      | inr apart ↦ rw (set_value, apart) h
      | inl same ↦
          let long_enough : (ttl == 0) ≡ false = ground arith in
          rw (set_value, same, long_enough)
            ((now + ttl * 1000, refl, omega (arith, after, long)), h.1)
    ]

-- a revoked token is found revoked
pub IsRevoked-get_value :
    (start id jti now : ℕ) (kv : Values)
    → now < start + day
    → IsRevoked start id jti kv
    → (get_value now (revoked id jti) kv).0 ≡ some 1
unfolding get_value
IsRevoked-get_value start id jti now kv soon (t, stored, late) =
    let live : leb t now ≡ false = ground (arith, soon, late) in rw (get_value, stored, live) refl
