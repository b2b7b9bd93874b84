-- ===== src/Auth/Logouts.antt =====
-- What a logout without the refresh token leaves of it.
use sports_venue_management.Common.{
  ℕ, ◌+◌, ◌<◌, ◌≤◌, ◌≡◌, refl, true, none, some, arith, leb, ==_refl, ap, ◌∙◌,
}
use sports_venue_management.Common.Outcome.{ok, err, token_revoked}
use sports_venue_management.Redis.Values.{Key, refresh_grace, revoked, Values, set_value, get_value}
use sports_venue_management.Auth.Marks.{IsRevoked-get_value}
use sports_venue_management.Auth.{
  UserType, Claims, Account, Directory, find_user, day_ttl, refresh_claims, revoke, logout,
}

logout_marks :
    (now id jti : ℕ) (c : Claims) (kv : Values)
    → c.id ≡ some id
    → c.jti ≡ some jti
    → logout now (some c) none kv ≡ set_value now (revoked id jti) 1 day_ttl kv
unfolding logout revoke
logout_marks now id jti c kv named marked = rw (logout, revoke, named, marked) refl

-- no answer is kept for the token, and the mark stays
unkept_read :
    (now later id jti : ℕ) (kv : Values)
    → kv (refresh_grace jti) ≡ none
    → get_value later (refresh_grace jti) (set_value now (revoked id jti) 1 day_ttl kv)
      ≡ (none, set_value now (revoked id jti) 1 day_ttl kv)
unfolding get_value set_value
unkept_read now later id jti kv unkept = rw (get_value, set_value, unkept) refl

marked_now :
    (now id jti : ℕ) (kv : Values)
    → set_value now (revoked id jti) 1 day_ttl kv (revoked id jti)
      ≡ some (record { value = 1; expires_at = some (now + 86400000) })
unfolding set_value
marked_now now id jti kv = rw (set_value, ==_refl id, ==_refl jti) refl

over_read :
    (later t : ℕ) (key : Key) (kv : Values)
    → kv key ≡ some (record { value = 1; expires_at = some t })
    → t ≤ later
    → (get_value later key kv).0 ≡ none
unfolding get_value
over_read later t key kv stored over =
    let gone : leb t later ≡ true = ground (arith, over) in rw (get_value, stored, gone) refl

-- the answer, by what is read
refused :
    (later id jti fresh : ℕ) (d : Directory) (u : UserType) (kv : Values)
    → get_value later (refresh_grace jti) kv ≡ (none, kv)
    → (get_value later (revoked id jti) kv).0 ≡ some 1
    → (refresh_claims d later fresh u id jti kv).0 ≡ err token_revoked
unfolding refresh_claims
refused later id jti fresh d u kv unkept marked =
    let miss = ap (λ r. r.0) unkept in
    let mark = ap (λ r. (get_value later (revoked id jti) r.1).0) unkept ∙ marked in
    rw (refresh_claims, miss, mark) refl

refreshed :
    (later id jti fresh : ℕ) (d : Directory) (u : UserType) (a : Account) (kv : Values)
    → get_value later (refresh_grace jti) kv ≡ (none, kv)
    → (get_value later (revoked id jti) kv).0 ≡ none
    → find_user d u id ≡ some a
    → (refresh_claims d later fresh u id jti kv).0 ≡ ok fresh
unfolding refresh_claims
refreshed later id jti fresh d u a kv unkept unmarked known =
    let miss = ap (λ r. r.0) unkept in
    let mark = ap (λ r. (get_value later (revoked id jti) r.1).0) unkept ∙ unmarked in
    rw (refresh_claims, miss, mark, known) refl

-- After a logout with the access token of a pair, and without its refresh token in the body, the
-- refresh token of the pair, of which no answer is kept and whose user is stored, is refused for 24
-- hours, and then it is refreshed.
pub refresh_claims-logout :
    (now later id jti fresh : ℕ) (c : Claims) (d : Directory) (u : UserType) (a : Account)
    (kv : Values)
    → c.id ≡ some id
    → c.jti ≡ some jti
    → kv (refresh_grace jti) ≡ none
    → find_user d u id ≡ some a
    → let answer = (refresh_claims d later fresh u id jti (logout now (some c) none kv)).0 in
      (later < now + 86400000 → answer ≡ err token_revoked)
      × (now + 86400000 ≤ later → answer ≡ ok fresh)
refresh_claims-logout now later id jti fresh c d u a kv named marked unkept known =
    let after = set_value now (revoked id jti) 1 day_ttl kv in
    let nothing = unkept_read now later id jti kv unkept in
    let mark = marked_now now id jti kv in
    rw (logout_marks now id jti c kv named marked) (
      (λ soon.
          refused later id jti fresh d u after nothing
            (IsRevoked-get_value now id jti later after soon (now + 86400000, mark, omega arith))),
      λ over.
          refreshed later id jti fresh d u a after nothing
            (over_read later (now + 86400000) (revoked id jti) after mark over) known,
    )
