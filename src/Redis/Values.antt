-- ===== src/Redis/Values.antt =====
-- The values that src/common/services/redis/redis.service.ts keeps in memory where no client is
-- connected. The keys are the texts that the one-time codes and the tokens use, and others.
use sports_venue_management.Common.{
  ℕ, ◌+◌, ◌-◌, ◌*◌, ◌/◌, ◌≡◌, ltb, Bool, true, false, arith, ◌&&◌, Option, none, some, leb, ◌==◌,
  if◌then◌else◌,
}
use sports_venue_management.Common.Int.{ℤ, pos, negsuc}

-- `otp::${phone}`, `otp_rate::${phone}`, `refresh-grace::${jti}`, `revoke-token::${userId}::${jti}`,
-- and any other key
pub data Key : Type 0 where
  otp otp_rate refresh_grace other : ℕ → Key
  -- `otp::${identifier}::max_tries` and `otp::${identifier}::blocked`
  max_otp block_otp : ℕ → Key
  revoked : ℕ → ℕ → Key

abbrev pub key_eq : Key → Key → Bool
key_eq (otp a) (otp b) = a == b
key_eq (otp_rate a) (otp_rate b) = a == b
key_eq (refresh_grace a) (refresh_grace b) = a == b
key_eq (revoked u a) (revoked v b) = (u == v) && (a == b)
key_eq (other a) (other b) = a == b
key_eq (max_otp a) (max_otp b) = a == b
key_eq (block_otp a) (block_otp b) = a == b
key_eq _ _ = false

pub record Entry : Type 0 where
  pub value : ℕ
  pub expires_at : Option ℕ

abbrev pub Values : Type 0
Values = Key → Option Entry

abbrev pub put : Key → Option Entry → Values → Values
put key entry kv k = if key_eq key k then entry else kv k

-- `ttl ? Date.now() + ttl * 1000 : undefined`
abbrev pub expiry : ℕ → ℕ → Option ℕ
expiry now ttl = if ttl == 0 then none else some (now + ttl * 1000)

unfoldable pub set_value : ℕ → Key → ℕ → ℕ → Values → Values
set_value now key value ttl kv =
    put key (some (record { value = value; expires_at = expiry now ttl })) kv

abbrev pub is_over : ℕ → Entry → Bool
is_over now e = elim e.expires_at [ none ↦ false | some t ↦ leb t now ]

unfoldable pub get_value : ℕ → Key → Values → Option ℕ × Values
get_value now key kv = elim (kv key) [
  | none ↦ (none, kv)
  | some e ↦ if is_over now e then (none, put key none kv) else (some e.value, kv)
]

unfoldable pub del_key : Key → Values → Values
del_key key kv = put key none kv

-- the seconds that are left, -1 where an entry stays for good and -2 where there is none
unfoldable pub ttl : ℕ → Key → Values → ℤ
ttl now key kv = elim (kv key) [
  | none ↦ negsuc 1
  | some e ↦ elim e.expires_at [
    | none ↦ negsuc 0
    | some t ↦
        let remaining = (t - now + 999) / 1000 in
        if ltb 0 remaining then pos remaining else negsuc 1
  ]
]

-- the counter stays for good, also where its entry had an end
unfoldable pub inc : Key → Values → ℕ × Values
inc key kv =
    let num : ℕ = elim (kv key) [ none ↦ 1 | some e ↦ e.value + 1 ] in
    (num, put key (some (record { value = num; expires_at = none })) kv)

unfoldable pub exist : ℕ → Key → Values → Bool × Values
exist now key kv = elim (kv key) [
  | none ↦ (false, kv)
  | some e ↦ if is_over now e then (false, put key none kv) else (true, kv)
]

-- `expire`, which revives an entry whose time is over
unfoldable pub expire : ℕ → Key → ℕ → Values → Bool × Values
expire now key seconds kv = elim (kv key) [
  | none ↦ (false, kv)
  | some e ↦ (true, put key (some (record e { expires_at = some (now + seconds * 1000) })) kv)
]

-- Equal keys are the same key.
pub key_eq_sound : (k l : Key) → key_eq k l ≡ true → k ≡ l
key_eq_sound k l h = ground arith
