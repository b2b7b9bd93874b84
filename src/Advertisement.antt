-- ===== src/Advertisement.antt =====
-- src/modules/advertisement/advertisement.service.ts: the life of an advertisement, and the board that
-- the dashboard shows, with its cache. Texts, images and the order of the board are left out.
pub mod Scheduled
use sports_venue_management.Common.{
  ℕ, ◌+◌, ◌*◌, Bool, true, false, ◌&&◌, ◌||◌, not, Option, none, some, List, [], ◌∷◌, ltb, leb,
  ◌==◌, if◌then◌else◌,
}
use sports_venue_management.Common.Outcome.{Result, ok, err, ad_not_found, ad_ends_early}
use sports_venue_management.Mongo.{Mongo}

pub data AdStatus : Type 0 where
  active inactive scheduled expired : AdStatus

pub record Ad : Type 0 where
  pub position : ℕ
  pub priority : ℕ
  pub status : AdStatus
  pub start_date : Option ℕ
  pub end_date : Option ℕ
  pub impressions : ℕ
  pub clicks : ℕ

-- `startDate && endDate && endDate < startDate`
unfoldable pub ends_early : Option ℕ → Option ℕ → Bool
ends_early (some start) (some finish) = ltb finish start
ends_early _ _ = false

unfoldable pub is_past : ℕ → Option ℕ → Bool
is_past now none = false
is_past now (some finish) = ltb finish now

unfoldable pub is_ahead : ℕ → Option ℕ → Bool
is_ahead now none = false
is_ahead now (some start) = ltb now start

abbrev pub is_inactive : Option AdStatus → Bool
is_inactive (some inactive) = true
is_inactive _ = false

unfoldable pub compute_lifecycle_status :
    ℕ → Option ℕ → Option ℕ → Option AdStatus → Result AdStatus
unfolding ends_early is_past is_ahead
compute_lifecycle_status now start finish explicit =
    if ends_early start finish
    then err ad_ends_early
    else if is_inactive explicit
    then ok inactive
    else if is_past now finish
    then ok expired
    else if is_ahead now start
    then ok scheduled
    else ok (elim explicit [ none ↦ active | some s ↦ s ])

-- the filter of the dashboard: `none` asks for every position
unfoldable pub is_eligible : ℕ → Option ℕ → Ad → Bool
unfolding is_past is_ahead
is_eligible now position ad =
    elim ad.status [ active ↦ true | _ ↦ false ]
    && (not (is_ahead now ad.start_date)
        && (not (is_past now ad.end_date)
            && elim position [ none ↦ true | some q ↦ ad.position == q ]))

-- the fields of `UpdateAdvertisementDto` that the life and the board depend on; one that the request
-- leaves out is `none`
pub record AdUpdate : Type 0 where
  pub start_date : Option ℕ
  pub end_date : Option ℕ
  pub status : Option AdStatus
  pub priority : Option ℕ
  pub position : Option ℕ

unfoldable pub or_else : {A : Type 0} → Option A → Option A → Option A
or_else none y = y
or_else (some x) y = some x

unfoldable pub or_keep : {A : Type 0} → Option A → A → A
or_keep none y = y
or_keep (some x) y = x

abbrev is_given : {A : Type 0} → Option A → Bool
is_given none = false
is_given (some x) = true

unfoldable pub touches_life : AdUpdate → Bool
touches_life dto = is_given dto.start_date || (is_given dto.end_date || is_given dto.status)

-- the status that `update` writes, when it writes one
unfoldable pub updated_status : ℕ → AdUpdate → Ad → Result (Option AdStatus)
unfolding touches_life compute_lifecycle_status or_else or_keep
updated_status now dto ad =
    if touches_life dto
    then elim (compute_lifecycle_status now (or_else dto.start_date ad.start_date)
        (or_else dto.end_date ad.end_date) (some (or_keep dto.status ad.status))) [
          | err e ↦ err e
          | ok s ↦ ok (some s)
        ]
    else ok none

-- `CACHE_TTL_SECONDS`, in milliseconds, is an argument of the board
pub record Shown : Type 0 where
  pub ads : List (ℕ × Ad)
  pub expires_at : ℕ

module _ (mongo : Mongo) where
  open mongo use {Docs, find_by_id, find, update, insert, delete}

  pub record Board : Type 0 where
    pub ads : Docs Ad
    pub cache : Option ℕ → Option Shown

  -- `invalidateDashboardCache` deletes the keys of all positions
  -- What the deletion of the kept boards throws is logged in the source; here it works.
  unfoldable pub invalidate_dashboard_cache : Board → Board
  invalidate_dashboard_cache b = record b { cache = λ position. none }

  unfoldable pub change_ad : ℕ → (Ad → Ad) → Board → Result (Unit {0}) × Board
  unfolding invalidate_dashboard_cache
  change_ad id f b = elim (find_by_id b.ads id) [
    | none ↦ (err ad_not_found, b)
    | some ad ↦ (ok tt, invalidate_dashboard_cache (record b { ads = update id f b.ads }))
  ]

  -- `create`, with the status that was asked for
  unfoldable pub create_ad : ℕ → ℕ → Option AdStatus → Ad → Board → Result (Unit {0}) × Board
  unfolding compute_lifecycle_status invalidate_dashboard_cache
  create_ad now id explicit ad b =
      elim (compute_lifecycle_status now ad.start_date ad.end_date explicit) [
        | err e ↦ (err e, b)
        | ok s ↦ (
          ok tt,
          invalidate_dashboard_cache (record b {
            ads = insert id (record ad { status = s; impressions = 0; clicks = 0 }) b.ads;
          }),
        )
      ]

  -- `update`, with the fields of the request that the model keeps
  unfoldable pub update_ad : ℕ → ℕ → AdUpdate → Board → Result (Unit {0}) × Board
  unfolding updated_status or_else or_keep ends_early change_ad
  update_ad now id dto b = elim (find_by_id b.ads id) [
    | none ↦ (err ad_not_found, b)
    | some ad ↦
        if ends_early (or_else dto.start_date ad.start_date) (or_else dto.end_date ad.end_date)
        then (err ad_ends_early, b)
        else elim (updated_status now dto ad) [
          | err e ↦ (err e, b)
          | ok status ↦
              change_ad id
                (λ a. record a {
                  start_date = or_else dto.start_date a.start_date;
                  end_date = or_else dto.end_date a.end_date;
                  status = or_keep status a.status;
                  priority = or_keep dto.priority a.priority;
                  position = or_keep dto.position a.position;
                })
                b
        ]
  ]

  unfoldable pub delete_ad : ℕ → Board → Result (Unit {0}) × Board
  unfolding invalidate_dashboard_cache
  delete_ad id b = elim (find_by_id b.ads id) [
    | none ↦ (err ad_not_found, b)
    | some ad ↦ (ok tt, invalidate_dashboard_cache (record b { ads = delete id b.ads }))
  ]

  unfoldable pub update_ad_status : ℕ → AdStatus → Board → Result (Unit {0}) × Board
  unfolding change_ad
  update_ad_status id s b = change_ad id (λ ad. record ad { status = s }) b

  -- `schedule`
  unfoldable pub schedule : ℕ → ℕ → ℕ → Option ℕ → Board → Result (Unit {0}) × Board
  unfolding compute_lifecycle_status change_ad
  schedule now id start finish b =
      elim (compute_lifecycle_status now (some start) finish (some active)) [
        | err e ↦ (err e, b)
        | ok s ↦
            change_ad id
              (λ ad. record ad { start_date = some start; end_date = finish; status = s }) b
      ]

  unfoldable pub update_priority : ℕ → ℕ → Board → Result (Unit {0}) × Board
  unfolding change_ad
  update_priority id priority b = change_ad id (λ ad. record ad { priority = priority }) b

  unfoldable pub reorder_each : List (ℕ × ℕ) → Docs Ad → Docs Ad
  reorder_each [] d = d
  reorder_each (e ∷ rest) d = reorder_each rest (update e.0 (λ ad. record ad { priority = e.1 }) d)

  -- `bulkReorder`; an identifier that is not stored is passed over
  unfoldable pub bulk_reorder : List (ℕ × ℕ) → Board → Board
  unfolding reorder_each invalidate_dashboard_cache
  bulk_reorder items b = invalidate_dashboard_cache (record b { ads = reorder_each items b.ads })

  -- the counters, which leave the cache alone
  unfoldable pub record_impression : ℕ → Board → Result (Unit {0}) × Board
  record_impression id b = elim (find_by_id b.ads id) [
    | none ↦ (err ad_not_found, b)
    | some ad ↦ (
      ok tt,
      record b { ads = update id (λ a. record a { impressions = a.impressions + 1 }) b.ads },
    )
  ]

  unfoldable pub record_click : ℕ → Board → Result (Unit {0}) × Board
  record_click id b = elim (find_by_id b.ads id) [
    | none ↦ (err ad_not_found, b)
    | some ad ↦
        (ok tt, record b { ads = update id (λ a. record a { clicks = a.clicks + 1 }) b.ads })
  ]

  -- what is kept for a position and has not run out
  unfoldable pub kept_board : ℕ → Option ℕ → Board → Option (List (ℕ × Ad))
  kept_board now position b = elim (b.cache position) [
    | none ↦ none
    | some s ↦ if leb s.expires_at now then none else some s.ads
  ]

  abbrev same_position : Option ℕ → Option ℕ → Bool
  same_position none none = true
  same_position (some p) (some q) = p == q
  same_position _ _ = false

  unfoldable pub get_dashboard_advertisements : ℕ → ℕ → Option ℕ → Board → List (ℕ × Ad) × Board
  unfolding kept_board is_eligible
  get_dashboard_advertisements ttl now position b = elim (kept_board now position b) [
    | some ads ↦ (ads, b)
    | none ↦
        let ads = find (is_eligible now position) b.ads in
        (
          ads,
          record b {
            cache = λ q.
                if same_position position q
                then some (record { ads = ads; expires_at = now + ttl })
                else b.cache q;
          },
        )
  ]
