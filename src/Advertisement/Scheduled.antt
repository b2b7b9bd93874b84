-- ===== src/Advertisement/Scheduled.antt =====
-- When a scheduled advertisement is shown.
use sports_venue_management.Common.{
  ℕ, ◌+◌, ◌≤◌, ◌<◌, ◌≡◌, ◌↔◌, refl, true, false, leb, if◌then◌else◌, List, Option, none, some,
  arith, Option-cases, inl, inr,
}
use sports_venue_management.Common.Outcome.{ok, Result-cases}
use sports_venue_management.Mongo.{Mongo, Found, find_iff, update_here}
use sports_venue_management.Advertisement.{
  Ad, AdStatus, active, compute_lifecycle_status, is_eligible, is_past, Board, change_ad,
  invalidate_dashboard_cache, schedule, kept_board, get_dashboard_advertisements,
}

-- the end has not come
abbrev pub IsOpen : ℕ → Option ℕ → Type 0
IsOpen now finish = is_past now finish ≡ false

eligible_iff :
    (now later start : ℕ) (finish : Option ℕ) (ad : Ad) (s : AdStatus)
    → compute_lifecycle_status now (some start) finish (some active) ≡ ok s
    → now ≤ later
    → (is_eligible later none (record ad { start_date = some start; end_date = finish; status = s })
        ≡ true)
      ↔ ((start ≤ now) × IsOpen later finish)
unfolding compute_lifecycle_status is_eligible
eligible_iff now later start none ad s h order = ground arith
eligible_iff now later start (some finish) ad s h order = ground arith

module _ (mongo : Mongo) where
  open mongo use {find_by_id, find, find_sound, find_complete}

  schedule-stored :
      (now id start : ℕ) (finish : Option ℕ) (b : Board mongo)
      → (schedule mongo now id start finish b).0 ≡ ok tt
      → (s : AdStatus) × (ad : Ad) × (compute_lifecycle_status now (some start) finish (some active)
          ≡ ok s)
        × (find_by_id (schedule mongo now id start finish b).1.ads id
            ≡ some (record ad { start_date = some start; end_date = finish; status = s }))
        × ((schedule mongo now id start finish b).1.cache none ≡ none)
  unfolding schedule change_ad invalidate_dashboard_cache
  schedule-stored now id start finish b done =
      elim (Result-cases (compute_lifecycle_status now (some start) finish (some active))) [
        | inl (e, failed) ↦ absurd (ground (arith, failed, done))
        | inr (s, fine) ↦ elim (Option-cases (find_by_id b.ads id)) [
          | inl missing ↦ absurd (ground (arith, fine, missing, done))
          | inr (ad, stored) ↦ (
            s,
            ad,
            fine,
            rw (schedule, fine, change_ad, stored)
                (update_here mongo id
                  (λ a. record a { start_date = some start; end_date = finish; status = s }) b.ads
                  ad stored),
            rw (schedule, fine, change_ad, stored) refl,
          )
        ]
      ]

  -- Without a live kept board the view asks the store, and keeps the answer.
  fresh_board :
      (ttl now : ℕ) (position : Option ℕ) (b : Board mongo)
      → kept_board mongo now position b ≡ none
      → (get_dashboard_advertisements mongo ttl now position b).0
        ≡ find (is_eligible now position) b.ads
  unfolding get_dashboard_advertisements
  fresh_board ttl now position b nothing = ground (arith, nothing)

  kept_after :
      (ttl now again : ℕ) (b : Board mongo)
      → kept_board mongo now none b ≡ none
      → let r = get_dashboard_advertisements mongo ttl now none b in
        (r.1.ads ≡ b.ads)
        × (kept_board mongo again none r.1 ≡ (if leb (now + ttl) again then none else some r.0))
  unfolding get_dashboard_advertisements kept_board
  kept_after ttl now again b nothing = rw (get_dashboard_advertisements, nothing) (refl, refl)

  view_kept :
      (ttl now : ℕ) (ads : List (ℕ × Ad)) (b : Board mongo)
      → kept_board mongo now none b ≡ some ads
      → (get_dashboard_advertisements mongo ttl now none b).0 ≡ ads
  unfolding get_dashboard_advertisements
  view_kept ttl now ads b kept = rw (get_dashboard_advertisements, kept) refl

  nothing_kept :
      (now : ℕ) (b : Board mongo) → b.cache none ≡ none → kept_board mongo now none b ≡ none
  unfolding kept_board
  nothing_kept now b nothing = rw (kept_board, nothing) refl

  -- the advertisement is on the list
  abbrev pub IsShown : ℕ → List (ℕ × Ad) → Type 0
  IsShown id ads = (v : Ad) × Found id v ads

  -- After an advertisement is scheduled, which deletes the kept boards, the first view of the whole
  -- board shows it exactly if its start had come when it was scheduled and its end has not come at
  -- the view. Until the time that a board is kept for is over, a second view repeats the first; from
  -- then on it shows the advertisement exactly if its start had come when it was scheduled and its
  -- end has not come at this second view.
  pub schedule-get_dashboard_advertisements :
      (ttl now later again id start : ℕ) (finish : Option ℕ) (b : Board mongo)
      → (schedule mongo now id start finish b).0 ≡ ok tt
      → now ≤ later
      → later ≤ again
      → let after = (schedule mongo now id start finish b).1 in
        let first = get_dashboard_advertisements mongo ttl later none after in
        let second = get_dashboard_advertisements mongo ttl again none first.1 in
        (IsShown id first.0 ↔ ((start ≤ now) × IsOpen later finish))
        × (again < later + ttl → second.0 ≡ first.0)
        × (later + ttl ≤ again → IsShown id second.0 ↔ ((start ≤ now) × IsOpen again finish))
  schedule-get_dashboard_advertisements ttl now later again id start finish b done order then_on =
      let after = (schedule mongo now id start finish b).1 in
      let (s, ad, computed, stored, nothing) = schedule-stored now id start finish b done in
      let empty = nothing_kept later after nothing in
      let first = get_dashboard_advertisements mongo ttl later none after in
      let (same_ads, kept) = kept_after ttl later again after empty in
      let shown_at : (t : ℕ)
          → now ≤ t
          → IsShown id (find (is_eligible t none) after.ads) ↔ ((start ≤ now) × IsOpen t finish) =
        λ t from.
          let eligible = eligible_iff now t start finish ad s computed from in
          let shown = find_iff mongo (is_eligible t none) after.ads id _ stored in
          (λ found. eligible.0 (shown.0 found), λ both. shown.1 (eligible.1 both)) in
      (
        rw (fresh_board ttl later none after empty) (shown_at later order),
        (λ soon.
            let live : leb (later + ttl) again ≡ false = ground (arith, soon) in
            view_kept ttl again first.0 first.1 (rw live at kept)),
        λ over.
            let gone : leb (later + ttl) again ≡ true = ground (arith, over) in
            rw (fresh_board ttl again none first.1 (rw gone at kept), same_ads)
              (shown_at again (omega arith)),
      )
