-- ===== src/Examples/Board.antt =====
-- The theorem on the advertisements' board, applied.
use sports_venue_management.Common.{◌+◌, ◌≤◌, ◌<◌, ◌≡◌, ◌↔◌, refl, none, some, [], ◌∷◌, arith}
use sports_venue_management.Mongo.ListStore.{list_mongo, get}
use sports_venue_management.Advertisement.{
  Ad, inactive, Board, schedule, get_dashboard_advertisements,
}
use sports_venue_management.Advertisement.Scheduled.{
  IsOpen, IsShown, schedule-get_dashboard_advertisements,
}

abbrev banner : Ad
banner = record {
  position = 1;
  priority = 5;
  status = inactive;
  start_date = none;
  end_date = none;
  impressions = 0;
  clicks = 0;
}

abbrev board : Board list_mongo
board = record { ads = (4, banner) ∷ []; cache = λ position. none }

-- scheduled at the instant 1000 for 500, and looked at in the instants 6000 and 400000
schedule-get_dashboard_advertisements_example :
    let after = (schedule list_mongo 1000 4 500 (some 9000) board).1 in
    let first = get_dashboard_advertisements list_mongo 300000 6000 none after in
    let second = get_dashboard_advertisements list_mongo 300000 400000 none first.1 in
    (IsShown list_mongo 4 first.0 ↔ ((500 ≤ 1000) × IsOpen 6000 (some 9000)))
    × (400000 < 6000 + 300000 → second.0 ≡ first.0)
    × (6000 + 300000 ≤ 400000
        → IsShown list_mongo 4 second.0 ↔ ((500 ≤ 1000) × IsOpen 400000 (some 9000)))
unfolding schedule get
schedule-get_dashboard_advertisements_example =
    schedule-get_dashboard_advertisements list_mongo 300000 1000 6000 400000 4 500 (some 9000) board
      refl (omega arith) (omega arith)
