-- ===== src/Pool/Tests.antt =====
-- A client whose transport ends once.
use httpadapter.Common.{◌≤◌, ◌≡◌, refl, true, false, List, [], ◌∷◌, ◌++◌}
use httpadapter.Pool.{max_uint64, start, dialed, Event, asks, closes, step, ask, run}
use httpadapter.Pool.Counts.{IsKnown, count, handed_out_bounds}
use httpadapter.Pool.Closing.{numbers, closes_all}

abbrev events : List Event
events = asks false dialed ∷ asks false dialed ∷ asks true dialed ∷ []

handed_out_bounds_example :
    (count 0 (run start events).given ≤ max_uint64)
    × IsKnown (run start events).made (run start events).given (run start events).current
handed_out_bounds_example = handed_out_bounds events 0

closes_all_example :
    let p = run start (events ++ (closes ∷ [])) in
    (p.ended ≡ true)
    × (p.closed ≡ numbers p.made)
    × (p.keys ≡ numbers p.made)
    × (p.made ≡ (run start events).made)
closes_all_example = closes_all events [] tt

given_thrice : (run start events).given ≡ 0 ∷ 0 ∷ 1 ∷ []
unfolding run step ask
given_thrice = refl
