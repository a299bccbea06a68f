-- ===== src/ReadLane/Tests.antt =====
-- Runs of `BoundedReadExecutor` (gtasks/read_budget.py).
use gtasks.Prelude.{refl, true, false, [], ◌∷◌}
use gtasks.ReadLane.{Lane, submitting, working, cancelling, new_lane, lane_run}
use gtasks.ReadLane.Bounds.{IsBounded, new_lane-IsBounded}

abbrev lane : Lane
lane = record { max_workers = 1; max_queued = 2; pending = []; workers = 0 }

new_lane-IsBounded_example : IsBounded (
    lane_run (submitting false true 1 ∷ submitting false true 2 ∷ cancelling 2 ∷ working ∷ []) lane)
unfolding new_lane
new_lane-IsBounded_example =
    new_lane-IsBounded 1 2 lane
      (submitting false true 1 ∷ submitting false true 2 ∷ cancelling 2 ∷ working ∷ []) refl
