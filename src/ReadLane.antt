-- ===== src/ReadLane.antt =====
-- gtasks/read_budget.py, `BoundedReadExecutor`: the queue and the workers of a read lane. Each block under
-- the condition is one step. `expired` says whether the caller's read budget is exhausted. What the jobs
-- compute is not modelled.
pub mod Bounds
mod Tests
use gtasks.Prelude.{
  ℕ, ◌+◌, ◌-◌, Bool, true, false, not, ◌||◌, Option, none, some, List, [], ◌∷◌, ◌++◌, leb, ltb,
  nat_eq, if◌then◌else◌,
}
use gtasks.Prelude.Exec.{
  Exec, Result, ok, err, value_error, deadline_exceeded, capacity_exceeded, pure, raise, raise_if,
  gets, modify, ◌>>=◌, ◌>>◌,
}
use gtasks.Prelude.Tables.{length, delete_rows, update_rows}

-- a queued job, and whether its future is cancelled
pub record Job : Type 0 where
  pub id : ℕ
  pub cancelled : Bool

pub record Lane : Type 0 where
  pub max_workers : ℕ
  pub max_queued : ℕ
  pub pending : List Job
  pub workers : ℕ

-- how a pass of the loop of `submit` ends that raises nothing
pub data Submission : Type 0 where
  admitted waiting : Submission

-- `__init__`
unfoldable pub new_lane : ℕ → ℕ → Result Lane
new_lane max_workers max_queued =
    if ltb max_workers 1 || ltb max_queued 1
    then err value_error
    else ok
        (record { max_workers = max_workers; max_queued = max_queued; pending = []; workers = 0 })

abbrev pub prune : Lane → Lane
prune l = record l { pending = delete_rows (λ j. j.cancelled) l.pending }

-- the job is queued, and a worker started for it if there is room for one
abbrev pub admit : ℕ → Lane → Lane
admit id l = record l {
  pending = l.pending ++ record { id = id; cancelled = false } ∷ [];
  workers = if ltb l.workers l.max_workers then l.workers + 1 else l.workers;
}

-- one pass of the loop of `submit`
unfoldable pub submit_pass : Bool → Bool → ℕ → Exec Lane Submission
submit_pass expired wait_for_capacity id = do
  modify prune
  raise_if expired deadline_exceeded
  room ← gets (λ l. ltb (length l.pending) l.max_queued)
  if room
      then (do modify (admit id); pure admitted)
      else (if wait_for_capacity then pure waiting else raise capacity_exceeded)

abbrev pub take_first : List Job → Exec Lane (Option Job)
take_first [] l = (ok none, record l { workers = l.workers - 1 })
take_first (j ∷ js) l = (ok (some j), record l { pending = js })

-- the block of `_work`: the worker ends if nothing is queued, and takes the first job if not
unfoldable pub work_pass : Exec Lane (Option Job)
work_pass l = take_first l.pending l

-- `future.cancel()` on a queued job
unfoldable pub cancel : ℕ → Exec Lane (Unit {0})
cancel id = modify (λ l. record l {
  pending = update_rows (λ j. nat_eq j.id id) (λ j. record j { cancelled = true }) l.pending;
})

pub data LaneStep : Type 0 where
  submitting : Bool → Bool → ℕ → LaneStep
  working : LaneStep
  cancelling : ℕ → LaneStep

-- a step of the lane; only a worker that runs can take a job or end
unfoldable pub lane_step : LaneStep → Lane → Lane
lane_step (submitting expired wait id) l = (submit_pass expired wait id l).1
lane_step working l = if nat_eq l.workers 0 then l else (work_pass l).1
lane_step (cancelling id) l = (cancel id l).1

unfoldable pub lane_run : List LaneStep → Lane → Lane
lane_run [] l = l
lane_run (s ∷ ss) l = lane_run ss (lane_step s l)
