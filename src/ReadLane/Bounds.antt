-- ===== src/ReadLane/Bounds.antt =====
-- The limits that `BoundedReadExecutor` (gtasks/read_budget.py) keeps.
use gtasks.Prelude.{
  ap, ◌||◌, ℕ, ◌+◌, ◌≤◌, ◌≡◌, ◌⊎◌, inl, inr, refl, arith, Bool, true, false, List, [], ◌∷◌, ◌++◌,
  ltb, nat_eq, if◌then◌else◌, Bool-cases,
}
use gtasks.Prelude.Exec.{ok, pure, raise, capacity_exceeded}
use gtasks.Prelude.Tables.{length, delete_rows, update_rows}
use gtasks.ReadLane.{
  Job, Lane, LaneStep, submitting, working, cancelling, waiting, new_lane, prune, admit,
  submit_pass, take_first, work_pass, cancel, lane_step, lane_run,
}

-- No more workers and queued jobs than the limits, and a worker where a job is queued.
pub record IsBounded (l : Lane) : Type 0 where
  pub some_worker_allowed : 1 ≤ l.max_workers
  pub workers_bounded : l.workers ≤ l.max_workers
  pub queue_bounded : length l.pending ≤ l.max_queued
  pub served : (length l.pending ≡ 0) ⊎ (1 ≤ l.workers)

module _ {A : Type 0} where
  length-delete : (p : A → Bool) (xs : List A) → length (delete_rows p xs) ≤ length xs
  length-delete p [] = omega arith
  length-delete p (x ∷ xs) = ground (arith, length-delete p xs)

  length-update : (p : A → Bool) (f : A → A) (xs : List A) → length (update_rows p f xs) ≡ length xs
  length-update p f [] = refl
  length-update p f (x ∷ xs) = omega (arith, length-update p f xs)

  length-snoc : (xs : List A) (y : A) → length (xs ++ y ∷ []) ≡ length xs + 1
  length-snoc [] y = refl
  length-snoc (x ∷ xs) y = omega (arith, length-snoc xs y)

prune-IsBounded : (l : Lane) → IsBounded l → IsBounded (prune l)
prune-IsBounded l b = record {
  some_worker_allowed = b.some_worker_allowed;
  workers_bounded = b.workers_bounded;
  queue_bounded = omega (arith, length-delete (λ j. j.cancelled) l.pending, b.queue_bounded);
  served = ground (arith, length-delete (λ j. j.cancelled) l.pending, b.served);
}

admit-IsBounded :
    (id : ℕ) (l : Lane)
    → ltb (length l.pending) l.max_queued ≡ true
    → IsBounded l
    → IsBounded (admit id l)
admit-IsBounded id l room b = record {
  some_worker_allowed = b.some_worker_allowed;
  workers_bounded = ground (arith, b.workers_bounded);
  queue_bounded =
      ground (arith, room, length-snoc l.pending (record { id = id; cancelled = false }));
  served = inr (ground (arith, b.some_worker_allowed));
}

full_pass :
    (wait : Bool) (l : Lane)
    → IsBounded l
    → IsBounded ((if wait then pure waiting else raise capacity_exceeded) l).1
full_pass true l b = b
full_pass false l b = b

submit_pass-IsBounded :
    (expired wait : Bool) (id : ℕ) (l : Lane)
    → IsBounded l
    → IsBounded (submit_pass expired wait id l).1
unfolding submit_pass
submit_pass-IsBounded true wait id l b = prune-IsBounded l b
submit_pass-IsBounded false wait id l b =
    let pruned : IsBounded (prune l) = prune-IsBounded l b in
    elim (Bool-cases (ltb (length (prune l).pending) l.max_queued)) [
      | inl room ↦ rw room (admit-IsBounded id (prune l) room pruned)
      | inr full ↦ rw full (full_pass wait (prune l) pruned)
    ]

take_first-IsBounded :
    (l : Lane) (js : List Job) → l.pending ≡ js → IsBounded l → IsBounded (take_first js l).1
take_first-IsBounded l [] e b = record {
  some_worker_allowed = b.some_worker_allowed;
  workers_bounded = omega (arith, b.workers_bounded);
  queue_bounded = b.queue_bounded;
  served = inl (rw e refl);
}
take_first-IsBounded l (j ∷ js) e b =
    let longer : length l.pending ≡ length js + 1 = omega (arith, ap length e) in
    record {
      some_worker_allowed = b.some_worker_allowed;
      workers_bounded = b.workers_bounded;
      queue_bounded = omega (arith, longer, b.queue_bounded);
      served = inr (ground (arith, longer, b.served));
    }

cancel-IsBounded : (id : ℕ) (l : Lane) → IsBounded l → IsBounded (cancel id l).1
unfolding cancel
cancel-IsBounded id l b =
    let same = length-update (λ j. nat_eq j.id id) (λ j. record j { cancelled = true }) l.pending in
    record {
      some_worker_allowed = b.some_worker_allowed;
      workers_bounded = b.workers_bounded;
      queue_bounded = omega (arith, same, b.queue_bounded);
      served = ground (arith, same, b.served);
    }

lane_step-IsBounded : (s : LaneStep) (l : Lane) → IsBounded l → IsBounded (lane_step s l)
unfolding lane_step work_pass
lane_step-IsBounded (submitting expired wait id) l b = submit_pass-IsBounded expired wait id l b
lane_step-IsBounded working l b = elim (Bool-cases (nat_eq l.workers 0)) [
  | inl idle ↦ rw idle b
  | inr busy ↦ rw busy (take_first-IsBounded l l.pending refl b)
]
lane_step-IsBounded (cancelling id) l b = cancel-IsBounded id l b

run-IsBounded : (ss : List LaneStep) (l : Lane) → IsBounded l → IsBounded (lane_run ss l)
unfolding lane_run
run-IsBounded [] l b = b
run-IsBounded (s ∷ ss) l b = run-IsBounded ss (lane_step s l) (lane_step-IsBounded s l b)

fresh :
    (max_workers max_queued : ℕ) (l : Lane) → new_lane max_workers max_queued ≡ ok l → IsBounded l
unfolding new_lane
fresh max_workers max_queued l e = elim (Bool-cases (ltb max_workers 1 || ltb max_queued 1)) [
  | inl bad ↦ cc (rw bad at e)
  | inr good ↦
      let made = rw good at e in
      record {
        some_worker_allowed = ground arith;
        workers_bounded = ground arith;
        queue_bounded = ground arith;
        served = ground arith;
      }
]

-- Of a lane that the constructor returns, any sequence of submissions, workers' passes and cancellations
-- leaves at most `max_workers` workers, at most `max_queued` queued jobs, and at least one worker where a job is
-- queued.
pub new_lane-IsBounded :
    (max_workers max_queued : ℕ) (l : Lane) (ss : List LaneStep)
    → new_lane max_workers max_queued ≡ ok l
    → IsBounded (lane_run ss l)
new_lane-IsBounded max_workers max_queued l ss e =
    run-IsBounded ss l (fresh max_workers max_queued l e)
