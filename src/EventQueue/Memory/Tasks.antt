-- ===== src/EventQueue/Memory/Tasks.antt =====
-- What each method of `InMemoryJobAppliedAdapter` (gtasks/event_queue/handler.py) does to the quota
-- tasks.
use gtasks.Prelude.{◌≡◌, ◌⊎◌, refl, inl, inr, String, true, some, ◌==◌, arith, Bool-cases}
use gtasks.Prelude.Exec.{ok}
use gtasks.Prelude.Dict.{get, get-put_self}
use gtasks.EventQueue.Time.{Datetime}
use gtasks.EventQueue.Handler.{QuotaTaskState, ApplicationRecord, Progress}
use gtasks.EventQueue.Memory.{
  Memory, get_quota_task, upsert_application, ensure_link, set_quota_progress, complete_quota_task,
  verify, progressed, completed, same_task,
}

pub tasks-upsert :
    (r : ApplicationRecord) (m : Memory)
    → ((upsert_application r m).0 ≡ ok tt) × ((upsert_application r m).1.tasks ≡ m.tasks)
unfolding upsert_application
tasks-upsert r m = (refl, ground arith)

pub tasks-link :
    (a b k : String) (m : Memory)
    → ((ensure_link a b k m).0 ≡ ok tt) × ((ensure_link a b k m).1.tasks ≡ m.tasks)
unfolding ensure_link
tasks-link a b k m = (refl, ground arith)

pub tasks-verify :
    (r : ApplicationRecord) (t : QuotaTaskState) (m : Memory) → (verify r t m).1.tasks ≡ m.tasks
unfolding verify
tasks-verify r t m = ground arith

pub get_task-found :
    (slug : String) (t : QuotaTaskState) (m : Memory)
    → get slug m.tasks ≡ some t
    → get_quota_task slug m ≡ (ok t, m)
unfolding get_quota_task
get_task-found slug t m h = rw h refl

-- completing a task that is there
pub complete-found :
    (slug : String) (at : Datetime) (t : QuotaTaskState) (m : Memory)
    → get slug m.tasks ≡ some t
    → (t' : QuotaTaskState) × ((complete_quota_task slug at m).0 ≡ ok t')
      × (get slug (complete_quota_task slug at m).1.tasks ≡ some t')
      × ((t' ≡ t) ⊎ (t' ≡ completed t at))
unfolding complete_quota_task
complete-found slug at t m h = elim (Bool-cases (t.status == "completed")) [
  | inl done ↦ (t, rw (h, done) refl, rw (h, done) h, inl refl)
  | inr open_ ↦ (
    completed t at,
    rw (h, open_) refl,
    rw (h, open_) (get-put_self slug (completed t at) m.tasks),
    inr refl,
  )
]

-- writing the progress of a task that is there
pub set_progress-found :
    (slug : String) (p : Progress) (t : QuotaTaskState) (m : Memory)
    → get slug m.tasks ≡ some t
    → ((set_quota_progress slug p m).0 ≡ ok (progressed t p))
      × ((get slug (set_quota_progress slug p m).1.tasks ≡ some (progressed t p))
          ⊎ ((get slug (set_quota_progress slug p m).1.tasks ≡ some t)
              × (same_task (progressed t p) t ≡ true)))
unfolding set_quota_progress
set_progress-found slug p t m h = elim (Bool-cases (same_task (progressed t p) t)) [
  | inl same ↦ (rw h refl, inr (rw (h, same) h, same))
  | inr changed ↦ (rw h refl, inl (rw (h, changed) (get-put_self slug (progressed t p) m.tasks)))
]
