-- ===== src/EventQueue/Memory.antt =====
-- gtasks/event_queue/handler.py, `InMemoryJobAppliedAdapter`: the adapter that keeps applications, links
-- and quota tasks in dicts.
pub mod Tasks
pub mod Counting
use gtasks.Prelude.{
  ℕ, ◌+◌, String, Bool, true, false, not, ◌&&◌, ◌||◌, Option, none, some, List, [], ◌∷◌, ◌==◌,
  nat_eq, is_some, if◌then◌else◌,
}
use gtasks.Prelude.Exec.{
  Exec, handler_failure, value_error, key_error, pure, raise, raise_if, gets, modify, ok, err,
  ◌>>=◌, ◌>>◌,
}
use gtasks.Prelude.Tables.{length, any_row}
use gtasks.Prelude.Sets.{member, set_eq}
use gtasks.Prelude.Dict.{Dict, get, put}
use gtasks.EventQueue.Time.{Datetime, aware, naive}
use gtasks.EventQueue.Handler.{QuotaTaskState, ApplicationRecord, Progress, Adapter}

pub record Link : Type 0 where
  pub from_slug : String
  pub to_slug : String
  pub link_type : String

pub record Memory : Type 0 where
  pub applications : Dict ApplicationRecord
  pub tasks : Dict QuotaTaskState
  pub links : List Link
  pub application_write_count : ℕ
  pub progress_write_count : ℕ
  pub completion_write_count : ℕ
  pub fail_readback_once : Bool

abbrev pub empty_memory : Memory
empty_memory = record {
  applications = [];
  tasks = [];
  links = [];
  application_write_count = 0;
  progress_write_count = 0;
  completion_write_count = 0;
  fail_readback_once = false;
}

-- `==` on datetimes, dataclasses and links
abbrev pub same_time : Datetime → Datetime → Bool
same_time (aware a) (aware b) = nat_eq a b
same_time (naive a) (naive b) = nat_eq a b
same_time _ _ = false

abbrev pub same_completion : Option Datetime → Option Datetime → Bool
same_completion none none = true
same_completion (some a) (some b) = same_time a b
same_completion _ _ = false

unfoldable pub same_application : ApplicationRecord → ApplicationRecord → Bool
same_application a b =
    (a.slug == b.slug)
    && (a.event_id == b.event_id)
    && (a.source_client_id == b.source_client_id)
    && (a.job_source == b.job_source)
    && (a.job_id == b.job_id)
    && (a.title == b.title)
    && (a.company == b.company)
    && (a.location == b.location)
    && (a.url == b.url)
    && (a.status == b.status)
    && (a.applied_local_date == b.applied_local_date)
    && same_time a.committed_at b.committed_at
    && (a.evidence_source == b.evidence_source)

unfoldable pub same_task : QuotaTaskState → QuotaTaskState → Bool
same_task a b =
    (a.slug == b.slug)
    && (if a.active then b.active else not b.active)
    && (a.status == b.status)
    && (a.day == b.day)
    && (a.unit == b.unit)
    && nat_eq a.target b.target
    && nat_eq a.baseline_count b.baseline_count
    && set_eq a.evidence b.evidence
    && set_eq a.receipt_ids b.receipt_ids
    && nat_eq a.completed_count b.completed_count
    && same_completion a.completed_at b.completed_at

abbrev pub same_link : Link → Link → Bool
same_link a b =
    (a.from_slug == b.from_slug) && (a.to_slug == b.to_slug) && (a.link_type == b.link_type)

-- `d.get(k) == v`
abbrev pub holds : {V : Type 0} → (V → V → Bool) → Option V → V → Bool
holds same none v = false
holds same (some w) v = same w v

-- the arguments of `add_quota_task`, with the defaults filled in, and the three entries of `event_progress`
pub record NewTask : Type 0 where
  pub slug : String
  pub task_day : Option String
  pub day : Option String
  pub status : Option String
  pub active : Option Bool
  pub unit : String
  pub target : ℕ
  pub evidence_slugs : List String
  pub receipt_ids : List String
  pub baseline_count : ℕ

-- `status or ("active" if active is not False else "completed")`; an empty status counts as none
abbrev pub default_status : Option Bool → String
default_status none = "active"
default_status (some active) = if active then "active" else "completed"

abbrev pub selected_status : Option String → Option Bool → String
selected_status none active = default_status active
selected_status (some status) active = if status == "" then default_status active else status

-- `task_day or day`
abbrev pub selected_day : Option String → Option String → Option String
selected_day none day = day
selected_day (some task_day) day = if task_day == "" then day else some task_day

-- `frozenset(raw)`
abbrev pub frozen : List String → List String
frozen [] = []
frozen (x ∷ xs) = let rest = frozen xs in if member x rest then rest else x ∷ rest

abbrev pub planned_task : NewTask → String → QuotaTaskState
planned_task t day =
    let status = selected_status t.status t.active in
    record {
      slug = t.slug;
      active = (status == "planned") || (status == "active") || (status == "blocked");
      status = status;
      day = day;
      unit = t.unit;
      target = t.target;
      baseline_count = t.baseline_count;
      evidence = frozen t.evidence_slugs;
      receipt_ids = frozen t.receipt_ids;
      completed_count = t.baseline_count + length t.evidence_slugs;
      completed_at = none;
    }

abbrev pub insert_task : NewTask → Option String → Exec Memory (Unit {0})
insert_task t none = raise value_error
insert_task t (some day) =
    modify (λ m. record m { tasks = put t.slug (planned_task t day) m.tasks })

-- `fromisoformat` gives the canonical text of a date, if the text is one.
unfoldable pub add_quota_task : (String → Option String) → NewTask → Exec Memory (Unit {0})
add_quota_task fromisoformat t = elim (selected_day t.task_day t.day) [
  | none ↦ raise value_error
  | some text ↦ insert_task t (fromisoformat text)
]

abbrev pub or_raise : {V : Type 0} → Option V → gtasks.Prelude.Exec.Error → Exec Memory V
or_raise none e = raise e
or_raise (some v) e = pure v

unfoldable pub get_quota_task : String → Exec Memory QuotaTaskState
get_quota_task slug = do
  found ← gets (λ m. get slug m.tasks)
  or_raise found (handler_failure "quota_task_missing" true)

unfoldable pub upsert_application : ApplicationRecord → Exec Memory (Unit {0})
upsert_application r = modify (λ m.
    if holds same_application (get r.slug m.applications) r then m else record m {
      applications = put r.slug r m.applications;
      application_write_count = m.application_write_count + 1;
    })

unfoldable pub ensure_link : String → String → String → Exec Memory (Unit {0})
ensure_link from_slug to_slug link_type = modify (λ m.
    let link : Link = record { from_slug = from_slug; to_slug = to_slug; link_type = link_type } in
    if any_row (λ l. same_link l link) m.links then m else record m { links = link ∷ m.links })

abbrev pub progressed : QuotaTaskState → Progress → QuotaTaskState
progressed current p = record current {
  day = p.day;
  unit = p.unit;
  target = p.target;
  evidence = p.evidence;
  receipt_ids = p.receipt_ids;
  completed_count = current.baseline_count + length p.evidence;
}

unfoldable pub set_quota_progress : String → Progress → Exec Memory QuotaTaskState
set_quota_progress slug p = do
  found ← gets (λ m. get slug m.tasks)
  current ← or_raise found key_error
  modify (λ m. if same_task (progressed current p) current then m else record m {
    tasks = put slug (progressed current p) m.tasks;
    progress_write_count = m.progress_write_count + 1;
  })
  pure (progressed current p)

abbrev pub completed : QuotaTaskState → Datetime → QuotaTaskState
completed current completed_at = record current {
  active = false;
  status = "completed";
  completed_at = some completed_at;
}

abbrev pub complete_found : String → Datetime → QuotaTaskState → Exec Memory QuotaTaskState
complete_found slug completed_at current =
    if current.status == "completed" then pure current else do
      modify (λ m. record m {
        tasks = put slug (completed current completed_at) m.tasks;
        completion_write_count = m.completion_write_count + 1;
      })
      pure (completed current completed_at)

unfoldable pub complete_quota_task : String → Datetime → Exec Memory QuotaTaskState
complete_quota_task slug completed_at = do
  found ← gets (λ m. get slug m.tasks)
  current ← or_raise found key_error
  complete_found slug completed_at current

abbrev pub readback_failure : Exec Memory (Unit {0})
readback_failure m =
    if m.fail_readback_once
    then (
      err (handler_failure "gbrain_readback_failed" true),
      record m { fail_readback_once = false },
    )
    else (ok tt, m)

abbrev pub has_link : String → String → String → Memory → Bool
has_link from_slug to_slug link_type m =
    any_row
      (λ l.
        same_link l (record { from_slug = from_slug; to_slug = to_slug; link_type = link_type }))
      m.links

unfoldable pub verify : ApplicationRecord → QuotaTaskState → Exec Memory (Unit {0})
verify r task = do
  readback_failure
  raise_if (not (holds same_application (← gets (λ m. get r.slug m.applications)) r))
      (handler_failure "gbrain_application_readback_mismatch" true)
  raise_if (not (← gets (has_link r.slug task.slug "evidence_for")))
      (handler_failure "gbrain_forward_link_missing" true)
  raise_if (not (← gets (has_link task.slug r.slug "has_evidence")))
      (handler_failure "gbrain_reverse_link_missing" true)
  raise_if (not (holds same_task (← gets (λ m. get task.slug m.tasks)) task))
      (handler_failure "gbrain_progress_readback_mismatch" true)
  raise_if (nat_eq task.completed_count task.target && not (task.status == "completed"))
      (handler_failure "gbrain_completion_readback_mismatch" true)

abbrev pub memory_adapter : Adapter Memory
memory_adapter = record {
  get_quota_task = get_quota_task;
  upsert_application = upsert_application;
  ensure_link = ensure_link;
  set_quota_progress = set_quota_progress;
  complete_quota_task = complete_quota_task;
  verify = verify;
}
