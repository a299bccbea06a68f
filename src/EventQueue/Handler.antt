-- ===== src/EventQueue/Handler.antt =====
-- gtasks/event_queue/handler.py, `JobAppliedHandler`: the effect of one event on the quota task, over
-- the interface `JobAppliedAdapter`. `_handle` runs under the handler's lock, so it is one step.
use gtasks.Prelude.{
  ℕ, String, Bool, true, false, not, ◌&&◌, ◌||◌, Option, List, ◌==◌, ltb, leb, nat_eq,
  if◌then◌else◌,
}
use gtasks.Prelude.Exec.{Exec, handler_failure, pure, raise, raise_if, ◌>>=◌, ◌>>◌}
use gtasks.Prelude.Tables.{length}
use gtasks.Prelude.Sets.{member, add}
use gtasks.EventQueue.Time.{Datetime, aware, naive}
use gtasks.EventQueue.Event.{JobAppliedV1}
use gtasks.EventQueue.Slug.{TextLibrary, application_slug}

abbrev pub policy_timezone : String
policy_timezone = "America/Los_Angeles"

abbrev pub policy_unit : String
policy_unit = "job_application"

-- `target`, `baseline_count` and `completed_count` are counts; the source refuses a target that is not
-- positive.
pub record QuotaTaskState : Type 0 where
  pub slug : String
  pub active : Bool
  pub status : String
  pub day : String
  pub unit : String
  pub target : ℕ
  pub baseline_count : ℕ
  pub evidence : List String
  pub receipt_ids : List String
  pub completed_count : ℕ
  pub completed_at : Option Datetime

pub record ApplicationRecord : Type 0 where
  pub slug : String
  pub event_id : String
  pub source_client_id : String
  pub job_source : String
  pub job_id : String
  pub title : String
  pub company : String
  pub location : String
  pub url : String
  pub status : String
  pub applied_local_date : String
  pub committed_at : Datetime
  pub evidence_source : String

pub record JobAppliedEffect : Type 0 where
  pub application_slug : String
  pub task_slug : String
  pub task_day : String
  pub prior_progress : ℕ
  pub resulting_progress : ℕ
  pub verified_count : ℕ
  pub baseline_count : ℕ
  pub target : ℕ
  pub disposition : String

-- the keyword arguments of `set_quota_progress`
pub record Progress : Type 0 where
  pub day : String
  pub unit : String
  pub target : ℕ
  pub evidence : List String
  pub receipt_ids : List String
  pub occurred_at : Datetime

-- The protocol `JobAppliedAdapter`: any class with these methods, over its own state.
pub record Adapter (State : Type 0) : Type 0 where
  pub get_quota_task : String → Exec State QuotaTaskState
  pub upsert_application : ApplicationRecord → Exec State (Unit {0})
  pub ensure_link : String → String → String → Exec State (Unit {0})
  pub set_quota_progress : String → Progress → Exec State QuotaTaskState
  pub complete_quota_task : String → Datetime → Exec State QuotaTaskState
  pub verify : ApplicationRecord → QuotaTaskState → Exec State (Unit {0})

module _ (lib : TextLibrary) where
  -- the `ApplicationRecord` of an event
  unfoldable pub record_of : JobAppliedV1 → ApplicationRecord
  unfolding application_slug
  record_of event =
      let identity = event.payload.application_identity in
      let snapshot = event.payload.job_snapshot in
      let evidence = event.payload.status_evidence in
      record {
        slug = application_slug lib identity.job_source identity.job_id;
        event_id = event.event_id;
        source_client_id = event.source.client_id;
        job_source = identity.job_source;
        job_id = identity.job_id;
        title = snapshot.title;
        company = snapshot.company;
        location = snapshot.location;
        url = snapshot.url;
        status = evidence.status;
        applied_local_date = event.payload.applied_local_date;
        committed_at = evidence.committed_at;
        evidence_source = evidence.source;
      }

abbrev pub is_naive : Datetime → Bool
is_naive (aware t) = false
is_naive (naive w) = true

abbrev pub duplicate_effect : ApplicationRecord → QuotaTaskState → JobAppliedEffect
duplicate_effect r task = record {
  application_slug = r.slug;
  task_slug = task.slug;
  task_day = task.day;
  prior_progress = task.completed_count;
  resulting_progress = task.completed_count;
  verified_count = length task.receipt_ids;
  baseline_count = task.baseline_count;
  target = task.target;
  disposition = "duplicate_noop";
}

abbrev pub effect_of : ApplicationRecord → QuotaTaskState → QuotaTaskState → JobAppliedEffect
effect_of r task intended = record {
  application_slug = r.slug;
  task_slug = intended.slug;
  task_day = intended.day;
  prior_progress = task.completed_count;
  resulting_progress = intended.completed_count;
  verified_count = length intended.receipt_ids;
  baseline_count = intended.baseline_count;
  target = intended.target;
  disposition =
      if ltb task.completed_count intended.completed_count then "incremented" else "duplicate_noop";
}

abbrev pub intended_progress : ApplicationRecord → QuotaTaskState → Datetime → Progress
intended_progress r task now = record {
  day = task.day;
  unit = policy_unit;
  target = task.target;
  evidence = add r.slug task.evidence;
  receipt_ids =
      if member r.slug task.evidence then task.receipt_ids else add r.event_id task.receipt_ids;
  occurred_at = now;
}

abbrev pub exact_completed_replay : ApplicationRecord → QuotaTaskState → Bool
exact_completed_replay r task =
    (task.status == "completed")
    && member r.slug task.evidence
    && member r.event_id task.receipt_ids

module _ {State : Type 0} (adapter : Adapter State) where
  open adapter use {
    get_quota_task, upsert_application, ensure_link, set_quota_progress, complete_quota_task,
    verify,
  }

  -- the branch `not task.active`
  unfoldable pub handle_inactive : ApplicationRecord → QuotaTaskState → Exec State JobAppliedEffect
  handle_inactive r task = do
    raise_if (not (exact_completed_replay r task)) (handler_failure "quota_task_not_active" true)
    verify r task
    pure (duplicate_effect r task)

  -- a full task is completed, and the event refused
  unfoldable pub refuse_full : QuotaTaskState → Datetime → Exec State (Unit {0})
  refuse_full task now = do
    complete_quota_task task.slug now
    raise (handler_failure "quota_task_full" true)

  unfoldable pub complete_if_met : QuotaTaskState → Datetime → Exec State QuotaTaskState
  complete_if_met task now =
      if nat_eq task.completed_count task.target
      then complete_quota_task task.slug now
      else pure task

  -- the writes of an active task, and their verification
  unfoldable pub write_progress :
      ApplicationRecord → QuotaTaskState → Datetime → Exec State JobAppliedEffect
  write_progress r task now = do
    upsert_application r
    ensure_link r.slug task.slug "evidence_for"
    ensure_link task.slug r.slug "has_evidence"
    progressed ← set_quota_progress task.slug (intended_progress r task now)
    intended ← complete_if_met progressed now
    verify r intended
    pure (effect_of r task intended)

  unfoldable pub handle_active :
      ApplicationRecord → QuotaTaskState → Datetime → Exec State JobAppliedEffect
  handle_active r task now = do
    raise_if (ltb task.target task.completed_count) (handler_failure "quota_progress_invalid" true)
    (if leb task.target task.completed_count && not (member r.slug task.evidence)
        then refuse_full task now
        else pure tt)
    write_progress r task now

  -- `_handle`, with the reading of the clock
  unfoldable pub handle :
      TextLibrary → String → Datetime → JobAppliedV1 → Exec State JobAppliedEffect
  handle lib task_slug now event = do
    raise_if (is_naive now) (handler_failure "quota_clock_invalid" true)
    task ← get_quota_task task_slug
    raise_if (not (task.unit == policy_unit) || leb task.target 0)
        (handler_failure "quota_task_contract_invalid" true)
    if task.active
        then handle_active (record_of lib event) task now
        else handle_inactive (record_of lib event) task
