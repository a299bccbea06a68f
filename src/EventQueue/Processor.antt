-- ===== src/EventQueue/Processor.antt =====
-- gtasks/event_queue/handler.py, `JobAppliedProcessor.process`: claim the event, run the handler, write
-- the activity receipt, and accept or release the claim.
pub mod Validity
pub mod Answers
use gtasks.Prelude.{ℕ, String, Bool, true, false, Option, none, some, if◌then◌else◌}
use gtasks.Prelude.Exec.{
  Exec, Error, Result, ok, err, handler_failure, claim_conflict, pure, raise, ◌>>=◌, ◌>>◌,
}
use gtasks.EventQueue.Time.{Datetime}
use gtasks.EventQueue.Store.{
  Version, Activity, Disposition, process, busy, claim, release, accept, record_activity,
}
use gtasks.EventQueue.Event.{JobAppliedV1, identity_of}
use gtasks.EventQueue.Slug.{TextLibrary}
use gtasks.EventQueue.Handler.{Adapter, JobAppliedEffect, policy_timezone, handle}
use gtasks.EventQueue.World.{World, on_store, on_backend, attempt, read_clock}

pub data ProcessingStatus : Type 0 where
  accepted duplicate failed rejected : ProcessingStatus

pub record ProcessingResult : Type 0 where
  pub status : ProcessingStatus
  pub event_id : String
  pub event_type : String
  pub schema_version : Version
  pub handler_version : String
  pub error_code : Option String
  pub retriable : Bool

abbrev pub handler_version : String
handler_version = "job_applied.v1"

-- `ProcessingResult(status=…, error_code=…, retriable=…, **common)`
abbrev pub result : JobAppliedV1 → ProcessingStatus → Option String → Bool → ProcessingResult
result event status error_code retriable = record {
  status = status;
  event_id = event.event_id;
  event_type = event.event_type;
  schema_version = event.schema_version;
  handler_version = handler_version;
  error_code = error_code;
  retriable = retriable;
}

-- the arguments of `record_activity` that every call gives, the others at their default
abbrev pub activity : JobAppliedV1 → String → String → Activity
activity event disposition task_slug = record {
  event_id = event.event_id;
  fingerprint = event.fingerprint;
  source_client_id = event.source.client_id;
  disposition = disposition;
  task_slug = task_slug;
  error_code = none;
  scope_day = none;
  timezone_name = none;
  prior_progress = none;
  resulting_progress = none;
  verified_count = none;
  baseline_count = none;
  target_value = none;
}

abbrev pub failure_activity : JobAppliedV1 → String → String → String → Activity
failure_activity event disposition code task_slug = record (activity event disposition task_slug) {
  error_code = some code;
}

abbrev pub handler_failure_activity : JobAppliedV1 → String → String → Activity
handler_failure_activity event code task_slug =
    record (failure_activity event code code task_slug) {
      scope_day = some event.payload.applied_local_date;
      timezone_name = some event.timezone;
    }

abbrev pub effect_activity : JobAppliedV1 → JobAppliedEffect → Activity
effect_activity event effect = record (activity event effect.disposition effect.task_slug) {
  scope_day = some effect.task_day;
  timezone_name = some policy_timezone;
  prior_progress = some effect.prior_progress;
  resulting_progress = some effect.resulting_progress;
  verified_count = some effect.verified_count;
  baseline_count = some effect.baseline_count;
  target_value = some effect.target;
}

module _ {State : Type 0} (adapter : Adapter State) (lib : TextLibrary) (clock : ℕ → Datetime)
    (task_slug : String) (claim_lease_seconds : ℕ) where
  -- `record_activity(…, recorded_at=self.clock())`
  unfoldable pub note : Activity → Exec (World State) (Unit {0})
  note entry = do now ← read_clock clock; on_store (record_activity entry now)

  unfoldable pub release_now : String → Exec (World State) (Unit {0})
  release_now event_id = do now ← read_clock clock; on_store (release event_id now)

  -- the two `except` branches round the handler, and what follows its success
  unfoldable pub after_handle :
      JobAppliedV1 → Result JobAppliedEffect → Exec (World State) ProcessingResult
  unfolding note release_now
  after_handle event (err (handler_failure code retriable)) = do
    note (handler_failure_activity event code task_slug)
    release_now event.event_id
    pure (
        result event (if retriable then ProcessingStatus.failed else ProcessingStatus.rejected)
          (some code) retriable)
  after_handle event (err e) = do
    note (failure_activity event "retrying" "handler_dependency_failure" task_slug)
    release_now event.event_id
    pure (result event ProcessingStatus.failed (some "handler_dependency_failure") true)
  after_handle event (ok effect) = do
    note (effect_activity event effect)
    now ← read_clock clock
    on_store (accept event.event_id handler_version now)
    pure (result event ProcessingStatus.accepted none false)

  unfoldable pub run_handler : JobAppliedV1 → Exec (World State) ProcessingResult
  unfolding after_handle handle
  run_handler event = do
    now ← read_clock clock
    outcome ← attempt (on_backend (handle adapter lib task_slug now event))
    after_handle event outcome

  -- the branches on the claim; only ClaimConflict is caught
  unfoldable pub after_claim :
      JobAppliedV1 → Result Disposition → Exec (World State) ProcessingResult
  unfolding note run_handler
  after_claim event (err claim_conflict) = do
    note (failure_activity event "validation_failed" "idempotency_conflict" task_slug)
    pure (result event ProcessingStatus.rejected (some "idempotency_conflict") false)
  after_claim event (err e) = raise e
  after_claim event (ok Disposition.duplicate) = do
    note (activity event "duplicate_noop" task_slug)
    pure (result event ProcessingStatus.duplicate none false)
  after_claim event (ok busy) = do
    note (failure_activity event "retrying" "processing_lease_busy" task_slug)
    pure (result event ProcessingStatus.failed (some "processing_lease_busy") true)
  after_claim event (ok process) = run_handler event

  unfoldable pub process_event : JobAppliedV1 → Exec (World State) ProcessingResult
  unfolding after_claim
  process_event event = do
    now ← read_clock clock
    outcome ← attempt (on_store (claim (identity_of event) now claim_lease_seconds))
    after_claim event outcome
