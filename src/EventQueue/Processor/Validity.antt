-- ===== src/EventQueue/Processor/Validity.antt =====
-- `JobAppliedProcessor.process` (gtasks/event_queue/handler.py) keeps the event store's tables valid.
use gtasks.Prelude.{ℕ, String, arith, ◌+◌}
use gtasks.Prelude.Exec.{Result, ok, err, handler_failure, claim_conflict}
use gtasks.EventQueue.Time.{Datetime}
use gtasks.EventQueue.Store.{
  EventStore, Activity, Disposition, process, busy, claim, record_activity, release, accept,
}
use gtasks.EventQueue.Store.Invariant.{IsValid}
use gtasks.EventQueue.Store.Keeps.{
  claim-IsValid, release-IsValid, accept-IsValid, record_activity-IsValid,
}
use gtasks.EventQueue.Event.{JobAppliedV1, identity_of}
use gtasks.EventQueue.Slug.{TextLibrary}
use gtasks.EventQueue.Handler.{Adapter, JobAppliedEffect, handle}
use gtasks.EventQueue.World.{World}
use gtasks.EventQueue.Processor.{
  after_handle, run_handler, after_claim, process_event, handler_version, effect_activity,
  handler_failure_activity, failure_activity, activity,
}

module _ {State : Type 0} (adapter : Adapter State) (lib : TextLibrary) (clock : ℕ → Datetime)
    (task_slug : String) (claim_lease_seconds : ℕ) where
  -- the stores after a note, and after a note and a release
  noted : Activity → World State → EventStore
  noted a w = (record_activity a (clock w.reads) w.store).1

  noted-IsValid : (a : Activity) (w : World State) → IsValid w.store → IsValid (noted a w)
  unfolding noted
  noted-IsValid a w v = record_activity-IsValid a (clock w.reads) w.store v

  released-IsValid :
      (a : Activity) (e : String) (w : World State)
      → IsValid w.store
      → IsValid (release e (clock (w.reads + 1)) (noted a w)).1
  released-IsValid a e w v =
      release-IsValid e (clock (w.reads + 1)) (noted a w) (noted-IsValid a w v)

  accepted-IsValid :
      (a : Activity) (e : String) (w : World State)
      → IsValid w.store
      → IsValid (accept e handler_version (clock (w.reads + 1)) (noted a w)).1
  accepted-IsValid a e w v =
      accept-IsValid e handler_version (clock (w.reads + 1)) (noted a w) (noted-IsValid a w v)

  after_handle-IsValid :
      (event : JobAppliedV1) (r : Result JobAppliedEffect) (w : World State)
      → IsValid w.store
      → IsValid (after_handle adapter lib clock task_slug claim_lease_seconds event r w).1.store
  unfolding after_handle noted
  after_handle-IsValid event (ok effect) w v =
      let a : Activity = effect_activity event effect in
      ground (arith, noted-IsValid a w v, accepted-IsValid a event.event_id w v)
  after_handle-IsValid event (err (handler_failure code b)) w v =
      let a : Activity = handler_failure_activity event code task_slug in
      ground (arith, noted-IsValid a w v, released-IsValid a event.event_id w v)
  after_handle-IsValid event (err e) w v =
      let a : Activity = failure_activity event "retrying" "handler_dependency_failure" task_slug in
      ground (arith, noted-IsValid a w v, released-IsValid a event.event_id w v)

  run_handler-IsValid :
      (event : JobAppliedV1) (w : World State)
      → IsValid w.store
      → IsValid (run_handler adapter lib clock task_slug claim_lease_seconds event w).1.store
  unfolding run_handler
  run_handler-IsValid event w v =
      after_handle-IsValid event (handle adapter lib task_slug (clock w.reads) event w.backend).0 _
        v

  after_claim-IsValid :
      (event : JobAppliedV1) (r : Result Disposition) (w : World State)
      → IsValid w.store
      → IsValid (after_claim adapter lib clock task_slug claim_lease_seconds event r w).1.store
  unfolding after_claim noted
  after_claim-IsValid event (err claim_conflict) w v = ground (
    arith,
    noted-IsValid (failure_activity event "validation_failed" "idempotency_conflict" task_slug) w v,
  )
  after_claim-IsValid event (err e) w v = v
  after_claim-IsValid event (ok Disposition.duplicate) w v =
      ground (arith, noted-IsValid (activity event "duplicate_noop" task_slug) w v)
  after_claim-IsValid event (ok busy) w v = ground (
    arith,
    noted-IsValid (failure_activity event "retrying" "processing_lease_busy" task_slug) w v,
  )
  after_claim-IsValid event (ok process) w v = run_handler-IsValid event w v

  -- Processing an event keeps the store's tables valid, over any adapter, however it ends.
  pub process_event-IsValid :
      (event : JobAppliedV1) (w : World State)
      → IsValid w.store
      → IsValid (process_event adapter lib clock task_slug claim_lease_seconds event w).1.store
  unfolding process_event
  process_event-IsValid event w v =
      after_claim-IsValid event
        (claim (identity_of event) (clock w.reads) claim_lease_seconds w.store).0 _
        (claim-IsValid (identity_of event) (clock w.reads) claim_lease_seconds w.store v)
