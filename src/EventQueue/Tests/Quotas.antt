-- ===== src/EventQueue/Tests/Quotas.antt =====
-- Runs of `JobAppliedHandler` and `JobAppliedProcessor` (gtasks/event_queue/handler.py) over the in-memory
-- adapter.
use gtasks.Prelude.{◌≡◌, refl, arith, true, false, none}
use gtasks.Prelude.Exec.{ok}
use gtasks.Prelude.Tables.{any_row}
use gtasks.Prelude.Dict.{get, put}
use gtasks.EventQueue.Time.{aware}
use gtasks.EventQueue.Store.{claim, claim_body, claim_row, con, record_activity, accept}
use gtasks.EventQueue.Slug.{application_slug}
use gtasks.EventQueue.Handler.{
  JobAppliedEffect, record_of, handle, handle_active, write_progress, complete_if_met,
}
use gtasks.EventQueue.Memory.{
  memory_adapter, get_quota_task, upsert_application, ensure_link, set_quota_progress,
  complete_quota_task, verify, same_application, same_task,
}
use gtasks.EventQueue.Memory.Counting.{HandledIn, TaskIsValid, handle-Counts}
use gtasks.EventQueue.Processor.{
  ProcessingStatus, result, note, after_handle, run_handler, after_claim, process_event,
}
use gtasks.EventQueue.Processor.Answers.{
  Answered, accepted_of, process_event-accepted, process_event-backend, process_event-Answered,
}
use gtasks.EventQueue.Worker.{explicit_task}
use gtasks.EventQueue.Tests.Samples.{plain, event, quota_task, memory, world, accepted_store}

quota_task-IsValid : TaskIsValid quota_task
quota_task-IsValid = record { counted = refl; bounded = omega arith }

handle-Counts_example :
    HandledIn
      (record_of plain event).slug
      quota_task
      (handle memory_adapter plain explicit_task (aware 9) event memory).0
      (handle memory_adapter plain explicit_task (aware 9) event memory).1
unfolding get
handle-Counts_example =
    handle-Counts plain (aware 9) event quota_task memory refl quota_task-IsValid

process_event-accepted_example :
    (e : JobAppliedEffect) × ((handle memory_adapter plain explicit_task (aware 1) event memory).0
      ≡ ok e)
    × ((process_event memory_adapter plain (λ k. aware k) explicit_task 120 event world).1.backend
        ≡ (handle memory_adapter plain explicit_task (aware 1) event memory).1)
    × (any_row
          (accepted_of "e1")
          (process_event memory_adapter plain
            (λ k. aware k)
            explicit_task
            120
            event
            world).1.store.receipts
        ≡ true)
unfolding get put claim claim_body claim_row con record_activity accept application_slug record_of
    handle handle_active write_progress complete_if_met get_quota_task upsert_application
    ensure_link set_quota_progress complete_quota_task verify same_application same_task note
    after_handle run_handler after_claim process_event
process_event-accepted_example =
    process_event-accepted memory_adapter plain (λ k. aware k) explicit_task 120 event world
      (result event ProcessingStatus.accepted none false) refl refl

process_event-backend_example :
    (process_event memory_adapter plain
      (λ k. aware k)
      explicit_task
      120
      event
      (record world { store = accepted_store })).1.backend
    ≡ memory
unfolding claim claim_body claim_row con
process_event-backend_example =
    process_event-backend memory_adapter plain (λ k. aware k) explicit_task 120 event
      (record world { store = accepted_store }) (λ e. cc)

process_event-Answered_example :
    Answered memory_adapter plain
      (λ k. aware k)
      explicit_task
      120
      (process_event memory_adapter plain (λ k. aware k) explicit_task 120 event world).0
process_event-Answered_example =
    process_event-Answered memory_adapter plain (λ k. aware k) explicit_task 120 event world
