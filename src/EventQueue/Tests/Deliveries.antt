-- ===== src/EventQueue/Tests/Deliveries.antt =====
-- Runs of `EventWorker` (gtasks/event_queue/worker.py).
use gtasks.Prelude.{◌≡◌, ℕ, refl, arith, true, none, some, [], ◌∷◌}
use gtasks.Prelude.Exec.{ok, err, value_error}
use gtasks.EventQueue.Store.Invariant.{IsValid, empty_store-IsValid}
use gtasks.EventQueue.Json.{keys, get_field}
use gtasks.EventQueue.Memory.{memory_adapter}
use gtasks.EventQueue.Contract.{exact_fields, has_control, index, text, text_at}
use gtasks.EventQueue.Processor.{ProcessingStatus, ProcessingResult, result}
use gtasks.EventQueue.Worker.{
  nak, settle, terminalize, terminal_of, handle_message, get_elem?, backoff_seconds,
}
use gtasks.EventQueue.Worker.Settled.{SettledBy, handle_message-SettledBy}
use gtasks.EventQueue.Worker.Outcome.{DeadLetter, settle-retry, terminalize-DeadLetter}
use gtasks.EventQueue.Worker.Escape.{handle_message-bad_zone}
use gtasks.EventQueue.Worker.Validity.{handle_message-IsValid}
use gtasks.EventQueue.Tests.Samples.{plain, library, envelope, event, site, delivery}

handle_message-SettledBy_example :
    SettledBy 0 (handle_message memory_adapter plain library (λ k. k) 120 (delivery "UTC") site)
handle_message-SettledBy_example =
    handle_message-SettledBy memory_adapter plain library (λ k. k) 120 (delivery "UTC") site

handle_message-IsValid_example :
    IsValid
      (handle_message memory_adapter plain library (λ k. k) 120 (delivery "UTC") site).1.world.store
handle_message-IsValid_example =
    handle_message-IsValid memory_adapter plain library (λ k. k) 120 (delivery "UTC") site
      empty_store-IsValid

handle_message-bad_zone_example :
    handle_message memory_adapter plain library (λ k. k) 120 (delivery "/etc") site
    ≡ (err value_error, site)
unfolding exact_fields keys get_field has_control index text text_at
handle_message-bad_zone_example =
    handle_message-bad_zone memory_adapter plain library (λ k. k) 120 (delivery "/etc")
      (envelope "/etc") "/etc" site refl (omega arith) refl
      (refl, refl, refl, refl, refl, refl, refl)

abbrev busy_result : ProcessingResult
busy_result = result event ProcessingStatus.failed (some "processing_lease_busy") true

settle-retry_example :
    (delay : ℕ) × (get_elem? backoff_seconds 1 ≡ some delay)
    × ((settle memory_adapter plain library (λ k. k) 120 (delivery "UTC") event busy_result site).0
        ≡ ok (some busy_result))
    × ((settle memory_adapter plain library
          (λ k. k)
          120
          (delivery "UTC")
          event
          busy_result
          site).1.signals
        ≡ nak delay ∷ [])
settle-retry_example =
    settle-retry memory_adapter plain library (λ k. k) 120 (delivery "UTC") event busy_result site
      refl refl (omega arith) (omega arith) refl

terminalize-DeadLetter_example :
    DeadLetter memory_adapter plain library
      (λ k. k)
      120
      (terminal_of (delivery "UTC") "invalid_event" 2 0)
      site
      (terminalize memory_adapter plain library
        (λ k. k)
        120
        (delivery "UTC")
        "invalid_event"
        2
        none
        site).1
terminalize-DeadLetter_example =
    terminalize-DeadLetter memory_adapter plain library (λ k. k) 120 (delivery "UTC")
      "invalid_event" 2 none site
