-- ===== src/EventQueue/Processor/Answers.antt =====
-- What the answers of `JobAppliedProcessor.process` (gtasks/event_queue/handler.py) mean.
use gtasks.Prelude.{
  ℕ, ◌+◌, ◌≡◌, ◌≢◌, refl, inl, inr, String, Bool, true, false, not, ◌&&◌, List, [], ◌∷◌, arith,
  is_some, Bool-cases,
}
use gtasks.Prelude.Exec.{Result, ok, err, handler_failure, claim_conflict}
use gtasks.Prelude.Tables.{any_row, count_rows, update_rows}
use gtasks.EventQueue.Time.{Datetime, aware, naive}
use gtasks.EventQueue.Store.{
  EventStore, Receipt, Disposition, process, busy, claim, accept, record_activity, acceptable,
  mark_accepted, has_id, is_accepted, con,
}
use gtasks.EventQueue.Event.{JobAppliedV1, identity_of}
use gtasks.EventQueue.Slug.{TextLibrary}
use gtasks.EventQueue.Handler.{Adapter, JobAppliedEffect, handle}
use gtasks.EventQueue.World.{World}
use gtasks.EventQueue.Processor.{
  ProcessingStatus, ProcessingResult, after_handle, run_handler, after_claim, process_event,
  handler_version, effect_activity,
}

abbrev pub is_failed : ProcessingStatus → Bool
is_failed ProcessingStatus.failed = true
is_failed _ = false

abbrev pub is_done : ProcessingStatus → Bool
is_done ProcessingStatus.accepted = true
is_done ProcessingStatus.duplicate = true
is_done _ = false

-- an accepted receipt of an event
abbrev pub accepted_of : String → Receipt → Bool
accepted_of e r = has_id e r && is_accepted r.status

any_accepted :
    (e v : String) (t : ℕ) (rs : List Receipt)
    → count_rows (acceptable e) rs ≡ 1
    → any_row (accepted_of e) (update_rows (acceptable e) (mark_accepted v t) rs) ≡ true
any_accepted e v t [] h = absurd (omega (arith, h))
any_accepted e v t (r ∷ rs) h = elim (Bool-cases (acceptable e r)) [
  | inl hit ↦ rw hit (ground arith)
  | inr miss ↦
      let rest : count_rows (acceptable e) rs ≡ 1 = ground arith in
      let found : any_row (accepted_of e) (update_rows (acceptable e) (mark_accepted v t) rs)
          ≡ true =
        any_accepted e v t rs rest in
      rw miss (ground arith)
]

-- An `accept` that returns has left an accepted receipt of the event.
pub accept-accepted :
    (e v : String) (now : Datetime) (s : EventStore) {a : Unit {0}}
    → (accept e v now s).0 ≡ ok a
    → any_row (accepted_of e) (accept e v now s).1.receipts ≡ true
unfolding accept con
accept-accepted e v (naive w) s h = cc
accept-accepted e v (aware t) s h = ground (arith, any_accepted e v t s.receipts)

module _ {State : Type 0} (adapter : Adapter State) (lib : TextLibrary) (clock : ℕ → Datetime)
    (task_slug : String) (claim_lease_seconds : ℕ) where
  abbrev claimed : JobAppliedV1 → World State → Result Disposition
  claimed event w = (claim (identity_of event) (clock w.reads) claim_lease_seconds w.store).0

  after_claim-backend :
      (event : JobAppliedV1) (r : Result Disposition) (w : World State)
      → r ≢ ok process
      → (after_claim adapter lib clock task_slug claim_lease_seconds event r w).1.backend
        ≡ w.backend
  unfolding after_claim
  after_claim-backend event (err claim_conflict) w h = ground arith
  after_claim-backend event (err e) w h = refl
  after_claim-backend event (ok Disposition.duplicate) w h = ground arith
  after_claim-backend event (ok busy) w h = ground arith
  after_claim-backend event (ok process) w h = absurd (h refl)

  -- Unless the claim is answered PROCESS, the state behind the adapter stays as it was.
  pub process_event-backend :
      (event : JobAppliedV1) (w : World State)
      → claimed event w ≢ ok process
      → (process_event adapter lib clock task_slug claim_lease_seconds event w).1.backend
        ≡ w.backend
  unfolding process_event
  process_event-backend event w h = after_claim-backend event (claimed event w) _ h

  -- Where the processor answers a failure, and only there, it asks for a retry; it names an error in all
  -- answers but ACCEPTED and DUPLICATE.
  abbrev pub Answered : Result ProcessingResult → Type 0
  Answered (ok r) =
      (r.retriable ≡ is_failed r.status) × (is_some r.error_code ≡ not (is_done r.status))
  Answered (err e) = Unit

  after_handle-Answered :
      (event : JobAppliedV1) (r : Result JobAppliedEffect) (w : World State)
      → Answered (after_handle adapter lib clock task_slug claim_lease_seconds event r w).0
  unfolding after_handle
  after_handle-Answered event (ok effect) w = ground arith
  after_handle-Answered event (err (handler_failure code b)) w = ground arith
  after_handle-Answered event (err e) w = ground arith

  after_claim-Answered :
      (event : JobAppliedV1) (r : Result Disposition) (w : World State)
      → Answered (after_claim adapter lib clock task_slug claim_lease_seconds event r w).0
  unfolding after_claim run_handler
  after_claim-Answered event (err claim_conflict) w = ground arith
  after_claim-Answered event (err e) w = tt
  after_claim-Answered event (ok Disposition.duplicate) w = ground arith
  after_claim-Answered event (ok busy) w = ground arith
  after_claim-Answered event (ok process) w =
      after_handle-Answered event (handle adapter lib task_slug (clock w.reads) event w.backend).0 _

  -- Every answer of the processor is retriable exactly if its status is FAILED, and names an error exactly
  -- if its status is neither ACCEPTED nor DUPLICATE.
  pub process_event-Answered :
      (event : JobAppliedV1) (w : World State)
      → Answered (process_event adapter lib clock task_slug claim_lease_seconds event w).0
  unfolding process_event
  process_event-Answered event w = after_claim-Answered event (claimed event w) _

  -- what an answer ACCEPTED tells of the state behind the adapter and of the store
  abbrev AcceptedBy :
      JobAppliedV1
      → Result JobAppliedEffect
      → State
      → Result ProcessingResult
      → World State
      → Type 0
  AcceptedBy event outcome backend answer w =
      (r : ProcessingResult)
      → answer ≡ ok r
      → r.status ≡ ProcessingStatus.accepted
      → (e : JobAppliedEffect) × (outcome ≡ ok e)
        × (w.backend ≡ backend)
        × (any_row (accepted_of event.event_id) w.store.receipts ≡ true)

  after_handle-AcceptedBy :
      (event : JobAppliedV1) (r : Result JobAppliedEffect) (w : World State)
      → AcceptedBy event r w.backend
          (after_handle adapter lib clock task_slug claim_lease_seconds event r w).0
          (after_handle adapter lib clock task_slug claim_lease_seconds event r w).1
  unfolding after_handle
  after_handle-AcceptedBy event (ok effect) w = λ r e st. (
    effect,
    refl,
    ground arith,
    ground (
      arith,
      accept-accepted event.event_id handler_version (clock (w.reads + 1))
          (record_activity (effect_activity event effect) (clock w.reads) w.store).1,
    ),
  )
  after_handle-AcceptedBy event (err (handler_failure code b)) w = λ r e st. absurd (ground arith)
  after_handle-AcceptedBy event (err x) w = λ r e st. absurd (ground arith)

  after_claim-AcceptedBy :
      (event : JobAppliedV1) (c : Result Disposition) (w : World State)
      → AcceptedBy event
          (handle adapter lib task_slug (clock w.reads) event w.backend).0
          (handle adapter lib task_slug (clock w.reads) event w.backend).1
          (after_claim adapter lib clock task_slug claim_lease_seconds event c w).0
          (after_claim adapter lib clock task_slug claim_lease_seconds event c w).1
  unfolding after_claim run_handler
  after_claim-AcceptedBy event (err claim_conflict) w = λ r e st. absurd (ground arith)
  after_claim-AcceptedBy event (err x) w = λ r e st. cc
  after_claim-AcceptedBy event (ok Disposition.duplicate) w = λ r e st. absurd (ground arith)
  after_claim-AcceptedBy event (ok busy) w = λ r e st. absurd (ground arith)
  after_claim-AcceptedBy event (ok process) w =
      after_handle-AcceptedBy event (handle adapter lib task_slug (clock w.reads) event w.backend).0
        _

  -- The processor answers ACCEPTED only if the handler returned, at the clock's second reading and on the
  -- state before the call; that state then is as the handler left it, and the store has an accepted receipt
  -- of the event.
  pub process_event-accepted :
      (event : JobAppliedV1) (w : World State) (r : ProcessingResult)
      → (process_event adapter lib clock task_slug claim_lease_seconds event w).0 ≡ ok r
      → r.status ≡ ProcessingStatus.accepted
      → (e : JobAppliedEffect) × ((handle adapter lib task_slug
            (clock (w.reads + 1))
            event
            w.backend).0
          ≡ ok e)
        × ((process_event adapter lib clock task_slug claim_lease_seconds event w).1.backend
            ≡ (handle adapter lib task_slug (clock (w.reads + 1)) event w.backend).1)
        × (any_row
              (accepted_of event.event_id)
              (process_event adapter lib clock task_slug claim_lease_seconds event
                w).1.store.receipts
            ≡ true)
  unfolding process_event
  process_event-accepted event w r answered st =
      after_claim-AcceptedBy event (claimed event w) _ r answered st
