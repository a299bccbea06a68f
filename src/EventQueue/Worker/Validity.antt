-- ===== src/EventQueue/Worker/Validity.antt =====
-- `EventWorker.handle_message` (gtasks/event_queue/worker.py) keeps the event store's tables valid.
use gtasks.Prelude.{
  ℕ, zero, suc, ◌+◌, ◌≡◌, refl, inl, inr, String, Option, none, some, ◌++◌, ◌∷◌, [], arith,
  Bool-cases, subst, sym,
}
use gtasks.Prelude.Exec.{Result, ok, err, contract_error, handled}
use gtasks.EventQueue.Time.{Datetime, aware}
use gtasks.EventQueue.Store.{EventStore, TerminalRecord, Activity, record_terminal}
use gtasks.EventQueue.Store.Invariant.{IsValid}
use gtasks.EventQueue.Store.Keeps.{record_terminal-IsValid, record_activity-IsValid}
use gtasks.EventQueue.Event.{JobAppliedV1}
use gtasks.EventQueue.Slug.{TextLibrary}
use gtasks.EventQueue.Handler.{Adapter}
use gtasks.EventQueue.Contract.{Library, parse_event}
use gtasks.EventQueue.Processor.{ProcessingResult, process_event}
use gtasks.EventQueue.Processor.Validity.{process_event-IsValid}
use gtasks.EventQueue.Registry.{resolve}
use gtasks.EventQueue.Worker.{
  Message, in_progress, nak, Site, heartbeats, terminalize_steps, terminalize, worker_activity,
  settle_failure, settle, after_process, process_message, after_parse, after_resolve,
  handle_message, safe_identity, registry, send, last_backoff, or_text, terminal_of, is_done,
  explicit_task, clock,
}

module _ {State : Type 0} (adapter : Adapter State) (texts : TextLibrary) (lib : Library)
    (now : ℕ → ℕ) (claim_lease_seconds : ℕ) where
  abbrev SiteIsValid : Site State → Type 0
  SiteIsValid x = IsValid x.world.store

  steps-IsValid :
      (message : Message) (t : TerminalRecord) (fingerprint : String) (x : Site State)
      → SiteIsValid x
      → SiteIsValid
          (terminalize_steps adapter texts lib now claim_lease_seconds message t fingerprint x).1
  unfolding terminalize_steps
  steps-IsValid message t fingerprint x v =
      let s1 : EventStore = (record_terminal t x.world.store).1 in
      let v1 : IsValid s1 = record_terminal-IsValid t x.world.store v in
      let a : Activity =
        worker_activity t.event_id fingerprint t.source_client_id "terminal_failure"
          (some t.error_code) in
      ground (arith, v1, record_activity-IsValid a (aware t.failed_at) s1 v1)

  handled-IsValid :
      (r : Result (Unit {0})) (x : Site State)
      → SiteIsValid x
      → SiteIsValid (handled (λ e. send (nak last_backoff)) r x).1
  handled-IsValid (ok a) x v = v
  handled-IsValid (err e) x v = v

  terminalize-IsValid :
      (message : Message) (code : String) (attempts : ℕ) (fingerprint : Option String)
      (x : Site State)
      → SiteIsValid x
      → SiteIsValid
          (terminalize adapter texts lib now claim_lease_seconds message code attempts fingerprint
            x).1
  unfolding terminalize
  terminalize-IsValid message code attempts fingerprint x v = handled-IsValid _ _ (
      steps-IsValid message (terminal_of message code attempts (now x.world.reads))
        (or_text fingerprint message.digest)
        (record x { world = record x.world { reads = x.world.reads + 1 } }) v)

  heartbeats-world : (n : ℕ) (x : Site State) → (heartbeats n x).1.world ≡ x.world
  unfolding heartbeats
  heartbeats-world zero x = refl
  heartbeats-world (suc n) x =
      heartbeats-world n (record x { signals = x.signals ++ in_progress ∷ [] })

  settle_failure-IsValid :
      (message : Message) (event : JobAppliedV1) (result : ProcessingResult) (x : Site State)
      → SiteIsValid x
      → SiteIsValid
          (settle_failure adapter texts lib now claim_lease_seconds message event result x).1
  unfolding settle_failure
  settle_failure-IsValid message event result x v = ground (
    arith,
    record_activity-IsValid
        (worker_activity event.event_id event.fingerprint event.source.client_id "retrying"
          result.error_code)
        (aware (now x.world.reads)) x.world.store v,
    terminalize-IsValid message (or_text result.error_code "handler_failed") message.num_delivered
        (some event.fingerprint) x v,
  )

  settle-IsValid :
      (message : Message) (event : JobAppliedV1) (result : ProcessingResult) (x : Site State)
      → SiteIsValid x
      → SiteIsValid (settle adapter texts lib now claim_lease_seconds message event result x).1
  unfolding settle
  settle-IsValid message event result x v = elim (Bool-cases (is_done result.status)) [
    | inl done ↦ rw done (ground (arith, v))
    | inr open_ ↦ rw open_ (settle_failure-IsValid message event result x v)
  ]

  after_process-IsValid :
      (message : Message) (event : JobAppliedV1) (r : Result ProcessingResult) (x : Site State)
      → SiteIsValid x
      → SiteIsValid (after_process adapter texts lib now claim_lease_seconds message event r x).1
  unfolding after_process
  after_process-IsValid message event (ok result) x v = settle-IsValid message event result x v
  after_process-IsValid message event (err e) x v = v

  process_message-IsValid :
      (message : Message) (event : JobAppliedV1) (x : Site State)
      → SiteIsValid x
      → SiteIsValid (process_message adapter texts lib now claim_lease_seconds message event x).1
  unfolding process_message
  process_message-IsValid message event x v =
      let c : ℕ → Datetime = clock adapter texts lib now claim_lease_seconds in
      let (r, w) = process_event adapter texts c explicit_task claim_lease_seconds event x.world in
      let y : Site State = record { world = w; signals = x.signals ++ in_progress ∷ [] } in
      let after : SiteIsValid (heartbeats message.beats y).1 =
        subst (λ z. IsValid z.store) (sym (heartbeats-world message.beats y))
          (process_event-IsValid adapter texts c explicit_task claim_lease_seconds event x.world
            v) in
      ground
        (arith, after, after_process-IsValid message event r (heartbeats message.beats y).1 after)

  after_parse-IsValid :
      (message : Message) (r : Result JobAppliedV1) (x : Site State)
      → SiteIsValid x
      → SiteIsValid (after_parse adapter texts lib now claim_lease_seconds message r x).1
  unfolding after_parse
  after_parse-IsValid message (ok event) x v = process_message-IsValid message event x v
  after_parse-IsValid message (err contract_error) x v =
      ground (arith, terminalize-IsValid message "invalid_event" message.num_delivered none x v)
  after_parse-IsValid message (err e) x v = v

  after_resolve-IsValid :
      (message : Message) (r : Result (Unit {0})) (x : Site State)
      → SiteIsValid x
      → SiteIsValid (after_resolve adapter texts lib now claim_lease_seconds message r x).1
  unfolding after_resolve
  after_resolve-IsValid message (ok h) x v =
      after_parse-IsValid message (parse_event lib message.size message.decoded message.subject) x v
  after_resolve-IsValid message (err contract_error) x v =
      ground
        (arith, terminalize-IsValid message "rejected_unknown_type" message.num_delivered none x v)
  after_resolve-IsValid message (err e) x v = v

  -- Whatever a delivery holds and however it ends, the store's tables stay valid: of any adapter, clock
  -- and outcomes of the broker's calls.
  pub handle_message-IsValid :
      (message : Message) (x : Site State)
      → IsValid x.world.store
      → IsValid (handle_message adapter texts lib now claim_lease_seconds message x).1.world.store
  unfolding handle_message
  handle_message-IsValid message x v =
      after_resolve-IsValid message
        (resolve (safe_identity message.decoded).event_type
          (safe_identity message.decoded).schema_version
          (registry adapter texts lib now claim_lease_seconds))
        x v
