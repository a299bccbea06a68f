-- ===== src/EventQueue/Worker/Outcome.antt =====
-- How `EventWorker` (gtasks/event_queue/worker.py) ends a delivery: the delay of a retry, and the dead letter
-- before the ack.
use gtasks.Prelude.{
  ℕ, zero, suc, ◌+◌, ◌-◌, ◌≡◌, ◌<◌, ◌≤◌, ◌⊎◌, refl, inl, inr, String, true, false, Option, some,
  List, [], ◌∷◌, ◌++◌, arith,
}
use gtasks.Prelude.Exec.{Result, ok, err, handled}
use gtasks.Prelude.Tables.{any_row}
use gtasks.EventQueue.Time.{aware}
use gtasks.EventQueue.Store.{
  EventStore, TerminalRecord, pos, terminal_has_id, record_terminal, record_activity, con,
  record_body, upsert_terminal,
}
use gtasks.EventQueue.Store.DeadLetter.{record_terminal-has, terminals-record_activity}
use gtasks.EventQueue.Event.{JobAppliedV1}
use gtasks.EventQueue.Slug.{TextLibrary}
use gtasks.EventQueue.Handler.{Adapter}
use gtasks.EventQueue.Contract.{Library}
use gtasks.EventQueue.Processor.{ProcessingResult}
use gtasks.EventQueue.Worker.{
  Message, Signal, ack, nak, publish_terminal, Site, terminalize_steps, terminalize,
  worker_activity, settle_failure, settle, get_elem?, backoff_seconds, max_deliver, or_text,
  terminal_of, is_done, send, last_backoff,
}

-- the delay for the n-th delivery
backoff_total :
    (n : ℕ) → 1 ≤ n → n < max_deliver → (d : ℕ) × (get_elem? backoff_seconds (n - 1) ≡ some d)
backoff_total zero low high = absurd (omega arith)
backoff_total (suc zero) low high = (30, refl)
backoff_total (suc (suc zero)) low high = (60, refl)
backoff_total (suc (suc (suc zero))) low high = (300, refl)
backoff_total (suc (suc (suc (suc zero)))) low high = (900, refl)
backoff_total (suc (suc (suc (suc (suc n))))) low high = absurd (omega arith)

activity-open :
    (a : gtasks.EventQueue.Store.Activity) (t : ℕ) (s : EventStore)
    → s.connected ≡ true
    → (record_activity a (aware t) s).0 ≡ ok tt
unfolding record_activity
activity-open a t s up = ground arith

module _ {State : Type 0} (adapter : Adapter State) (texts : TextLibrary) (lib : Library)
    (now : ℕ → ℕ) (claim_lease_seconds : ℕ) where
  -- A result that is neither accepted nor a duplicate and is retriable, on one of the first four
  -- deliveries and with the store open, is returned, and the broker is told to redeliver after the
  -- back-off of that delivery.
  pub settle-retry :
      (message : Message) (event : JobAppliedV1) (result : ProcessingResult) (x : Site State)
      → is_done result.status ≡ false
      → result.retriable ≡ true
      → 1 ≤ message.num_delivered
      → message.num_delivered < max_deliver
      → x.world.store.connected ≡ true
      → (delay : ℕ) × (get_elem? backoff_seconds (message.num_delivered - 1) ≡ some delay)
        × ((settle adapter texts lib now claim_lease_seconds message event result x).0
            ≡ ok (some result))
        × ((settle adapter texts lib now claim_lease_seconds message event result x).1.signals
            ≡ x.signals ++ nak delay ∷ [])
  unfolding settle settle_failure
  settle-retry message event result x fails again low high up =
      let (delay, e) = backoff_total message.num_delivered low high in
      let noted =
        activity-open
          (worker_activity event.event_id event.fingerprint event.source.client_id "retrying"
            result.error_code)
          (now x.world.reads) x.world.store up in
      (delay, e, ground arith, ground arith)

  -- the two ways in which `_terminalize` ends
  abbrev pub DeadLetter : TerminalRecord → Site State → Site State → Type 0
  DeadLetter t x y =
      ((y.signals ≡ (x.signals ++ publish_terminal t ∷ []) ++ ack ∷ [])
        × (any_row (terminal_has_id t.event_id) y.world.store.terminals ≡ true))
      ⊎ ((before : List Signal) × (y.signals ≡ before ++ nak last_backoff ∷ []))

  steps_cases :
      (message : Message) (t : TerminalRecord) (fingerprint : String) (x : Site State)
      (r : Result (Unit {0})) (y : Site State)
      → terminalize_steps adapter texts lib now claim_lease_seconds message t fingerprint x ≡ (r, y)
      → DeadLetter t x (handled (λ e. send (nak last_backoff)) r y).1
  unfolding terminalize_steps
  steps_cases message t fingerprint x (ok a) y h = inl (
    ground arith,
    ground (
      arith,
      record_terminal-has t x.world.store,
      terminals-record_activity
          (worker_activity t.event_id fingerprint t.source_client_id "terminal_failure"
            (some t.error_code))
          (aware t.failed_at) (record_terminal t x.world.store).1,
    ),
  )
  steps_cases message t fingerprint x (err e) y h = inr (y.signals, refl)

  -- `_terminalize` ends in one of two ways: the dead letter was published before the ack and has its row
  -- in the terminals, or the last signal asks for a redelivery after the longest back-off.
  pub terminalize-DeadLetter :
      (message : Message) (code : String) (attempts : ℕ) (fingerprint : Option String)
      (x : Site State)
      → DeadLetter
          (terminal_of message code attempts (now x.world.reads))
          x
          (terminalize adapter texts lib now claim_lease_seconds message code attempts fingerprint
            x).1
  unfolding terminalize
  terminalize-DeadLetter message code attempts fingerprint x =
      let t : TerminalRecord = terminal_of message code attempts (now x.world.reads) in
      let y : Site State = record x { world = record x.world { reads = x.world.reads + 1 } } in
      let (r, z) =
        terminalize_steps adapter texts lib now claim_lease_seconds message t
          (or_text fingerprint message.digest) y in
      steps_cases message t (or_text fingerprint message.digest) y r z refl
