-- ===== src/EventQueue/Worker/Settled.antt =====
-- `EventWorker.handle_message` (gtasks/event_queue/worker.py) tells the broker once what becomes of a
-- delivery.
use gtasks.Prelude.{
  ℕ, zero, suc, ◌+◌, ◌-◌, ◌≡◌, refl, inl, inr, String, Bool, true, false, ◌&&◌, Option, none, some,
  [], ◌∷◌, ◌++◌, arith, ltb, Bool-cases, Option-cases, subst,
}
use gtasks.Prelude.Exec.{Result, ok, err, contract_error, handled}
use gtasks.Prelude.Tables.{count_rows, count-snoc}
use gtasks.EventQueue.Store.{TerminalRecord}
use gtasks.EventQueue.Event.{JobAppliedV1}
use gtasks.EventQueue.Slug.{TextLibrary}
use gtasks.EventQueue.Handler.{Adapter}
use gtasks.EventQueue.Contract.{Library, parse_event}
use gtasks.EventQueue.Processor.{ProcessingResult, process_event}
use gtasks.EventQueue.Registry.{resolve}
use gtasks.EventQueue.Worker.{
  Message, Signal, in_progress, ack, nak, publish_terminal, Site, heartbeats, terminalize_steps,
  terminalize, settle_failure, settle, process_message, after_process, after_parse, after_resolve,
  handle_message, get_elem?, backoff_seconds, max_deliver, safe_identity, registry, send,
  last_backoff, or_text, terminal_of, is_done, explicit_task, clock,
}

-- the signals that end a delivery
abbrev pub settles : Signal → Bool
settles ack = true
settles (nak delay) = true
settles _ = false

abbrev pub settled : {State : Type 0} → Site State → ℕ
settled x = count_rows settles x.signals

-- A delivery that returns has been settled once more, one that raises has not.
abbrev pub SettledBy : {State A : Type 0} → ℕ → Result A × Site State → Type 0
SettledBy before (ok a, x) = settled x ≡ before + 1
SettledBy before (err e, x) = settled x ≡ before

module _ {State : Type 0} (adapter : Adapter State) (texts : TextLibrary) (lib : Library)
    (now : ℕ → ℕ) (claim_lease_seconds : ℕ) where
  terminalize_steps-settled :
      (message : Message) (t : TerminalRecord) (fingerprint : String) (x : Site State)
      → SettledBy
          (settled x)
          (terminalize_steps adapter texts lib now claim_lease_seconds message t fingerprint x)
  unfolding terminalize_steps
  terminalize_steps-settled message t fingerprint x = ground (
    arith,
    count-snoc settles x.signals (publish_terminal t),
    count-snoc settles (x.signals ++ publish_terminal t ∷ []) ack,
  )

  caught :
      (before : ℕ) (r : Result (Unit {0})) (x : Site State)
      → SettledBy before (r, x)
      → ((handled (λ e. send (nak last_backoff)) r x).0 ≡ ok tt)
        × (settled (handled (λ e. send (nak last_backoff)) r x).1 ≡ before + 1)
  caught before (ok a) x h = (refl, h)
  caught before (err e) x h = (refl, omega (arith, count-snoc settles x.signals (nak last_backoff)))

  -- `_terminalize` returns, and has told the broker once what becomes of the delivery.
  terminalize-settled :
      (message : Message) (code : String) (attempts : ℕ) (fingerprint : Option String)
      (x : Site State)
      → ((terminalize adapter texts lib now claim_lease_seconds message code attempts fingerprint
            x).0
          ≡ ok tt)
        × (settled
              (terminalize adapter texts lib now claim_lease_seconds message code attempts
                fingerprint x).1
            ≡ settled x + 1)
  unfolding terminalize
  terminalize-settled message code attempts fingerprint x =
      let t : TerminalRecord = terminal_of message code attempts (now x.world.reads) in
      let y : Site State = record x { world = record x.world { reads = x.world.reads + 1 } } in
      let steps =
        terminalize_steps adapter texts lib now claim_lease_seconds message t
          (or_text fingerprint message.digest) y in
      caught (settled x) steps.0 steps.1
        (terminalize_steps-settled message t (or_text fingerprint message.digest) y)

  heartbeats-settled :
      (n : ℕ) (x : Site State)
      → ((heartbeats n x).0 ≡ ok tt) × (settled (heartbeats n x).1 ≡ settled x)
  unfolding heartbeats
  heartbeats-settled zero x = (refl, refl)
  heartbeats-settled (suc n) x = ground (
    arith,
    heartbeats-settled n (record x { signals = x.signals ++ in_progress ∷ [] }),
    count-snoc settles x.signals in_progress,
  )

  settle_failure-settled :
      (message : Message) (event : JobAppliedV1) (result : ProcessingResult) (x : Site State)
      → SettledBy
          (settled x)
          (settle_failure adapter texts lib now claim_lease_seconds message event result x)
  unfolding settle_failure
  settle_failure-settled message event result x =
      elim (Bool-cases (result.retriable && ltb message.num_delivered max_deliver)) [
        | inl retry ↦
            rw retry (elim (Option-cases (get_elem? backoff_seconds (message.num_delivered - 1))) [
              | inl past ↦ ground arith
              | inr (delay, e) ↦ ground (arith, count-snoc settles x.signals (nak delay))
            ])
        | inr dead ↦ rw dead (
            ground (
              arith,
              terminalize-settled message (or_text result.error_code "handler_failed")
                  message.num_delivered (some event.fingerprint) x,
            ))
      ]

  settle-settled :
      (message : Message) (event : JobAppliedV1) (result : ProcessingResult) (x : Site State)
      → SettledBy
          (settled x)
          (settle adapter texts lib now claim_lease_seconds message event result x)
  unfolding settle
  settle-settled message event result x = elim (Bool-cases (is_done result.status)) [
    | inl done ↦ rw done (ground (arith, count-snoc settles x.signals ack))
    | inr open_ ↦ rw open_ (settle_failure-settled message event result x)
  ]

  after_process-settled :
      (message : Message) (event : JobAppliedV1) (r : Result ProcessingResult) (x : Site State)
      → SettledBy
          (settled x)
          (after_process adapter texts lib now claim_lease_seconds message event r x)
  unfolding after_process
  after_process-settled message event (ok result) x = settle-settled message event result x
  after_process-settled message event (err e) x = refl

  process_message-settled :
      (message : Message) (event : JobAppliedV1) (x : Site State)
      → SettledBy
          (settled x)
          (process_message adapter texts lib now claim_lease_seconds message event x)
  unfolding process_message
  process_message-settled message event x =
      let (r, w) =
        process_event adapter texts (clock adapter texts lib now claim_lease_seconds) explicit_task
          claim_lease_seconds event x.world in
      let y : Site State = record { world = w; signals = x.signals ++ in_progress ∷ [] } in
      let beats : ((heartbeats message.beats y).0 ≡ ok tt)
          × (settled (heartbeats message.beats y).1 ≡ settled y) =
        heartbeats-settled message.beats y in
      let same : settled (heartbeats message.beats y).1 ≡ settled x =
        omega (arith, beats.1, count-snoc settles x.signals in_progress) in
      rw beats.0 (
        subst
          (λ k. SettledBy k (
            after_process adapter texts lib now claim_lease_seconds message event r
              (heartbeats message.beats y).1))
          same (after_process-settled message event r (heartbeats message.beats y).1))

  after_parse-settled :
      (message : Message) (r : Result JobAppliedV1) (x : Site State)
      → SettledBy (settled x) (after_parse adapter texts lib now claim_lease_seconds message r x)
  unfolding after_parse
  after_parse-settled message (ok event) x = process_message-settled message event x
  after_parse-settled message (err contract_error) x =
      ground (arith, terminalize-settled message "invalid_event" message.num_delivered none x)
  after_parse-settled message (err e) x = refl

  after_resolve-settled :
      (message : Message) (r : Result (Unit {0})) (x : Site State)
      → SettledBy (settled x) (after_resolve adapter texts lib now claim_lease_seconds message r x)
  unfolding after_resolve
  after_resolve-settled message (ok h) x =
      after_parse-settled message (parse_event lib message.size message.decoded message.subject) x
  after_resolve-settled message (err contract_error) x =
      ground
        (arith, terminalize-settled message "rejected_unknown_type" message.num_delivered none x)
  after_resolve-settled message (err e) x = refl

  -- A delivery that `handle_message` returns from has sent the broker exactly one ack or nak, and one
  -- that it raises from has sent none, over any adapter, store, clock and outcomes of the broker's calls.
  pub handle_message-SettledBy :
      (message : Message) (x : Site State)
      → SettledBy (settled x) (handle_message adapter texts lib now claim_lease_seconds message x)
  unfolding handle_message
  handle_message-SettledBy message x =
      after_resolve-settled message
        (resolve (safe_identity message.decoded).event_type
          (safe_identity message.decoded).schema_version
          (registry adapter texts lib now claim_lease_seconds))
        x
