-- ===== src/EventQueue/Worker.antt =====
-- gtasks/event_queue/worker.py, `EventWorker`: one delivery of a message, from the registry to the ack or
-- the nak.
pub mod Settled
pub mod Outcome
pub mod Escape
pub mod Validity
use gtasks.Prelude.{
  ℕ, zero, suc, ◌+◌, ◌-◌, String, Bool, true, false, ◌&&◌, Option, none, some, ◌==◌, List, [], ◌∷◌,
  ◌++◌, ltb, if◌then◌else◌,
}
use gtasks.Prelude.Exec.{
  Exec, Error, Result, ok, err, contract_error, other_error, pure, raise, catch, modify, ◌>>=◌,
  ◌>>◌,
}
use gtasks.Prelude.Tables.{length}
use gtasks.EventQueue.Time.{Datetime, aware, naive}
use gtasks.EventQueue.Store.{
  EventStore, Version, pos, TerminalRecord, Activity, record_terminal, record_activity,
}
use gtasks.EventQueue.Event.{JobAppliedV1}
use gtasks.EventQueue.Slug.{TextLibrary}
use gtasks.EventQueue.Handler.{Adapter}
use gtasks.EventQueue.World.{World, on_store}
use gtasks.EventQueue.Json.{Value, null, bool, int, float, str, arr, obj, get_field}
use gtasks.EventQueue.Registry.{Entry, register, resolve}
use gtasks.EventQueue.Contract.{Library, parse_event}
use gtasks.EventQueue.Processor.{ProcessingStatus, ProcessingResult, process_event}

abbrev pub backoff_seconds : List ℕ
backoff_seconds = 30 ∷ 60 ∷ 300 ∷ 900 ∷ 3600 ∷ []

abbrev pub max_deliver : ℕ
max_deliver = length backoff_seconds

-- `BACKOFF_SECONDS[i]`; an index past the end raises IndexError
abbrev pub get_elem? : List ℕ → ℕ → Option ℕ
get_elem? [] i = none
get_elem? (x ∷ xs) zero = some x
get_elem? (x ∷ xs) (suc i) = get_elem? xs i

abbrev last : ℕ → List ℕ → ℕ
last x [] = x
last x (y ∷ ys) = last y ys

-- `BACKOFF_SECONDS[-1]`, of a list that is not empty
abbrev pub last_backoff : ℕ
last_backoff = last 0 backoff_seconds

abbrev pub explicit_task : String
explicit_task = "tasks/562466ac-3569-4013-b105-746a64816cc6"

-- `text or fallback`; an empty text counts as none
abbrev pub or_text : Option String → String → String
or_text none fallback = fallback
or_text (some s) fallback = if s == "" then fallback else s

abbrev pub is_done : ProcessingStatus → Bool
is_done ProcessingStatus.accepted = true
is_done ProcessingStatus.duplicate = true
is_done _ = false

-- what `_safe_identity` reads from the raw message
pub record SafeIdentity : Type 0 where
  pub event_id : String
  pub event_type : String
  pub schema_version : Version
  pub source_client_id : String

-- A delivery: the message, and how the calls of the broker end. `size` and `digest` are the length and
-- the SHA-256 of the raw bytes, `decoded` what `json.loads` returns for them, and `beats` is the number of
-- heartbeats that are sent while the handler runs.
pub record Message : Type 0 where
  pub size : ℕ
  pub digest : String
  pub decoded : Option Value
  pub subject : String
  pub num_delivered : ℕ
  pub stream_sequence : ℕ
  pub beats : ℕ
  pub publish_fails : Bool
  pub ack_fails : Bool

abbrev pub text_or_unknown : Option Value → String
text_or_unknown (some (str s)) = s
text_or_unknown _ = "unknown"

-- isinstance(v, int) holds of a bool too, which is 0 or 1
abbrev pub version_or_zero : Option Value → Version
version_or_zero (some (int v)) = v
version_or_zero (some (bool b)) = if b then pos 1 else pos 0
version_or_zero _ = pos 0

abbrev pub client_of : Option Value → String
client_of (some (obj fs)) = text_or_unknown (get_field "client_id" fs)
client_of _ = "unknown"

unfoldable pub safe_identity : Option Value → SafeIdentity
unfolding get_field
safe_identity (some (obj fs)) = record {
  event_id = text_or_unknown (get_field "event_id" fs);
  event_type = text_or_unknown (get_field "event_type" fs);
  schema_version = version_or_zero (get_field "schema_version" fs);
  source_client_id = client_of (get_field "source" fs);
}
safe_identity _ = record {
  event_id = "unknown";
  event_type = "unknown";
  schema_version = pos 0;
  source_client_id = "unknown";
}

-- what the worker tells the broker
pub data Signal : Type 0 where
  in_progress ack : Signal
  nak : ℕ → Signal
  publish_terminal : TerminalRecord → Signal

pub record Site (State : Type 0) : Type 0 where
  pub world : World State
  pub signals : List Signal

module _ {State : Type 0} where
  abbrev pub on_world : {A : Type 0} → Exec (World State) A → Exec (Site State) A
  on_world m x = let (r, w) = m x.world in (r, record x { world = w })

  abbrev pub attempt_site : {A : Type 0} → Exec (Site State) A → Exec (Site State) (Result A)
  attempt_site m x = let (r, x') = m x in (ok r, x')

  -- an index past the end raises IndexError
  abbrev pub index_or_raise : Option ℕ → Exec (Site State) ℕ
  index_or_raise none = raise other_error
  index_or_raise (some n) = pure n

  abbrev pub send : Signal → Exec (Site State) (Unit {0})
  send signal = modify (λ x. record x { signals = x.signals ++ signal ∷ [] })

  -- the heartbeats that a handler's run leaves time for
  unfoldable pub heartbeats : ℕ → Exec (Site State) (Unit {0})
  heartbeats zero x = (ok tt, x)
  heartbeats (suc n) x = heartbeats n (record x { signals = x.signals ++ in_progress ∷ [] })

-- `_terminal`
unfoldable pub terminal_of : Message → String → ℕ → ℕ → TerminalRecord
unfolding safe_identity
terminal_of message error_code attempts failed_at =
    let who = safe_identity message.decoded in
    record {
      event_id = who.event_id;
      event_type = who.event_type;
      schema_version = who.schema_version;
      source_client_id = who.source_client_id;
      error_code = error_code;
      attempts = attempts;
      original_stream = "GTASKS_EVENTS";
      original_stream_sequence = message.stream_sequence;
      failed_at = failed_at;
    }

-- the activity receipts of the worker
abbrev pub worker_activity : String → String → String → String → Option String → Activity
worker_activity event_id fingerprint client disposition error_code = record {
  event_id = event_id;
  fingerprint = fingerprint;
  source_client_id = client;
  disposition = disposition;
  task_slug = explicit_task;
  error_code = error_code;
  scope_day = none;
  timezone_name = none;
  prior_progress = none;
  resulting_progress = none;
  verified_count = none;
  baseline_count = none;
  target_value = none;
}

-- `EventWorker`. `now k` is the k-th reading of the clock, which is aware; `processor` stands for the
-- processor's and handler's arguments.
module _ {State : Type 0} (adapter : Adapter State) (texts : TextLibrary) (lib : Library)
    (now : ℕ → ℕ) (claim_lease_seconds : ℕ) where
  abbrev pub clock : ℕ → Datetime
  clock k = aware (now k)

  abbrev pub read_now : Exec (Site State) ℕ
  read_now x =
      (ok (now x.world.reads), record x { world = record x.world { reads = x.world.reads + 1 } })

  abbrev pub registry : List (Entry (Unit {0}))
  unfolding register
  registry = (register "job_applied" (pos 1) tt []).1

  -- `dlq.publish_terminal`
  unfoldable pub publish : Message → TerminalRecord → Exec (Site State) (Unit {0})
  publish message t = if message.publish_fails then raise other_error else send (publish_terminal t)

  unfoldable pub ack_message : Message → Exec (Site State) (Unit {0})
  ack_message message = if message.ack_fails then raise other_error else send ack

  -- the `try` block of `_terminalize`
  unfoldable pub terminalize_steps :
      Message → TerminalRecord → String → Exec (Site State) (Unit {0})
  unfolding publish ack_message
  terminalize_steps message t fingerprint = do
    publish message t
    on_world (on_store (record_terminal t))
    on_world (
        on_store (
          record_activity
            (worker_activity t.event_id fingerprint t.source_client_id "terminal_failure"
              (some t.error_code))
            (aware t.failed_at)))
    ack_message message

  unfoldable pub terminalize : Message → String → ℕ → Option String → Exec (Site State) (Unit {0})
  terminalize message error_code attempts fingerprint = do
    failed_at ← read_now
    catch
        (terminalize_steps message (terminal_of message error_code attempts failed_at)
          (or_text fingerprint message.digest))
        (λ e. send (nak last_backoff))

  -- what follows a result that is neither accepted nor a duplicate
  unfoldable pub settle_failure :
      Message → JobAppliedV1 → ProcessingResult → Exec (Site State) (Option ProcessingResult)
  settle_failure message event result =
      if result.retriable && ltb message.num_delivered max_deliver
      then (do
        recorded_at ← read_now
        on_world (
            on_store (
              record_activity
                (worker_activity event.event_id event.fingerprint event.source.client_id "retrying"
                  result.error_code)
                (aware recorded_at)))
        delay ← index_or_raise (get_elem? backoff_seconds (message.num_delivered - 1))
        send (nak delay)
        pure (some result))
      else (do
        terminalize message (or_text result.error_code "handler_failed") message.num_delivered
            (some event.fingerprint)
        pure (some result))

  unfoldable pub settle :
      Message → JobAppliedV1 → ProcessingResult → Exec (Site State) (Option ProcessingResult)
  unfolding ack_message
  settle message event result =
      if is_done result.status
      then (do ack_message message; pure (some result))
      else settle_failure message event result

  unfoldable pub after_process :
      Message → JobAppliedV1 → Result ProcessingResult → Exec (Site State) (Option ProcessingResult)
  after_process message event (ok result) = settle message event result
  after_process message event (err e) = raise e

  -- the processor runs in a thread, with heartbeats until it ends; an exception of it propagates
  unfoldable pub process_message :
      Message → JobAppliedV1 → Exec (Site State) (Option ProcessingResult)
  process_message message event = do
    send in_progress
    outcome ←
        attempt_site
          (on_world (process_event adapter texts clock explicit_task claim_lease_seconds event))
    heartbeats message.beats
    after_process message event outcome

  unfoldable pub after_parse :
      Message → Result JobAppliedV1 → Exec (Site State) (Option ProcessingResult)
  after_parse message (ok event) = process_message message event
  after_parse message (err contract_error) = do
    terminalize message "invalid_event" message.num_delivered none
    pure none
  after_parse message (err e) = raise e

  unfoldable pub after_resolve :
      Message → Result (Unit {0}) → Exec (Site State) (Option ProcessingResult)
  after_resolve message (ok handler) =
      after_parse message (parse_event lib message.size message.decoded message.subject)
  after_resolve message (err contract_error) = do
    terminalize message "rejected_unknown_type" message.num_delivered none
    pure none
  after_resolve message (err e) = raise e

  unfoldable pub handle_message : Message → Exec (Site State) (Option ProcessingResult)
  handle_message message =
      let who = safe_identity message.decoded in
      after_resolve message (resolve who.event_type who.schema_version registry)
