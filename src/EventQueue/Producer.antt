-- ===== src/EventQueue/Producer.antt =====
-- gtasks/event_queue/producer.py: `enqueue_once`, which checks an event against the contract and publishes it once.
-- The state is the list of publications, the last one first. What json.loads gives back of the text that
-- json.dumps wrote is the envelope.
pub mod Accepted
use gtasks.Prelude.{
  ℕ, String, Bool, true, false, not, ◌&&◌, ◌||◌, Option, none, some, List, [], ◌∷◌, ◌==◌,
  if◌then◌else◌,
}
use gtasks.Prelude.Exec.{
  Exec, Result, ok, err, contract_error, value_error, other_error, binding_rejected, pure, raise,
  lift, modify, ◌>>=◌, ◌>>◌,
}
use gtasks.Prelude.Sets.{set_eq}
use gtasks.EventQueue.Json.{Value, Fields, null, str, obj, keys, get_field}
use gtasks.EventQueue.Event.{JobAppliedV1}
use gtasks.EventQueue.Contract.{Library, parse_event, job_applied_subject, index}
use gtasks.EventQueue.Gbrain.QuotaPage.{is_text}

pub data EnqueueStatus : Type 0 where
  accepted rejected unavailable : EnqueueStatus

pub record EnqueueResult : Type 0 where
  pub status : EnqueueStatus
  pub event_id : String
  pub duplicate : Bool
  pub stream_sequence : Option ℕ
  pub error_code : Option String
  pub retry_same_ids : Bool

-- what a publication passes to the publisher, but for the time limit; the headers are one, `header`, of the
-- value `message_id`
pub record Publication : Type 0 where
  pub subject : Value
  pub payload : Fields
  pub header : Value
  pub message_id : String

-- How the reading of the binding's file ends: OSError or JSONDecodeError, another ValueError, such as
-- UnicodeDecodeError, or the decoded text.
pub data BindingFile : Type 0 where
  unavailable_file undecodable_file : BindingFile
  decoded_file : Value → BindingFile

-- How a publication ends: PublishRejected, PublishUnavailable, or an acknowledgement with its stream, whether it
-- is a duplicate, and its sequence number, where it has them.
pub data Outcome : Type 0 where
  publish_rejected publish_unavailable : Outcome
  acknowledged : Option String → Bool → Option ℕ → Outcome

-- the test `value == 1` on JSON values, the length of the event's JSON text in UTF-8, where it has one, and
-- how `float` ends on a value
pub record ProducerLibrary : Type 0 where
  pub is_one : Option Value → Bool
  pub size_of : Fields → Option ℕ
  pub timeout_of : Option Value → Result (Unit {0})

abbrev pub events_stream : String
events_stream = "GTASKS_EVENTS"

abbrev pub binding_fields : List String
binding_fields =
    "version" ∷ "broker_url" ∷ "subject" ∷ "stream" ∷ "credential_file" ∷ "acceptance"
    ∷ "message_id_header" ∷ "publish_timeout_seconds" ∷ "result_semantics" ∷ []

-- the tests of `_read_binding`
unfoldable pub is_binding : ProducerLibrary → Fields → Bool
is_binding lib value =
    set_eq (keys value) binding_fields
    && lib.is_one (get_field "version" value)
    && is_text job_applied_subject (get_field "subject" value)
    && is_text events_stream (get_field "stream" value)
    && is_text "jetstream_puback" (get_field "acceptance" value)
    && is_text "Nats-Msg-Id" (get_field "message_id_header" value)
    && is_text "nonblocking_enqueue_only" (get_field "result_semantics" value)

-- `_read_binding`; its PublishRejected is `binding_rejected`
abbrev pub read_binding : ProducerLibrary → BindingFile → Result Fields
read_binding lib undecodable_file = err value_error
read_binding lib (decoded_file (obj value)) =
    if is_binding lib value then ok value else err binding_rejected
read_binding lib _ = err binding_rejected

abbrev pub id_or_invalid : Option Value → String
id_or_invalid (some (str s)) = s
id_or_invalid _ = "invalid"

abbrev pub refused : EnqueueStatus → String → String → EnqueueResult
refused status event_id code = record {
  status = status;
  event_id = event_id;
  duplicate = false;
  stream_sequence = none;
  error_code = some code;
  retry_same_ids = true;
}

-- `getattr(ack, "stream", None) == binding["stream"]`
abbrev pub is_same_stream : Option String → Value → Bool
is_same_stream none null = true
is_same_stream (some s) (str t) = s == t
is_same_stream _ _ = false

-- the subject as `parse_event` sees it, which only compares it: no subject is the empty text
abbrev pub subject_text : Value → String
subject_text (str s) = s
subject_text _ = ""

-- `int(getattr(ack, "seq"))`, AttributeError where it has none
abbrev pub with_sequence : String → Bool → Option ℕ → Result EnqueueResult
with_sequence event_id duplicate none = err other_error
with_sequence event_id duplicate (some n) = ok (record {
  status = accepted;
  event_id = event_id;
  duplicate = duplicate;
  stream_sequence = some n;
  error_code = none;
  retry_same_ids = false;
})

-- of an acknowledgement and `binding["stream"]`
abbrev pub after_ack :
    String → Option String → Bool → Option ℕ → Result Value → Result EnqueueResult
after_ack event_id stream duplicate sequence (err e) = err e
after_ack event_id stream duplicate sequence (ok expected) =
    if is_same_stream stream expected
    then with_sequence event_id duplicate sequence
    else ok (refused unavailable event_id "puback_stream_mismatch")

-- the results after the publication
unfoldable pub result_of : Fields → String → Outcome → Result EnqueueResult
result_of binding event_id publish_rejected = ok (refused rejected event_id "publish_rejected")
result_of binding event_id publish_unavailable =
    ok (refused unavailable event_id "publish_unavailable")
result_of binding event_id (acknowledged stream duplicate sequence) =
    after_ack event_id stream duplicate sequence (index binding "stream")

module _ (lib : ProducerLibrary) (contract : Library) where
  -- the publication of an event, with the binding's time limit, and its result
  unfoldable pub publish_event :
      Fields → Fields → Outcome → JobAppliedV1 → Exec (List Publication) EnqueueResult
  unfolding result_of
  publish_event binding envelope outcome event = do
    subject ← lift (index binding "subject")
    header ← lift (index binding "message_id_header")
    lift (lib.timeout_of (get_field "publish_timeout_seconds" binding))
    modify (λ sent.
        record {
          subject = subject;
          payload = envelope;
          header = header;
          message_id = event.event_id;
        }
        ∷ sent)
    lift (result_of binding event.event_id outcome)

  -- `except ContractError`; other exceptions of the contract are not caught
  abbrev pub after_contract :
      Fields → Fields → Outcome → Result JobAppliedV1 → Exec (List Publication) EnqueueResult
  after_contract binding envelope outcome (ok event) = publish_event binding envelope outcome event
  after_contract binding envelope outcome (err contract_error) =
      pure (
        refused rejected (id_or_invalid (get_field "event_id" envelope)) "invalid_event_or_binding")
  after_contract binding envelope outcome (err e) = raise e

  abbrev pub with_size :
      Fields → Fields → Outcome → Option ℕ → Exec (List Publication) EnqueueResult
  with_size binding envelope outcome none = raise value_error
  with_size binding envelope outcome (some size) = lift (index binding "subject") >>= λ subject.
      after_contract binding envelope outcome
        (parse_event contract size (some (obj envelope)) (subject_text subject))

  -- `except PublishRejected`; other exceptions of the reading are not caught
  abbrev pub with_binding : Fields → Outcome → Result Fields → Exec (List Publication) EnqueueResult
  with_binding envelope outcome (ok binding) =
      with_size binding envelope outcome (lib.size_of envelope)
  with_binding envelope outcome (err binding_rejected) =
      pure (
        refused rejected (id_or_invalid (get_field "event_id" envelope)) "invalid_event_or_binding")
  with_binding envelope outcome (err e) = raise e

  -- of the envelope, how the reading of the binding ends and the outcome of a publication
  unfoldable pub enqueue_once :
      Fields → BindingFile → Outcome → Exec (List Publication) EnqueueResult
  unfolding publish_event
  enqueue_once envelope file outcome = with_binding envelope outcome (read_binding lib file)
