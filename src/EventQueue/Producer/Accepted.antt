-- ===== src/EventQueue/Producer/Accepted.antt =====
-- What it takes for `enqueue_once` (gtasks/event_queue/producer.py) to say that an event is accepted.
use gtasks.Prelude.{ℕ, ◌≡◌, String, some, List, ◌∷◌}
use gtasks.Prelude.Exec.{Exec, lift, modify, Result, ok, err, ◌>>◌}
use gtasks.EventQueue.Json.{Fields, str, obj, get_field}
use gtasks.EventQueue.Event.{JobAppliedV1}
use gtasks.EventQueue.Contract.{Library, parse_event, job_applied_subject, index}
use gtasks.EventQueue.Producer.{
  EnqueueResult, Publication, Outcome, acknowledged, ProducerLibrary, events_stream, result_of,
}

-- what the tests of a binding make of it
record IsBound (binding : Fields) : Type 0 where
  subject : index binding "subject" ≡ ok (str job_applied_subject)
  header : index binding "message_id_header" ≡ ok (str "Nats-Msg-Id")
  stream : index binding "stream" ≡ ok (str events_stream)

abbrev AllBound : Result Fields → Type 0
AllBound (ok binding) = IsBound binding
AllBound (err e) = Unit

module _ (lib : ProducerLibrary) (contract : Library) (envelope : Fields) (outcome : Outcome)
    (sent : List Publication) where
  -- the envelope is an event of the contract, published once under its id, and acknowledged in the stream
  pub record IsPublished (r : EnqueueResult) (after : List Publication) : Type 0 where
    pub size : ℕ
    pub event : JobAppliedV1
    pub parsed : parse_event contract size (some (obj envelope)) job_applied_subject ≡ ok event
    pub once :
        after
        ≡ record {
          subject = str job_applied_subject;
          payload = envelope;
          header = str "Nats-Msg-Id";
          message_id = event.event_id;
        }
          ∷ sent
    pub named : r.event_id ≡ event.event_id
    pub stored : outcome ≡ acknowledged (some events_stream) r.duplicate r.stream_sequence

  abbrev Stored : String → Outcome → Result EnqueueResult → Type 0
  Stored id o (ok r) =
      (r.event_id ≡ id) × (o ≡ acknowledged (some events_stream) r.duplicate r.stream_sequence)
  Stored id o (err e) = Unit

  -- the publication with the binding's values read
  bound_publication : Fields → JobAppliedV1 → Exec (List Publication) EnqueueResult
  bound_publication binding event = do
    lift (lib.timeout_of (get_field "publish_timeout_seconds" binding))
    modify (λ sent.
        record {
          subject = str job_applied_subject;
          payload = envelope;
          header = str "Nats-Msg-Id";
          message_id = event.event_id;
        }
        ∷ sent)
    lift (result_of binding event.event_id outcome)
