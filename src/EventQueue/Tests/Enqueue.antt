-- ===== src/EventQueue/Tests/Enqueue.antt =====
-- A run of `enqueue_once` (gtasks/event_queue/producer.py).
use gtasks.Prelude.{true, some, none, false}
use gtasks.Prelude.Exec.{ok}
use gtasks.EventQueue.Store.{pos}
use gtasks.EventQueue.Json.{Fields, field, end, str, int}
use gtasks.EventQueue.Producer.{EnqueueStatus, EnqueueResult, ProducerLibrary}

abbrev outside : ProducerLibrary
outside = record { is_one = λ v. true; size_of = λ v. some 700; timeout_of = λ v. ok tt }

abbrev binding : Fields
binding = field "version" (int (pos 1)) (
    field "broker_url" (str "nats://localhost") (
      field "subject" (str "gtasks.events.job_applied.v1") (
        field "stream" (str "GTASKS_EVENTS") (
          field "credential_file" (str "credentials") (
            field "acceptance" (str "jetstream_puback") (
              field "message_id_header" (str "Nats-Msg-Id") (
                field "publish_timeout_seconds" (int (pos 5))
                  (field "result_semantics" (str "nonblocking_enqueue_only") end))))))))

abbrev stored : EnqueueResult
stored = record {
  status = EnqueueStatus.accepted;
  event_id = "e1";
  duplicate = false;
  stream_sequence = some 7;
  error_code = none;
  retry_same_ids = false;
}
