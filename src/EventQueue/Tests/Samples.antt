-- ===== src/EventQueue/Tests/Samples.antt =====
-- The concrete events, stores, tasks and libraries that the runs use.
use gtasks.Prelude.{String, true, false, none, some, [], ◌∷◌, ◌==◌, if◌then◌else◌}
use gtasks.EventQueue.Time.{aware}
use gtasks.EventQueue.Store.{
  EventStore, Identity, Receipt, TerminalRecord, Activity, pos, processing, accepted, terminal,
  empty_store,
}
use gtasks.EventQueue.Event.{JobAppliedV1}
use gtasks.EventQueue.Slug.{TextLibrary}
use gtasks.EventQueue.Contract.{Library, zone, bad_key}
use gtasks.EventQueue.Json.{Fields, str, int, obj, field, end}
use gtasks.EventQueue.Handler.{QuotaTaskState}
use gtasks.EventQueue.Memory.{Memory, empty_memory}
use gtasks.EventQueue.World.{World}
use gtasks.EventQueue.Worker.{Message, Site, explicit_task}

abbrev pub plain : TextLibrary
plain = record { strip = λ s. s; lower = λ s. s; sha256_hex = λ s. "0123456789abcdef" }

abbrev pub library : Library
library = record {
  strip = λ s. s;
  lower = λ s. s;
  show_int = λ v. "1";
  datetime_of = λ s. some (aware 5);
  date_of = λ s. some s;
  zone_info = λ name. if name == "/etc" then bad_key else zone;
  urlsplit = λ s. some ("https", "jobs.example");
  local_date = λ t name. some "2026-08-01";
  fingerprint_of = λ v. some "f1";
}

abbrev pub envelope : String → Fields
envelope timezone = field "event_id" (str "e1") (
    field "idempotency_key" (str "k1") (
      field "event_type" (str "job_applied") (
        field "schema_version" (int (pos 1)) (
          field "source"
            (obj (field "client_id" (str "career-path") (field "instance_id" (str "one") end)))
            (field "occurred_at" (str "2026-08-01T00:00:00Z") (
              field "timezone" (str timezone) (
                field "payload"
                  (obj (
                    field "application_identity"
                      (obj (field "job_source" (str "linkedin") (field "job_id" (str "42") end)))
                      (field "job_snapshot"
                        (obj (
                          field "title" (str "Engineer") (
                            field "company" (str "Acme") (
                              field "location" (str "Remote")
                                (field "url" (str "https://jobs.example/42") end)))))
                        (field "applied_local_date" (str "2026-08-01") (
                          field "status_evidence"
                            (obj (
                              field "status" (str "applied") (
                                field "committed_at" (str "2026-08-01T00:00:00Z")
                                  (field "source" (str "form") end))))
                            end)))))
                  end)))))))

abbrev pub event : JobAppliedV1
event = record {
  event_id = "e1";
  idempotency_key = "k1";
  event_type = "job_applied";
  schema_version = pos 1;
  source = record { client_id = "career-path"; instance_id = "one" };
  occurred_at = aware 5;
  timezone = "UTC";
  payload = record {
    application_identity = record { job_source = "linkedin"; job_id = "42" };
    job_snapshot = record {
      title = "Engineer";
      company = "Acme";
      location = "Remote";
      url = "https://jobs.example/42";
    };
    applied_local_date = "2026-08-01";
    status_evidence = record { status = "applied"; committed_at = aware 5; source = "form" };
  };
  fingerprint = "f1";
}

-- the identity of `event`, and another event under the same key
abbrev pub first_claim : Identity
first_claim = record {
  event_id = "e1";
  source_client_id = "career-path";
  idempotency_key = "k1";
  fingerprint = "f1";
}

abbrev pub rival_claim : Identity
rival_claim = record {
  event_id = "e2";
  source_client_id = "career-path";
  idempotency_key = "k1";
  fingerprint = "f2";
}

abbrev pub held_receipt : Receipt
held_receipt = record {
  event_id = "e1";
  source_client_id = "career-path";
  idempotency_key = "k1";
  fingerprint = "f1";
  status = processing;
  lease_expires_at = some 120000000;
  handler_version = none;
  created_at = 0;
  updated_at = 0;
}

abbrev pub accepted_receipt : Receipt
accepted_receipt = record held_receipt {
  status = accepted;
  lease_expires_at = none;
  handler_version = some "job_applied.v1";
}

abbrev pub held_store : EventStore
held_store = record empty_store { receipts = held_receipt ∷ [] }

abbrev pub accepted_store : EventStore
accepted_store = record empty_store { receipts = accepted_receipt ∷ [] }

abbrev pub dead_letter : TerminalRecord
dead_letter = record {
  event_id = "e1";
  event_type = "job_applied";
  schema_version = pos 1;
  source_client_id = "career-path";
  error_code = "invalid_event";
  attempts = 5;
  original_stream = "GTASKS_EVENTS";
  original_stream_sequence = 7;
  failed_at = 9;
}

abbrev pub terminal_store : EventStore
terminal_store = record empty_store {
  receipts = record held_receipt { status = terminal; lease_expires_at = none } ∷ [];
  terminals = dead_letter ∷ [];
}

abbrev pub entry : Activity
entry = record {
  event_id = "e1";
  fingerprint = "f1";
  source_client_id = "career-path";
  disposition = "retrying";
  task_slug = explicit_task;
  error_code = none;
  scope_day = none;
  timezone_name = none;
  prior_progress = none;
  resulting_progress = none;
  verified_count = none;
  baseline_count = none;
  target_value = none;
}

abbrev pub quota_task : QuotaTaskState
quota_task = record {
  slug = explicit_task;
  active = true;
  status = "active";
  day = "2026-08-01";
  unit = "job_application";
  target = 2;
  baseline_count = 1;
  evidence = [];
  receipt_ids = [];
  completed_count = 1;
  completed_at = none;
}

abbrev pub memory : Memory
memory = record empty_memory { tasks = (explicit_task, quota_task) ∷ [] }

abbrev pub world : World Memory
world = record { store = empty_store; backend = memory; reads = 0 }

abbrev pub site : Site Memory
site = record { world = world; signals = [] }

abbrev pub delivery : String → Message
delivery timezone = record {
  size = 700;
  digest = "d1";
  decoded = some (obj (envelope timezone));
  subject = "gtasks.events.job_applied.v1";
  num_delivered = 2;
  stream_sequence = 7;
  beats = 1;
  publish_fails = false;
  ack_fails = false;
}
