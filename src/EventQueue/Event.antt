-- ===== src/EventQueue/Event.antt =====
-- The dataclasses of an accepted event (gtasks/event_queue/contract.py). A date is its ISO text, which
-- determines it and is all that the queue reads of it.
use gtasks.Prelude.{String}
use gtasks.EventQueue.Time.{Datetime}
use gtasks.EventQueue.Store.{Version, Identity}

pub record EventSource : Type 0 where
  pub client_id : String
  pub instance_id : String

pub record ApplicationIdentity : Type 0 where
  pub job_source : String
  pub job_id : String

pub record JobSnapshot : Type 0 where
  pub title : String
  pub company : String
  pub location : String
  pub url : String

pub record StatusEvidence : Type 0 where
  pub status : String
  pub committed_at : Datetime
  pub source : String

pub record JobAppliedPayload : Type 0 where
  pub application_identity : ApplicationIdentity
  pub job_snapshot : JobSnapshot
  pub applied_local_date : String
  pub status_evidence : StatusEvidence

pub record JobAppliedV1 : Type 0 where
  pub event_id : String
  pub idempotency_key : String
  pub event_type : String
  pub schema_version : Version
  pub source : EventSource
  pub occurred_at : Datetime
  pub timezone : String
  pub payload : JobAppliedPayload
  pub fingerprint : String

-- the identity that the processor claims
abbrev pub identity_of : JobAppliedV1 → Identity
identity_of event = record {
  event_id = event.event_id;
  source_client_id = event.source.client_id;
  idempotency_key = event.idempotency_key;
  fingerprint = event.fingerprint;
}
