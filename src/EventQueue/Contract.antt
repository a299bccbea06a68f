-- ===== src/EventQueue/Contract.antt =====
-- gtasks/event_queue/contract.py: the checks that turn a raw message into an event. Every rejection is a
-- ContractError; other exceptions come from Python's standard library and are not caught here.
pub mod Sound
use Prim.Native.Char.{Char, code}
use Prim.Native.String.{count}
use gtasks.Prelude.{
  ℕ, String, Bool, true, false, not, ◌&&◌, ◌||◌, Option, none, some, List, [], ◌∷◌, ◌==◌, ltb,
  nat_eq, if◌then◌else◌,
}
use gtasks.Prelude.Exec.{Result, ok, err, contract_error, value_error, other_error}
use gtasks.Prelude.Checked.{◌>>=◌, ◌>>◌, fail_if}
use gtasks.Prelude.Sets.{member, subset}
use gtasks.EventQueue.Time.{Datetime, aware, naive}
use gtasks.EventQueue.Store.{Version, pos}
use gtasks.EventQueue.Json.{Value, null, str, int, obj, arr, bool, float, Fields, keys, get_field}
use gtasks.EventQueue.Registry.{same_version}
use gtasks.EventQueue.Event.{
  EventSource, ApplicationIdentity, JobSnapshot, StatusEvidence, JobAppliedPayload, JobAppliedV1,
}

-- How `ZoneInfo(key)` ends: a key that is no normalized relative path raises ValueError, one that is not
-- found raises ZoneInfoNotFoundError, and one whose file cannot be read another exception, such as
-- IsADirectoryError.
pub data ZoneResult : Type 0 where
  zone not_found bad_key unreadable : ZoneResult

-- What the checks use of Python's standard library.
pub record Library : Type 0 where
  -- str.strip, str.lower
  pub strip : String → String
  pub lower : String → String
  -- str of an int, as an f-string writes it
  pub show_int : Version → String
  -- datetime.fromisoformat and date.fromisoformat (to the canonical text); `none` is ValueError
  pub datetime_of : String → Option Datetime
  pub date_of : String → Option String
  pub zone_info : String → ZoneResult
  -- urlsplit: the scheme and the network location; `none` is ValueError
  pub urlsplit : String → Option (String × String)
  -- `t.astimezone(ZoneInfo(name)).date().isoformat()`; `none` is OverflowError
  pub local_date : Datetime → String → Option String
  -- the SHA-256 digest of the canonical JSON text in UTF-8; `none` is UnicodeEncodeError
  pub fingerprint_of : Value → Option String

abbrev pub max_event_bytes : ℕ
max_event_bytes = 65536

abbrev pub job_applied_subject : String
job_applied_subject = "gtasks.events.job_applied.v1"

abbrev pub authorized_sources : List String
authorized_sources = "career-path" ∷ []

-- `_object`
unfoldable pub object_of : Value → Result Fields
object_of (obj fs) = ok fs
object_of _ = err contract_error

-- `_exact_fields`
unfoldable pub exact_fields : List String → Fields → Result (Unit {0})
exact_fields required fs = do
  fail_if (not (subset required (keys fs))) contract_error
  fail_if (not (subset (keys fs) required)) contract_error

-- `value[k]`, where `exact_fields` has shown that the key is there; KeyError otherwise
unfoldable pub index : Fields → String → Result Value
index fs k = elim (get_field k fs) [ none ↦ err other_error | some v ↦ ok v ]

-- any(ord(char) < 32 for char in s)
unfoldable pub has_control : String → Bool
has_control String.[] = false
has_control (String.◌∷◌ c s) = ltb (code c) 32 || has_control s

-- `text.replace("Z", "+00:00")`
unfoldable pub replace_z : String → String
replace_z String.[] = String.[]
replace_z (String.◌∷◌ c s) =
    let rest = replace_z s in
    if nat_eq (code c) b'Z' then Prim.Native.String.◌++◌ "+00:00" rest else String.◌∷◌ c rest

infixr 65 ◌+++◌
abbrev ◌+++◌ : String → String → String
s +++ t = Prim.Native.String.◌++◌ s t

abbrev pub has_offset : Datetime → Result Datetime
has_offset (naive w) = err contract_error
has_offset (aware t) = ok (aware t)

-- an int that is no bool
unfoldable pub version_of : Value → Result Version
version_of (int v) = ok v
version_of _ = err contract_error

abbrev pub envelope_fields : List String
envelope_fields =
    "event_id" ∷ "idempotency_key" ∷ "event_type" ∷ "schema_version" ∷ "source" ∷ "occurred_at"
    ∷ "timezone" ∷ "payload" ∷ []

abbrev pub decoded_or_reject : Option Value → Result Value
decoded_or_reject none = err contract_error
decoded_or_reject (some v) = ok v

module _ (lib : Library) where
  open lib use {
    strip, lower, show_int, datetime_of, date_of, zone_info, urlsplit, local_date, fingerprint_of,
  }

  -- `_text`
  unfoldable pub text : Value → ℕ → Result String
  unfolding has_control
  text (str s) maximum = do
    fail_if (strip s == "") contract_error
    fail_if (ltb maximum (count (strip s))) contract_error
    fail_if (has_control (strip s)) contract_error
    ok (strip s)
  text _ maximum = err contract_error

  -- a field's value as a text
  unfoldable pub text_at : Fields → String → ℕ → Result String
  text_at fs k maximum = do v ← index fs k; text v maximum

  -- `_timestamp`
  unfoldable pub timestamp : Value → Result Datetime
  timestamp v = do
    s ← text v 64
    elim (datetime_of (replace_z s)) [ none ↦ err contract_error | some t ↦ has_offset t ]

  -- `_date`
  unfoldable pub date : Value → Result String
  date v = do s ← text v 10; elim (date_of s) [ none ↦ err contract_error | some d ↦ ok d ]

  unfoldable pub parse_source : Value → Result EventSource
  parse_source raw = do
    value ← object_of raw
    exact_fields ("client_id" ∷ "instance_id" ∷ []) value
    client_id ← text_at value "client_id" 64
    fail_if (not (member client_id authorized_sources)) contract_error
    instance_id ← text_at value "instance_id" 128
    ok (record { client_id = client_id; instance_id = instance_id })

  unfoldable pub parse_identity : Value → Result ApplicationIdentity
  parse_identity raw = do
    identity ← object_of raw
    exact_fields ("job_source" ∷ "job_id" ∷ []) identity
    job_source ← text_at identity "job_source" 64
    job_id ← text_at identity "job_id" 256
    ok (record { job_source = lower job_source; job_id = job_id })

  -- the URL's scheme and network location
  unfoldable pub check_url : String → Result (Unit {0})
  check_url url = elim (urlsplit url) [
    | none ↦ err value_error
    | some (scheme, netloc) ↦
        fail_if (not ((scheme == "http") || (scheme == "https")) || (netloc == "")) contract_error
  ]

  unfoldable pub parse_snapshot : Value → Result JobSnapshot
  parse_snapshot raw = do
    snapshot ← object_of raw
    exact_fields ("title" ∷ "company" ∷ "location" ∷ "url" ∷ []) snapshot
    url ← text_at snapshot "url" 2048
    check_url url
    title ← text_at snapshot "title" 256
    company ← text_at snapshot "company" 256
    location ← text_at snapshot "location" 256
    ok (record { title = title; company = company; location = location; url = url })

  -- `ZoneInfo(timezone_name)` outside a `try`
  unfoldable pub plain_zone : String → Result (Unit {0})
  plain_zone name = elim (zone_info name) [
    | zone ↦ ok tt
    | not_found ↦ err other_error
    | bad_key ↦ err value_error
    | unreadable ↦ err other_error
  ]

  -- the local date of the commit must be the date of the application
  unfoldable pub check_local_date : Datetime → String → String → Result (Unit {0})
  check_local_date committed_at timezone_name applied =
      elim (local_date committed_at timezone_name) [
        | none ↦ err other_error
        | some day ↦ fail_if (not (day == applied)) contract_error
      ]

  unfoldable pub parse_payload : Value → String → Result JobAppliedPayload
  parse_payload raw timezone_name = do
    value ← object_of raw
    exact_fields
        ("application_identity" ∷ "job_snapshot" ∷ "applied_local_date" ∷ "status_evidence" ∷ [])
        value
    identity ← parse_identity (← index value "application_identity")
    snapshot ← parse_snapshot (← index value "job_snapshot")
    evidence ← object_of (← index value "status_evidence")
    exact_fields ("status" ∷ "committed_at" ∷ "source" ∷ []) evidence
    status ← text_at evidence "status" 32
    fail_if (not (status == "applied")) contract_error
    committed_at ← timestamp (← index evidence "committed_at")
    applied_local_date ← date (← index value "applied_local_date")
    plain_zone timezone_name
    check_local_date committed_at timezone_name applied_local_date
    source ← text_at evidence "source" 128
    ok (record {
      application_identity = identity;
      job_snapshot = snapshot;
      applied_local_date = applied_local_date;
      status_evidence = record { status = status; committed_at = committed_at; source = source };
    })

  -- `try: ZoneInfo(name) except ZoneInfoNotFoundError`
  unfoldable pub check_zone : String → Result (Unit {0})
  check_zone name = elim (zone_info name) [
    | zone ↦ ok tt
    | not_found ↦ err contract_error
    | bad_key ↦ err value_error
    | unreadable ↦ err other_error
  ]

  unfoldable pub canonical_digest : Value → Result String
  canonical_digest v = elim (fingerprint_of v) [ none ↦ err value_error | some d ↦ ok d ]

  -- The event's type, version and time zone, checked against the subject.
  unfoldable pub parse_header : Fields → String → Result (String × Version × String)
  parse_header value subject = do
    event_type ← text_at value "event_type" 64
    schema_version ← version_of (← index value "schema_version")
    fail_if
        (not (subject == ("gtasks.events." +++ event_type +++ ".v" +++ show_int schema_version))
          || not (subject == job_applied_subject))
        contract_error
    fail_if (not ((event_type == "job_applied") && same_version schema_version (pos 1)))
        contract_error
    timezone_name ← text_at value "timezone" 64
    check_zone timezone_name
    ok (event_type, schema_version, timezone_name)

  -- the parts of the event, in the order in which the source checks them
  unfoldable pub parse_body : Fields → String × Version × String → Result JobAppliedV1
  parse_body value (event_type, schema_version, timezone_name) = do
    digest ← canonical_digest (obj value)
    event_id ← text_at value "event_id" 128
    idempotency_key ← text_at value "idempotency_key" 256
    source ← parse_source (← index value "source")
    occurred_at ← timestamp (← index value "occurred_at")
    payload ← parse_payload (← index value "payload") timezone_name
    ok (record {
      event_id = event_id;
      idempotency_key = idempotency_key;
      event_type = event_type;
      schema_version = schema_version;
      source = source;
      occurred_at = occurred_at;
      timezone = timezone_name;
      payload = payload;
      fingerprint = digest;
    })

  -- `size` is `len(raw)`, and `decoded` what `json.loads(raw)` returns, `none` where it raises.
  unfoldable pub parse_event : ℕ → Option Value → String → Result JobAppliedV1
  parse_event size decoded subject = do
    fail_if (ltb max_event_bytes size) contract_error
    raw ← decoded_or_reject decoded
    value ← object_of raw
    exact_fields envelope_fields value
    header ← parse_header value subject
    parse_body value header
