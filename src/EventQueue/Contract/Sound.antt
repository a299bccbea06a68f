-- ===== src/EventQueue/Contract/Sound.antt =====
-- What an event that `parse_event` (gtasks/event_queue/contract.py) returns is known to satisfy.
use gtasks.Prelude.{
  ℕ, ◌∙◌, ◌⊎◌, ◌≡◌, ◌≤◌, refl, String, Bool, true, false, not, Option, some, inl, inr, ap, ◌==◌,
  Option-cases, eq_iff, arith, ltb,
}
use gtasks.Prelude.Exec.{ok, contract_error}
use gtasks.Prelude.Checked.{fail_if, >>=-eq-ok}
use gtasks.Prelude.Sets.{member}
use gtasks.EventQueue.Time.{Datetime}
use gtasks.EventQueue.Store.{Version, pos}
use gtasks.EventQueue.Json.{Value, Fields, obj}
use gtasks.EventQueue.Event.{EventSource, JobAppliedPayload, JobAppliedV1}
use gtasks.EventQueue.Registry.{same_version}
use gtasks.EventQueue.Contract.{
  Library, ZoneResult, zone, not_found, bad_key, unreadable, max_event_bytes, job_applied_subject,
  authorized_sources, parse_event, parse_header, parse_body, parse_source, parse_payload,
  check_zone, check_local_date, object_of, exact_fields, envelope_fields, canonical_digest, text_at,
  index, timestamp, decoded_or_reject,
}

fail_if-ok : (b : Bool) {a : Unit {0}} → fail_if b contract_error ≡ ok a → b ≡ false
fail_if-ok true h = cc
fail_if-ok false h = refl

not_above : (n m : ℕ) → ltb m n ≡ false → n ≤ m
not_above n m h = ground arith

ZoneResult-cases :
    (z : ZoneResult) → (z ≡ zone) ⊎ (z ≡ not_found) ⊎ (z ≡ bad_key) ⊎ (z ≡ unreadable)
ZoneResult-cases zone = inl refl
ZoneResult-cases not_found = inr (inl refl)
ZoneResult-cases bad_key = inr (inr (inl refl))
ZoneResult-cases unreadable = inr (inr (inr refl))

module _ (lib : Library) where
  check_zone-zone : (name : String) → check_zone lib name ≡ ok tt → lib.zone_info name ≡ zone
  unfolding check_zone
  check_zone-zone name h = elim (ZoneResult-cases (lib.zone_info name)) [
    | inl found ↦ found
    | inr (inl lost) ↦ cc (rw (check_zone, lost) at h)
    | inr (inr (inl bad)) ↦ cc (rw (check_zone, bad) at h)
    | inr (inr (inr failed)) ↦ cc (rw (check_zone, failed) at h)
  ]

  check_local_date-day :
      (committed_at : Datetime) (name day : String)
      → check_local_date lib committed_at name day ≡ ok tt
      → lib.local_date committed_at name ≡ some day
  unfolding check_local_date
  check_local_date-day committed_at name day h =
      elim (Option-cases (lib.local_date committed_at name)) [
        | inl never ↦ cc (rw (check_local_date, never) at h)
        | inr (found, is_found) ↦
            let tested : fail_if (not (found == day)) contract_error ≡ ok tt =
              rw (check_local_date, is_found) at h in
            is_found ∙ ap some (same_day found (fail_if-ok (not (found == day)) tested))
      ]
    where
      same_day : (found : String) → not (found == day) ≡ false → found ≡ day
      same_day found h = (eq_iff found day).0 (ground arith)

  parse_source-authorized :
      (raw : Value) (s : EventSource)
      → parse_source lib raw ≡ ok s
      → member s.client_id authorized_sources ≡ true
  unfolding parse_source
  parse_source-authorized raw s h = ground arith

  parse_header_sound :
      (value : Fields) (subject : String) (t : String) (v : Version) (z : String)
      → parse_header lib value subject ≡ ok (t, v, z)
      → (subject ≡ job_applied_subject)
        × (t ≡ "job_applied")
        × (same_version v (pos 1) ≡ true)
        × (lib.zone_info z ≡ zone)
  unfolding parse_header
  parse_header_sound value subject t v z h =
      ground (arith, eq_iff subject job_applied_subject, eq_iff t "job_applied", check_zone-zone z)

  parse_payload_sound :
      (raw : Value) (z : String) (p : JobAppliedPayload)
      → parse_payload lib raw z ≡ ok p
      → (p.status_evidence.status ≡ "applied")
        × (lib.local_date p.status_evidence.committed_at z ≡ some p.applied_local_date)
  unfolding parse_payload
  parse_payload_sound raw z p h = ground (
    arith,
    eq_iff p.status_evidence.status "applied",
    check_local_date-day p.status_evidence.committed_at z p.applied_local_date,
  )

  -- what is known of the parts of an accepted event
  abbrev pub PartsSound : JobAppliedV1 → Type 0
  PartsSound e =
      (member e.source.client_id authorized_sources ≡ true)
      × (e.payload.status_evidence.status ≡ "applied")
      × (lib.local_date e.payload.status_evidence.committed_at e.timezone
          ≡ some e.payload.applied_local_date)

  built-parts :
      (event_id key t : String) (v : Version) (z digest : String) (source : EventSource)
      (occurred_at : Datetime) (payload : JobAppliedPayload) (e : JobAppliedV1)
      → member source.client_id authorized_sources ≡ true
      → (payload.status_evidence.status ≡ "applied")
        × (lib.local_date payload.status_evidence.committed_at z ≡ some payload.applied_local_date)
      → ok (record {
        event_id = event_id;
        idempotency_key = key;
        event_type = t;
        schema_version = v;
        source = source;
        occurred_at = occurred_at;
        timezone = z;
        payload = payload;
        fingerprint = digest;
      })
        ≡ ok e
      → PartsSound e × (e.event_type ≡ t) × (e.schema_version ≡ v) × (e.timezone ≡ z)
  built-parts event_id key t v z digest source occurred_at payload e authorized sound h =
      ground arith

  parse_body_sound :
      (value : Fields) (header : String × Version × String) (e : JobAppliedV1)
      → parse_body lib value header ≡ ok e
      → PartsSound e
        × (e.event_type ≡ header.0)
        × (e.schema_version ≡ header.1)
        × (e.timezone ≡ header.2)
  unfolding parse_body
  parse_body_sound value (t, v, z) e h =
      let (digest, e1, h1) = >>=-eq-ok (canonical_digest lib (obj value)) _ h in
      let (event_id, e2, h2) = >>=-eq-ok (text_at lib value "event_id" 128) _ h1 in
      let (key, e3, h3) = >>=-eq-ok (text_at lib value "idempotency_key" 256) _ h2 in
      let (raw_source, e4, h4) = >>=-eq-ok (index value "source") _ h3 in
      let (source, e5, h5) = >>=-eq-ok (parse_source lib raw_source) _ h4 in
      let (raw_at, e6, h6) = >>=-eq-ok (index value "occurred_at") _ h5 in
      let (occurred_at, e7, h7) = >>=-eq-ok (timestamp lib raw_at) _ h6 in
      let (raw_payload, e8, h8) = >>=-eq-ok (index value "payload") _ h7 in
      let (payload, e9, h9) = >>=-eq-ok (parse_payload lib raw_payload z) _ h8 in
      let authorized = parse_source-authorized raw_source source e5 in
      let sound = parse_payload_sound raw_payload z payload e9 in
      built-parts event_id key t v z digest source occurred_at payload e authorized sound h9

  -- Soundness of admission. An event that `parse_event` returns came in at most 65,536 bytes under the
  -- one subject, is a job_applied event of version 1 from an authorized client, names a zone that the
  -- time-zone database has, has the status "applied", and the time of its commit, taken to that zone, is of the applied date.
  pub parse_event_sound :
      (size : ℕ) (decoded : Option Value) (subject : String) (e : JobAppliedV1)
      → parse_event lib size decoded subject ≡ ok e
      → (size ≤ max_event_bytes)
        × (subject ≡ job_applied_subject)
        × (e.event_type ≡ "job_applied")
        × (same_version e.schema_version (pos 1) ≡ true)
        × (lib.zone_info e.timezone ≡ zone)
        × PartsSound e
  unfolding parse_event
  parse_event_sound size decoded subject e h =
      let (u, small, h1) = >>=-eq-ok (fail_if (ltb max_event_bytes size) contract_error) _ h in
      let (raw, e2, h2) = >>=-eq-ok (decoded_or_reject decoded) _ h1 in
      let (value, e3, h3) = >>=-eq-ok (object_of raw) _ h2 in
      let (u', e4, h4) = >>=-eq-ok (exact_fields envelope_fields value) _ h3 in
      let (header, e5, h5) = >>=-eq-ok (parse_header lib value subject) _ h4 in
      let (right, type_ok, version_ok, zone_ok) =
        parse_header_sound value subject header.0 header.1 header.2 e5 in
      let (parts, et, ev, ez) = parse_body_sound value header e h5 in
      (
        not_above size max_event_bytes (fail_if-ok (ltb max_event_bytes size) small),
        right,
        et ∙ type_ok,
        rw ev version_ok,
        rw ez zone_ok,
        parts,
      )
