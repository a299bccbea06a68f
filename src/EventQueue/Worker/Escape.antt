-- ===== src/EventQueue/Worker/Escape.antt =====
-- The exceptions that no branch of `EventWorker.handle_message` (gtasks/event_queue/worker.py) catches.
use gtasks.Prelude.{ℕ, ◌≡◌, ◌≢◌, ◌≤◌, refl, String, false, Option, some, arith, ltb, ap, ◌∙◌}
use gtasks.Prelude.Exec.{Error, ok, err, contract_error, value_error}
use gtasks.EventQueue.Store.{pos}
use gtasks.EventQueue.Slug.{TextLibrary}
use gtasks.EventQueue.Handler.{Adapter}
use gtasks.EventQueue.Json.{Value, Fields, obj, str, int, get_field}
use gtasks.EventQueue.Contract.{
  Library, bad_key, parse_event, parse_header, exact_fields, envelope_fields, text_at, index,
  version_of, check_zone, object_of, max_event_bytes, job_applied_subject,
}
use gtasks.EventQueue.Registry.{resolve}
use gtasks.EventQueue.Worker.{
  Message, Site, after_parse, after_resolve, handle_message, safe_identity, registry,
}

module _ {State : Type 0} (adapter : Adapter State) (texts : TextLibrary) (lib : Library)
    (now : ℕ → ℕ) (claim_lease_seconds : ℕ) where
  -- An exception of the parser that is no ContractError.
  after_parse-escape :
      (message : Message) (e : Error) (x : Site State)
      → e ≢ contract_error
      → after_parse adapter texts lib now claim_lease_seconds message (err e) x ≡ (err e, x)
  unfolding after_parse
  after_parse-escape message contract_error x h = absurd (h refl)
  after_parse-escape message e x h = refl

fits : (size : ℕ) → size ≤ max_event_bytes → ltb max_event_bytes size ≡ false
fits size h = ground arith

index-get : (fs : Fields) (k : String) (v : Value) → get_field k fs ≡ some v → index fs k ≡ ok v
unfolding index
index-get fs k v h = rw (h, index) refl

check_zone-bad :
    (lib : Library) (z : String) → lib.zone_info z ≡ bad_key → check_zone lib z ≡ err value_error
unfolding check_zone
check_zone-bad lib z h = rw (h, check_zone) refl

module _ {State : Type 0} (adapter : Adapter State) (texts : TextLibrary) (lib : Library)
    (now : ℕ → ℕ) (claim_lease_seconds : ℕ) where
  resolved :
      (d : Option Value) (fs : Fields)
      → d ≡ some (obj fs)
      → get_field "event_type" fs ≡ some (str "job_applied")
      → get_field "schema_version" fs ≡ some (int (pos 1))
      → resolve
          (safe_identity d).event_type
          (safe_identity d).schema_version
          (registry adapter texts lib now claim_lease_seconds)
        ≡ ok tt
  unfolding safe_identity resolve registry
  resolved d fs e kind version = rw e (rw (kind, version) refl)

-- A header that names a time zone which `ZoneInfo` refuses as a key.
module _ (lib : Library) (fs : Fields) (subject zone_name : String) where
  abbrev pub HasBadZone : Type 0
  HasBadZone =
      (exact_fields envelope_fields fs ≡ ok tt)
      × (text_at lib fs "event_type" 64 ≡ ok "job_applied")
      × (get_field "schema_version" fs ≡ some (int (pos 1)))
      × (lib.show_int (pos 1) ≡ "1")
      × (subject ≡ job_applied_subject)
      × (text_at lib fs "timezone" 64 ≡ ok zone_name)
      × (lib.zone_info zone_name ≡ bad_key)

  bad_zone-header : HasBadZone → parse_header lib fs subject ≡ err value_error
  unfolding parse_header version_of
  bad_zone-header (exact, kind, version, shown, right, named, bad) =
      rw
        (
          kind,
          index-get fs "schema_version" (int (pos 1)) version,
          version_of,
          shown,
          right,
          named,
          check_zone-bad lib zone_name bad,
        )
        refl

  bad_zone-parse :
      (size : ℕ)
      → size ≤ max_event_bytes
      → HasBadZone
      → parse_event lib size (some (obj fs)) subject ≡ err value_error
  unfolding parse_event object_of
  bad_zone-parse size small h = rw (fits size small, h.0, bad_zone-header h) refl

-- A message of the registered type and version whose time zone is a key that `ZoneInfo` refuses with
-- ValueError, and whose other checks before it pass, makes `handle_message` raise that ValueError: the
-- store, the backend and the clock are untouched, and the broker is sent neither an ack nor a nak nor a
-- dead letter.
pub handle_message-bad_zone :
    {State : Type 0} (adapter : Adapter State) (texts : TextLibrary) (lib : Library) (now : ℕ → ℕ)
    (claim_lease_seconds : ℕ) (message : Message) (fs : Fields) (zone_name : String)
    (x : Site State)
    → message.decoded ≡ some (obj fs)
    → message.size ≤ max_event_bytes
    → get_field "event_type" fs ≡ some (str "job_applied")
    → HasBadZone lib fs message.subject zone_name
    → handle_message adapter texts lib now claim_lease_seconds message x ≡ (err value_error, x)
unfolding handle_message after_resolve
handle_message-bad_zone adapter texts lib now claim_lease_seconds message fs zone_name x decoded
      small kind bad =
    ap (λ r. after_resolve adapter texts lib now claim_lease_seconds message r x)
      (resolved adapter texts lib now claim_lease_seconds message.decoded fs decoded kind bad.2)
    ∙ ap (λ r. after_parse adapter texts lib now claim_lease_seconds message r x)
        (ap (λ d. parse_event lib message.size d message.subject) decoded
          ∙ bad_zone-parse lib fs message.subject zone_name message.size small bad)
    ∙ after_parse-escape adapter texts lib now claim_lease_seconds message value_error x (λ e. cc)
