-- ===== src/EventQueue/Tests/Parsing.antt =====
-- Runs of the event contract and of the application slug (gtasks/event_queue/contract.py, handler.py).
use gtasks.Prelude.{◌≡◌, ◌≤◌, refl, ◌⊎◌, List, is_some, String, true, false, some, []}
use gtasks.Prelude.Exec.{ok, err, value_error}
use gtasks.EventQueue.Store.{pos}
use gtasks.EventQueue.Json.{obj, keys, get_field}
use gtasks.EventQueue.Registry.{
  Entry, same_version, register, resolve, find_handler, resolve-register,
}
use gtasks.EventQueue.Contract.{
  zone, max_event_bytes, job_applied_subject, object_of, exact_fields, index, has_control,
  replace_z, version_of, text, text_at, timestamp, date, parse_source, parse_identity, check_url,
  parse_snapshot, plain_zone, check_local_date, parse_payload, check_zone, canonical_digest,
  parse_header, parse_body, parse_event,
}
use gtasks.EventQueue.Contract.Sound.{PartsSound, parse_event_sound}
use gtasks.EventQueue.Slug.{application_slug}
use gtasks.EventQueue.Tests.Samples.{plain, library, envelope, event}

application_slug_test :
    application_slug plain "linked in" "--42 / b" ≡ "applications/linked-in-42-b-0123456789ab"
unfolding application_slug
application_slug_test = refl

parse_event_test :
    parse_event library 700 (some (obj (envelope "UTC"))) job_applied_subject ≡ ok event
unfolding object_of exact_fields index has_control replace_z version_of text text_at timestamp date
    parse_source parse_identity check_url parse_snapshot plain_zone check_local_date parse_payload
    check_zone canonical_digest parse_header parse_body parse_event keys get_field
parse_event_test = refl

parse_event_sound_example :
    (700 ≤ max_event_bytes)
    × (job_applied_subject ≡ job_applied_subject)
    × (event.event_type ≡ "job_applied")
    × (same_version event.schema_version (pos 1) ≡ true)
    × (library.zone_info event.timezone ≡ zone)
    × PartsSound library event
parse_event_sound_example =
    parse_event_sound library 700 (some (obj (envelope "UTC"))) job_applied_subject event
      parse_event_test

abbrev handlers : List (Entry String)
unfolding register find_handler
handlers = (register "job_applied" (pos 1) "first" []).1

resolve-register_example :
    ((is_some (find_handler "job_applied" (pos 2) handlers) ≡ true)
      × (register "job_applied" (pos 2) "second" handlers ≡ (err value_error, handlers)))
    ⊎ ((is_some (find_handler "job_applied" (pos 2) handlers) ≡ false)
        × ((register "job_applied" (pos 2) "second" handlers).0 ≡ ok tt)
        × (resolve "job_applied" (pos 1) (register "job_applied" (pos 2) "second" handlers).1
            ≡ resolve "job_applied" (pos 1) handlers))
resolve-register_example =
    resolve-register "job_applied" "job_applied" (pos 2) (pos 1) "second" handlers
