-- ===== src/EventQueue/Tests/Pages.antt =====
-- Runs of `GBrainJobAppliedAdapter` (gtasks/event_queue/gbrain_adapter.py) over a small gbrain.
use gtasks.Prelude.{ℕ, ◌+◌, ◌≡◌, refl, String, true, some, ◌==◌, if◌then◌else◌}
use gtasks.Prelude.Exec.{Exec, ok, other_error, raise}
use gtasks.EventQueue.Time.{aware}
use gtasks.EventQueue.Store.{pos}
use gtasks.EventQueue.Json.{
  keys, get_field, Fields, Items, Value, field, end, str, int, bool, null, obj, arr, cons, nil,
}
use gtasks.EventQueue.Slug.{application_slug}
use gtasks.EventQueue.Handler.{
  ApplicationRecord, JobAppliedEffect, record_of, handle, handle_active, write_progress,
  complete_if_met,
}
use gtasks.EventQueue.Memory.{same_task}
use gtasks.EventQueue.Gbrain.QuotaPage.{
  quota_task_from_page, metric_of, checked_day, numbers_of, progress_of, status_of, completed_at_of,
}
use gtasks.EventQueue.Worker.{explicit_task}
use gtasks.EventQueue.Gbrain.Calls.{
  Call, Runner, PageLibrary, get_page, get_links, put_page, add_link,
}
use gtasks.EventQueue.Gbrain.Links.{ensure_link, write_link, links_from, link_records}
use gtasks.EventQueue.Gbrain.Links.Again.{ensure_link-again}
use gtasks.EventQueue.Gbrain.ApplicationPage.{
  upsert_application, application_page_matches, application_frontmatter, fields_of,
}
use gtasks.EventQueue.Gbrain.Accounted.{IsAccounted, handle-gbrain}
use gtasks.EventQueue.Gbrain.{get_quota_task, set_quota_progress, verify}
use gtasks.EventQueue.Tests.Samples.{plain, event}

abbrev pages : PageLibrary
pages = record {
  strip = λ s. s;
  rstrip = λ s. s;
  rstrip_newlines = λ s. s;
  show = λ v. "value";
  dumps = λ v. "json";
  date_of = λ s. some s;
  datetime_of = λ s. some (aware 5);
  isoformat = λ t. "2026-08-01T00:00:00+00:00";
}

abbrev application : ApplicationRecord
application = record_of plain event

abbrev link : String → String → String → Value
link a b k = obj (
    field "from_slug" (str a) (
      field "to_slug" (str b) (field "link_type" (str k) (field "link_source" (str "gtasks") end))))

abbrev task_page : Fields
task_page = field "slug" (str explicit_task) (
    field "type" (str "task") (
      field "frontmatter"
        (obj (
          field "status" (str "active") (
            field "progress_metric"
              (obj (
                field "kind" (str "count") (
                  field "unit" (str "job_application") (
                    field "target" (int (pos 5)) (
                      field "current" (int (pos 3)) (
                        field "event_binding" (str "job_applied") (
                          field "auto_complete" (bool true) (
                            field "task_day" (str "2026-08-01")
                              (field "timezone" (str "America/Los_Angeles") end)))))))))
              (field "event_progress"
                (obj (
                  field "baseline_count" (int (pos 2)) (
                    field "evidence_slugs" (arr (cons (str application.slug) nil))
                      (field "receipt_ids" (arr (cons (str "e1") nil)) end))))
                end))))
        end))

abbrev application_page : Fields
application_page =
    field "frontmatter" (obj (fields_of (application_frontmatter pages application)))
      (field "compiled_truth" (str "text") end)

-- a gbrain with the two pages; its state is the links, which it lists for every page
abbrev answer : Call → Exec Items Value
answer (get_page slug) s =
    (ok (if slug == explicit_task then obj task_page else obj application_page), s)
answer (get_links slug) s = (ok (arr s), s)
answer (put_page slug content) s = (ok null, s)
answer (add_link a b k) s = (ok null, cons (link a b k) s)

abbrev small : Runner Items
small = record {
  run = answer;
  apply_task_progress_event = λ slug e r now. raise other_error;
  set_task_status = λ slug status now. raise other_error;
}

-- the same gbrain, with the number of pages that were put
abbrev counted : Call → Exec (Items × ℕ) Value
counted (put_page slug content) (s, n) = (ok null, (s, n + 1))
counted c (s, n) = ((answer c s).0, ((answer c s).1, n))

abbrev counting : Runner (Items × ℕ)
counting = record {
  run = counted;
  apply_task_progress_event = λ slug e r now. raise other_error;
  set_task_status = λ slug status now. raise other_error;
}

-- a page is put between the two calls
ensure_link-again_example :
    ensure_link counting "a" "b" "evidence_for" (cons (link "a" "b" "evidence_for") nil, 1)
    ≡ (ok tt, (cons (link "a" "b" "evidence_for") nil, 1))
ensure_link-again_example =
    ensure_link-again counting "a" "b" "evidence_for" (nil, 0)
      (cons (link "a" "b" "evidence_for") nil, 1) (λ slug s. refl)
      (unfold ensure_link write_link links_from link_records get_field in refl)
      (unfold ensure_link write_link links_from link_records get_field in refl)

abbrev at_work : Items
at_work = cons (link explicit_task "collections/tonys-tasks" "member_of") nil

abbrev replayed : JobAppliedEffect
replayed = record {
  application_slug = application.slug;
  task_slug = explicit_task;
  task_day = "2026-08-01";
  prior_progress = 3;
  resulting_progress = 3;
  verified_count = 1;
  baseline_count = 2;
  target = 5;
  disposition = "duplicate_noop";
}

handle-gbrain_example : IsAccounted replayed
handle-gbrain_example =
    handle-gbrain pages small plain explicit_task (aware 9) event at_work replayed (
      unfold handle handle_active write_progress complete_if_met get_quota_task set_quota_progress
        verify quota_task_from_page metric_of checked_day numbers_of progress_of status_of
        completed_at_of upsert_application application_page_matches application_frontmatter
        ensure_link links_from link_records get_field keys record_of application_slug same_task in
      refl)
