-- ===== src/Domain/Tests.antt =====
-- Runs of the metrics and the progress of gtasks/domain.py.
use gtasks.Prelude.{
  ◌≡◌, refl, arith, eq_iff, String, true, none, some, [], ◌∷◌, ◌==◌, if◌then◌else◌,
}
use gtasks.Prelude.Exec.{ok}
use gtasks.EventQueue.Time.{aware}
use gtasks.EventQueue.Json.{Fields, obj, field, end, get_field}
use gtasks.EventQueue.Gbrain.Calls.{PageLibrary}
use gtasks.EventQueue.Gbrain.QuotaPage.{metric_of, progress_of}
use gtasks.Domain.Metrics.{
  DomainLibrary, ProgressMetric, EventProgress, is_machine_label, all_machine, kind_of, unit_of,
  target_of, current_of, binding_of, flag_of, timezone_of, label_of, optional_date, counts_from,
  timing_from, metric_from, baseline_of, texts_of, progress_from, metric_to_dict, progress_to_dict,
}
use gtasks.Domain.Normal.{DomainLaws, metric-normal, progress-normal}
use gtasks.Domain.QueueMetric.{SharedLaws}
use gtasks.Domain.Queue.{queue-reads}

-- a calendar of one day, and texts without blanks
abbrev library : DomainLibrary
library = record { strip = λ s. s; day_of = λ s. if s == "2026-08-01" then some s else none }

abbrev pages : PageLibrary
pages = record {
  strip = λ s. s;
  rstrip = λ s. s;
  rstrip_newlines = λ s. s;
  show = λ v. "value";
  dumps = λ v. "json";
  date_of = λ s. some s;
  datetime_of = λ s. some (aware 5);
  isoformat = λ t. "2026-08-01T00:00:00+00:00";
}

the_day : (s d : String) → library.day_of s ≡ some d → d ≡ "2026-08-01"
the_day s d h = ground (arith, eq_iff s "2026-08-01")

laws : DomainLaws library
laws = record {
  strip_strip = λ s. refl;
  day_again = λ s d h. rw (the_day s d h) refl;
  day_present = λ s d h. rw (the_day s d h) refl;
}

shared : SharedLaws library pages
shared = record {
  same_strip = λ s. refl;
  strip_again = λ s. refl;
  strip_nothing = refl;
  same_day = λ s d h. refl;
}

abbrev metric : ProgressMetric
metric = record {
  kind = "count";
  label = some "Applications";
  unit = "job_application";
  target = 5;
  current = 3;
  event_binding = some "job_applied";
  auto_complete = true;
  task_day = some "2026-08-01";
  timezone = some "America/Los_Angeles";
}

abbrev progress : EventProgress
progress = record {
  baseline_count = 2;
  evidence_slugs = "applications/a" ∷ [];
  receipt_ids = "e1" ∷ [];
}

metric_accepted : metric_from library (obj (metric_to_dict metric)) ≡ ok metric
unfolding metric_to_dict metric_from counts_from timing_from label_of optional_date kind_of unit_of
    target_of current_of binding_of flag_of timezone_of get_field is_machine_label all_machine
metric_accepted = refl

progress_accepted : progress_from library (obj (progress_to_dict progress)) ≡ ok progress
unfolding progress_to_dict progress_from baseline_of texts_of get_field
progress_accepted = refl

metric-normal_example : metric_from library (obj (metric_to_dict metric)) ≡ ok metric
metric-normal_example =
    metric-normal library laws (obj (metric_to_dict metric)) metric metric_accepted

progress-normal_example : progress_from library (obj (progress_to_dict progress)) ≡ ok progress
progress-normal_example =
    progress-normal library laws (obj (progress_to_dict progress)) progress progress_accepted

abbrev frontmatter : Fields
frontmatter =
    field "progress_metric" (obj (metric_to_dict metric))
      (field "event_progress" (obj (progress_to_dict progress)) end)

queue-reads_example :
    ((d : String) × (some "2026-08-01" ≡ some d)
      × (metric_of pages frontmatter ≡ ok (record { day = d; target = 5; current = 3 })))
    × (progress_of 3 frontmatter
        ≡ ok (record {
          baseline_count = 2;
          evidence = "applications/a" ∷ [];
          receipt_ids = "e1" ∷ [];
        }))
unfolding get_field
queue-reads_example =
    queue-reads library pages shared (obj (metric_to_dict metric)) (obj (progress_to_dict progress))
      metric progress frontmatter metric_accepted progress_accepted refl refl refl refl
