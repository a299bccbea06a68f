-- ===== src/EventQueue/Gbrain/QuotaPage.antt =====
-- gtasks/event_queue/gbrain_adapter.py, `_quota_task_from_page`: the checks of a task's page. The failures are
-- values of `HandlerFailure`; a status or a completion time that is a list or an object cannot be looked up in
-- a set, and raises TypeError.
use Prim.Native.String.{count}
use gtasks.Prelude.{
  ℕ, ◌+◌, String, Bool, true, false, not, ◌&&◌, ◌||◌, Option, none, some, List, [], ◌∷◌, ◌==◌, ltb,
  nat_eq, if◌then◌else◌,
}
use gtasks.Prelude.Exec.{Error, Result, ok, err, handler_failure, type_error}
use gtasks.Prelude.Checked.{◌>>=◌, ◌>>◌, fail_if}
use gtasks.Prelude.Tables.{length, any_row}
use gtasks.Prelude.Sets.{subset}
use gtasks.EventQueue.Time.{Datetime}
use gtasks.EventQueue.Store.{pos}
use gtasks.EventQueue.Json.{
  Value, Fields, Items, null, bool, int, str, arr, obj, nil, cons, keys, get_field,
}
use gtasks.EventQueue.Contract.{replace_z}
use gtasks.EventQueue.Handler.{QuotaTaskState, policy_unit, policy_timezone}
use gtasks.EventQueue.Memory.{frozen}
use gtasks.EventQueue.Gbrain.Calls.{PageLibrary, object_or, text_or}
use gtasks.EventQueue.Gbrain.Links.{LinkRecord, is_link}

abbrev pub active_root : String
active_root = "collections/tonys-tasks"

abbrev pub policy_binding : String
policy_binding = "job_applied"

abbrev pub contract_invalid : Error
contract_invalid = handler_failure "quota_task_contract_invalid" true

abbrev pub progress_invalid : Error
progress_invalid = handler_failure "quota_progress_invalid" true

-- `value == text`
abbrev pub is_text : String → Option Value → Bool
is_text text (some (str s)) = s == text
is_text text _ = false

abbrev pub is_true : Option Value → Bool
is_true (some (bool b)) = b
is_true _ = false

-- a whole number that is not negative, and no bool
abbrev pub natural : Error → Option Value → Result ℕ
natural e (some (int (pos n))) = ok n
natural e _ = err e

-- required_metric_keys
abbrev pub metric_keys : List String
metric_keys =
    "kind" ∷ "unit" ∷ "target" ∷ "current" ∷ "event_binding" ∷ "auto_complete" ∷ "task_day"
    ∷ "timezone" ∷ []

-- a list of texts that are not empty
abbrev pub texts_or : Error → Items → Result (List String)
texts_or e nil = ok []
texts_or e (cons (str s) vs) = do fail_if (s == "") e; rest ← texts_or e vs; ok (s ∷ rest)
texts_or e (cons _ vs) = err e

abbrev pub list_or : Error → Option Value → Result (List String)
list_or e (some (arr vs)) = texts_or e vs
list_or e _ = err e

-- progress.get("baseline_count", 0)
abbrev pub baseline_of : Option Value → Result ℕ
baseline_of none = ok 0
baseline_of (some v) = natural progress_invalid (some v)

abbrev pub is_open : String → Bool
is_open s = (s == "planned") || (s == "active") || (s == "blocked")

unfoldable pub status_of : Option Value → Result String
status_of (some (str s)) = do
  fail_if (not (is_open s || (s == "completed") || (s == "cancelled"))) contract_invalid
  ok s
status_of (some (arr vs)) = err type_error
status_of (some (obj fs)) = err type_error
status_of _ = err contract_invalid

-- the fields of `progress_metric` and of `event_progress` that the state keeps
pub record QuotaMetric : Type 0 where
  pub day : String
  pub target : ℕ
  pub current : ℕ

pub record QuotaProgress : Type 0 where
  pub baseline_count : ℕ
  pub evidence : List String
  pub receipt_ids : List String

-- `current` is that of the metric
unfoldable pub progress_of : ℕ → Fields → Result QuotaProgress
progress_of current frontmatter = do
  progress ← object_or progress_invalid (get_field "event_progress" frontmatter)
  fail_if (not (subset ("evidence_slugs" ∷ "receipt_ids" ∷ []) (keys progress))) progress_invalid
  fail_if (not (subset (keys progress) ("baseline_count" ∷ "evidence_slugs" ∷ "receipt_ids" ∷ [])))
      progress_invalid
  raw_evidence ← list_or progress_invalid (get_field "evidence_slugs" progress)
  raw_receipts ← list_or progress_invalid (get_field "receipt_ids" progress)
  baseline_count ← baseline_of (get_field "baseline_count" progress)
  fail_if (not (nat_eq (length (frozen raw_evidence)) (length raw_evidence))) progress_invalid
  fail_if (not (nat_eq (length (frozen raw_receipts)) (length raw_receipts))) progress_invalid
  fail_if (not (nat_eq (length (frozen raw_evidence)) (length (frozen raw_receipts))))
      progress_invalid
  fail_if (not (nat_eq current (baseline_count + length (frozen raw_evidence)))) progress_invalid
  ok (record {
    baseline_count = baseline_count;
    evidence = frozen raw_evidence;
    receipt_ids = frozen raw_receipts;
  })

-- the numbers of the metric
unfoldable pub numbers_of : String → Fields → Result QuotaMetric
numbers_of day metric = do
  target ← natural contract_invalid (get_field "target" metric)
  fail_if (nat_eq target 0) contract_invalid
  current ← natural contract_invalid (get_field "current" metric)
  fail_if (ltb target current) contract_invalid
  ok (record { day = day; target = target; current = current })

module _ (lib : PageLibrary) where
  open lib use {strip, show, date_of, datetime_of}

  abbrev pub is_bad_label : Option Value → Bool
  is_bad_label none = false
  is_bad_label (some null) = false
  is_bad_label (some (str s)) = (strip s == "") || ltb 160 (count s)
  is_bad_label _ = true

  -- str(metric["task_day"]); the key has been seen to be there
  abbrev pub shown : Option Value → String
  shown none = "None"
  shown (some (str s)) = s
  shown (some v) = show v

  abbrev pub date_or : Error → Option String → Result String
  date_or e none = err e
  date_or e (some d) = ok d

  -- the checks of the metric but for its numbers, and its day
  unfoldable pub checked_day : Fields → Result String
  checked_day metric = do
    fail_if (not (subset metric_keys (keys metric))) contract_invalid
    fail_if (not (subset (keys metric) ("label" ∷ metric_keys))) contract_invalid
    fail_if (is_bad_label (get_field "label" metric)) contract_invalid
    day ← date_or contract_invalid (date_of (shown (get_field "task_day" metric)))
    fail_if (not (is_text "count" (get_field "kind" metric))) contract_invalid
    fail_if (not (is_text policy_unit (get_field "unit" metric))) contract_invalid
    fail_if (not (is_text policy_binding (get_field "event_binding" metric))) contract_invalid
    fail_if (not (is_true (get_field "auto_complete" metric))) contract_invalid
    fail_if (not (is_text policy_timezone (get_field "timezone" metric))) contract_invalid
    ok day

  unfoldable pub metric_of : Fields → Result QuotaMetric
  unfolding checked_day
  metric_of frontmatter = do
    metric ← object_or contract_invalid (get_field "progress_metric" frontmatter)
    day ← checked_day metric
    numbers_of day metric

  abbrev pub completion_or : Option Datetime → Result (Option Datetime)
  completion_or none = err contract_invalid
  completion_or (some t) = ok (some t)

  unfoldable pub completed_at_of : Option Value → Result (Option Datetime)
  completed_at_of none = ok none
  completed_at_of (some null) = ok none
  completed_at_of (some (str s)) =
      if (s == "") || (s == "none") then ok none else completion_or (datetime_of (replace_z s))
  completed_at_of (some (arr vs)) = err type_error
  completed_at_of (some (obj fs)) = err type_error
  completed_at_of _ = err contract_invalid

  unfoldable pub quota_task_from_page : Fields → List LinkRecord → Result QuotaTaskState
  unfolding metric_of progress_of status_of completed_at_of
  quota_task_from_page page links = do
    slug ← text_or contract_invalid (get_field "slug" page)
    frontmatter ← object_or contract_invalid (get_field "frontmatter" page)
    metric ← metric_of frontmatter
    progress ← progress_of metric.current frontmatter
    status ← status_of (get_field "status" frontmatter)
    completed_at ← completed_at_of (get_field "completed_at" frontmatter)
    ok (record {
      slug = slug;
      active =
          is_text "task" (get_field "type" page)
          && is_open status
          && any_row (is_link slug active_root "member_of") links;
      status = status;
      day = metric.day;
      unit = policy_unit;
      target = metric.target;
      baseline_count = progress.baseline_count;
      evidence = progress.evidence;
      receipt_ids = progress.receipt_ids;
      completed_count = metric.current;
      completed_at = completed_at;
    })
