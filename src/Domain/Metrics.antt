-- ===== src/Domain/Metrics.antt =====
-- gtasks/domain.py, `ProgressMetric` and `EventProgress`: `from_value` and `to_dict`. A rejection is a
-- DomainValidationError.
use Prim.Native.Char.{Char, code}
use Prim.Native.String.{count}
use gtasks.Prelude.{
  ℕ, ◌+◌, String, Bool, true, false, not, ◌&&◌, ◌||◌, Option, none, some, List, [], ◌∷◌, ◌==◌, leb,
  ltb, nat_eq, is_some, if◌then◌else◌,
}
use gtasks.Prelude.Exec.{Result, ok, err, domain_error}
use gtasks.Prelude.Checked.{◌>>=◌, ◌>>◌, fail_if}
use gtasks.Prelude.Tables.{length}
use gtasks.EventQueue.Store.{pos}
use gtasks.EventQueue.Json.{
  Value, Fields, Items, null, bool, int, str, arr, obj, nil, cons, field, end, get_field,
}
use gtasks.EventQueue.Memory.{frozen}

-- str.strip, and `date.fromisoformat(value[:10])` to the canonical text
pub record DomainLibrary : Type 0 where
  pub strip : String → String
  pub day_of : String → Option String

pub record ProgressMetric : Type 0 where
  pub kind : String
  pub label : Option String
  pub unit : String
  pub target : ℕ
  pub current : ℕ
  pub event_binding : Option String
  pub auto_complete : Bool
  pub task_day : Option String
  pub timezone : Option String

-- the fields of a metric in two parts, as `from_value` reads them
pub record Counts : Type 0 where
  pub kind : String
  pub label : Option String
  pub unit : String
  pub target : ℕ
  pub current : ℕ

pub record Timing : Type 0 where
  pub event_binding : Option String
  pub auto_complete : Bool
  pub task_day : Option String
  pub timezone : Option String

abbrev pub metric_of : Counts → Timing → ProgressMetric
metric_of c t = record {
  kind = c.kind;
  label = c.label;
  unit = c.unit;
  target = c.target;
  current = c.current;
  event_binding = t.event_binding;
  auto_complete = t.auto_complete;
  task_day = t.task_day;
  timezone = t.timezone;
}

pub record EventProgress : Type 0 where
  pub baseline_count : ℕ
  pub evidence_slugs : List String
  pub receipt_ids : List String

abbrev pub queue_timezone : String
queue_timezone = "America/Los_Angeles"

-- the classes [a-z] and [a-z0-9_]
abbrev is_lower : Char → Bool
is_lower c = leb b'a' (code c) && leb (code c) b'z'

abbrev is_machine_char : Char → Bool
is_machine_char c = is_lower c || (leb b'0' (code c) && leb (code c) b'9') || nat_eq (code c) b'_'

unfoldable pub all_machine : String → Bool
all_machine String.[] = true
all_machine (String.◌∷◌ c s) = is_machine_char c && all_machine s

-- re.fullmatch(r"[a-z][a-z0-9_]{0,63}", s)
unfoldable pub is_machine_label : String → Bool
is_machine_label String.[] = false
is_machine_label (String.◌∷◌ c s) = is_lower c && all_machine s && leb (count s) 63

-- `value.get("kind") != "count"`
unfoldable pub kind_of : Option Value → Result String
kind_of (some (str s)) = do fail_if (not (s == "count")) domain_error; ok "count"
kind_of _ = err domain_error

unfoldable pub unit_of : Option Value → Result String
unit_of (some (str s)) = do fail_if (not (is_machine_label s)) domain_error; ok s
unit_of _ = err domain_error

unfoldable pub target_of : Option Value → Result ℕ
target_of (some (int (pos n))) = do fail_if (nat_eq n 0) domain_error; ok n
target_of _ = err domain_error

unfoldable pub current_of : ℕ → Option Value → Result ℕ
current_of target (some (int (pos n))) = do fail_if (ltb target n) domain_error; ok n
current_of target _ = err domain_error

unfoldable pub binding_of : Option Value → Result (Option String)
binding_of none = ok none
binding_of (some null) = ok none
binding_of (some (str s)) = do fail_if (not (is_machine_label s)) domain_error; ok (some s)
binding_of _ = err domain_error

unfoldable pub flag_of : Option Value → Result Bool
flag_of (some (bool b)) = ok b
flag_of _ = err domain_error

-- `value in (None, "", "none")`
abbrev pub is_absent : Option Value → Bool
is_absent none = true
is_absent (some null) = true
is_absent (some (str s)) = (s == "") || (s == "none")
is_absent _ = false

abbrev pub is_queue_timezone : Option Value → Bool
is_queue_timezone (some (str s)) = s == queue_timezone
is_queue_timezone _ = false

-- the checks of the timing, and the time zone
unfoldable pub timezone_of :
    Option String → String → Bool → Option String → Option Value → Result (Option String)
timezone_of none unit auto day timezone = do
  fail_if (is_some day || not (is_absent timezone)) domain_error
  ok none
timezone_of (some binding) unit auto day timezone = do
  fail_if (not (is_some day)) domain_error
  fail_if (not (is_queue_timezone timezone)) domain_error
  fail_if ((binding == "job_applied") && (not (unit == "job_application") || not auto)) domain_error
  ok (some queue_timezone)

-- a list of texts that are not blank
abbrev pub with_item : String → Result (List String) → Result (List String)
with_item s (ok rest) = ok (s ∷ rest)
with_item s (err e) = err e

abbrev pub text_or_null : Option String → Value
text_or_null none = null
text_or_null (some s) = str s

abbrev pub items_of : List String → Items
items_of [] = nil
items_of (s ∷ ss) = cons (str s) (items_of ss)

-- `value.get("baseline_count", 0)`
unfoldable pub baseline_of : Option Value → Result ℕ
baseline_of none = ok 0
baseline_of (some (int (pos n))) = ok n
baseline_of _ = err domain_error

module _ (lib : DomainLibrary) where
  open lib use {strip, day_of}

  unfoldable pub label_of : Option Value → Result (Option String)
  label_of none = ok none
  label_of (some null) = ok none
  label_of (some (str s)) = do
    fail_if (strip s == "") domain_error
    fail_if (ltb 160 (count (strip s))) domain_error
    ok (some (strip s))
  label_of _ = err domain_error

  abbrev pub some_day : Option String → Result (Option String)
  some_day none = err domain_error
  some_day (some d) = ok (some d)

  -- `_optional_date`
  unfoldable pub optional_date : Option Value → Result (Option String)
  optional_date none = ok none
  optional_date (some null) = ok none
  optional_date (some (str s)) = if (s == "") || (s == "none") then ok none else some_day (day_of s)
  optional_date _ = err domain_error

  unfoldable pub counts_from : Fields → Result Counts
  counts_from value = do
    kind ← kind_of (get_field "kind" value)
    label ← label_of (get_field "label" value)
    unit ← unit_of (get_field "unit" value)
    target ← target_of (get_field "target" value)
    current ← current_of target (get_field "current" value)
    ok (record { kind = kind; label = label; unit = unit; target = target; current = current })

  unfoldable pub timing_from : String → Fields → Result Timing
  timing_from unit value = do
    event_binding ← binding_of (get_field "event_binding" value)
    auto_complete ← flag_of (get_field "auto_complete" value)
    fail_if (auto_complete && not (is_some event_binding)) domain_error
    task_day ← optional_date (get_field "task_day" value)
    timezone ← timezone_of event_binding unit auto_complete task_day (get_field "timezone" value)
    ok (record {
      event_binding = event_binding;
      auto_complete = auto_complete;
      task_day = task_day;
      timezone = timezone;
    })

  -- `from_value` of `ProgressMetric`
  unfoldable pub metric_from : Value → Result ProgressMetric
  metric_from (obj value) = do
    counts ← counts_from value
    timing ← timing_from counts.unit value
    ok (metric_of counts timing)
  metric_from _ = err domain_error

  abbrev pub nonblank_texts : Items → Result (List String)
  nonblank_texts nil = ok []
  nonblank_texts (cons (str s) vs) =
      let rest = nonblank_texts vs in if strip s == "" then err domain_error else with_item s rest
  nonblank_texts (cons _ vs) = err domain_error

  abbrev pub distinct_or_refuse : List String → Result (List String)
  distinct_or_refuse ss = do
    fail_if (not (nat_eq (length (frozen ss)) (length ss))) domain_error
    ok ss

  -- the checks of one of the two lists
  unfoldable pub texts_of : Option Value → Result (List String)
  texts_of (some (arr vs)) = do ss ← nonblank_texts vs; distinct_or_refuse ss
  texts_of _ = err domain_error

  unfoldable pub progress_from : Value → Result EventProgress
  progress_from (obj value) = do
    baseline_count ← baseline_of (get_field "baseline_count" value)
    evidence_slugs ← texts_of (get_field "evidence_slugs" value)
    receipt_ids ← texts_of (get_field "receipt_ids" value)
    fail_if (not (nat_eq (length evidence_slugs) (length receipt_ids))) domain_error
    ok (record {
      baseline_count = baseline_count;
      evidence_slugs = evidence_slugs;
      receipt_ids = receipt_ids;
    })
  progress_from _ = err domain_error

unfoldable pub metric_to_dict : ProgressMetric → Fields
metric_to_dict m = field "kind" (str m.kind) (
    field "label" (text_or_null m.label) (
      field "unit" (str m.unit) (
        field "target" (int (pos m.target)) (
          field "current" (int (pos m.current)) (
            field "event_binding" (text_or_null m.event_binding) (
              field "auto_complete" (bool m.auto_complete) (
                field "task_day" (text_or_null m.task_day)
                  (field "timezone" (text_or_null m.timezone) end))))))))

-- `derived_current`
abbrev pub derived_current : EventProgress → ℕ
derived_current p = p.baseline_count + length p.receipt_ids

unfoldable pub progress_to_dict : EventProgress → Fields
progress_to_dict p = field "evidence_slugs" (arr (items_of p.evidence_slugs)) (
    field "receipt_ids" (arr (items_of p.receipt_ids)) (
      if nat_eq p.baseline_count 0
      then end
      else field "baseline_count" (int (pos p.baseline_count)) end))
