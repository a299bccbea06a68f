-- ===== src/Domain/Normal.antt =====
-- Reading back what `ProgressMetric.to_dict` and `EventProgress.to_dict` (gtasks/domain.py) write.
use Prim.Native.String.{count}
use gtasks.Prelude.{
  ℕ, ◌≡◌, refl, ap, ◌∙◌, subst, arith, String, Bool, true, false, not, ◌&&◌, ◌||◌, Option, none,
  some, List, [], ◌∷◌, ◌==◌, ltb, nat_eq, is_some, if◌then◌else◌,
}
use gtasks.Prelude.Exec.{Result, ok, err, domain_error}
use gtasks.Prelude.Checked.{fail_if, >>=-eq-ok}
use gtasks.Prelude.Tables.{length}
use gtasks.EventQueue.Store.{pos}
use gtasks.EventQueue.Json.{Value, Fields, Items, int, str, arr, obj, nil, cons, get_field}
use gtasks.Domain.Metrics.{
  DomainLibrary, ProgressMetric, EventProgress, queue_timezone, kind_of, unit_of, target_of,
  current_of, binding_of, flag_of, timezone_of, with_item, text_or_null, items_of, baseline_of,
  label_of, optional_date, Counts, Timing, metric_of, counts_from, timing_from, metric_from,
  nonblank_texts, distinct_or_refuse, texts_of, progress_from, metric_to_dict, progress_to_dict,
}

-- `strip` is idempotent, and a date in its canonical text is read as itself, and is neither "" nor "none".
pub record DomainLaws (lib : DomainLibrary) : Type 0 where
  pub strip_strip : (s : String) → lib.strip (lib.strip s) ≡ lib.strip s
  pub day_again : (s d : String) → lib.day_of s ≡ some d → lib.day_of d ≡ some d
  pub day_present : (s d : String) → lib.day_of s ≡ some d → ((d == "") || (d == "none")) ≡ false

kind_of-normal : (v : Option Value) (k : String) → kind_of v ≡ ok k → kind_of (some (str k)) ≡ ok k
unfolding kind_of
kind_of-normal v k h = let e : k ≡ "count" = ground arith in rw e refl

unit_of-normal : (v : Option Value) (s : String) → unit_of v ≡ ok s → unit_of (some (str s)) ≡ ok s
unfolding unit_of
unit_of-normal v s h = ground arith

target_of-normal :
    (v : Option Value) (n : ℕ) → target_of v ≡ ok n → target_of (some (int (pos n))) ≡ ok n
unfolding target_of
target_of-normal v n h = ground arith

current_of-normal :
    (t : ℕ) (v : Option Value) (n : ℕ)
    → current_of t v ≡ ok n
    → current_of t (some (int (pos n))) ≡ ok n
unfolding current_of
current_of-normal t v n h = ground arith

binding_of-normal :
    (v : Option Value) (b : Option String)
    → binding_of v ≡ ok b
    → binding_of (some (text_or_null b)) ≡ ok b
unfolding binding_of
binding_of-normal v none h = refl
binding_of-normal v (some s) h = ground arith

timezone_of-normal :
    (b : Option String) (u : String) (auto : Bool) (day : Option String) (v : Option Value)
    (tz : Option String)
    → timezone_of b u auto day v ≡ ok tz
    → timezone_of b u auto day (some (text_or_null tz)) ≡ ok tz
unfolding timezone_of
timezone_of-normal none u auto day v tz h = ground arith
timezone_of-normal (some b) u auto day v tz h =
    let e : tz ≡ some queue_timezone = ground arith in
    let wrong = (b == "job_applied") && (not (u == "job_application") || not auto) in
    let known : is_some day ≡ true = ground arith in
    let bound : wrong ≡ false = ground arith in rw (e, known, bound) refl

baseline_of-written :
    (p : EventProgress)
    → baseline_of (get_field "baseline_count" (progress_to_dict p)) ≡ ok p.baseline_count
unfolding baseline_of progress_to_dict get_field
baseline_of-written p = ground arith

module _ (lib : DomainLibrary) where
  -- a label that is accepted is stripped, not empty, and short
  pub label_of-fits :
      ((s : String) → lib.strip (lib.strip s) ≡ lib.strip s)
      → (v : Option Value) (s : String) → label_of lib v ≡ ok (some s)
      → (lib.strip s ≡ s) × ((s == "") ≡ false) × (ltb 160 (count s) ≡ false)
  unfolding label_of
  label_of-fits again (some (str t)) s h =
      let e : lib.strip t ≡ s = ground arith in
      (
        subst (λ z. lib.strip z ≡ z) e (again t),
        subst (λ z. (z == "") ≡ false) e (ground arith),
        subst (λ z. ltb 160 (count z) ≡ false) e (ground arith),
      )
  label_of-fits again v s h = absurd (ground arith)

  pub item_again :
      (s : String) (r : Result (List String)) (ss : List String)
      → (if lib.strip s == "" then err domain_error else with_item s r) ≡ ok ss
      → (rest : List String) × (r ≡ ok rest) × ((lib.strip s == "") ≡ false) × (ss ≡ s ∷ rest)
  item_again s (ok rest) ss h = (rest, refl, ground arith, ground arith)
  item_again s (err e) ss h = absurd (ground arith)

  pub distinct-same : (ts ss : List String) → distinct_or_refuse lib ts ≡ ok ss → ts ≡ ss
  distinct-same ts ss h = ground arith

module _ (lib : DomainLibrary) (laws : DomainLaws lib) where
  label_of-normal :
      (v : Option Value) (l : Option String)
      → label_of lib v ≡ ok l
      → label_of lib (some (text_or_null l)) ≡ ok l
  unfolding label_of
  label_of-normal v none h = refl
  label_of-normal v (some s) h =
      let (stable, filled, short) = label_of-fits lib laws.strip_strip v s h in
      rw (stable, filled, short) refl

  optional_date-normal :
      (v : Option Value) (d : Option String)
      → optional_date lib v ≡ ok d
      → optional_date lib (some (text_or_null d)) ≡ ok d
  unfolding optional_date
  optional_date-normal v none h = refl
  optional_date-normal (some (str t)) (some d) h =
      let e : lib.day_of t ≡ some d = ground arith in
      rw (laws.day_present t d e, laws.day_again t d e) refl
  optional_date-normal v (some d) h = ground arith

  texts-normal :
      (vs : Items) (ss : List String)
      → nonblank_texts lib vs ≡ ok ss
      → nonblank_texts lib (items_of ss) ≡ ok ss
  texts-normal nil ss h = let e : ss ≡ [] = ground arith in rw e refl
  texts-normal (cons (str s) vs) ss h =
      let (rest, e, filled, same) = item_again lib s (nonblank_texts lib vs) ss h in
      rw same (rw (filled, texts-normal vs rest e) refl)
  texts-normal (cons v vs) ss h = ground arith

  abbrev MetricNormal : Result ProgressMetric → Type 0
  MetricNormal (ok m) = metric_from lib (obj (metric_to_dict m)) ≡ ok m
  MetricNormal (err e) = Unit

  abbrev CountsNormal : Timing → Result Counts → Type 0
  CountsNormal t (ok c) = counts_from lib (metric_to_dict (metric_of c t)) ≡ ok c
  CountsNormal t (err e) = Unit

  abbrev TimingNormal : Counts → Result Timing → Type 0
  TimingNormal c (ok t) = timing_from lib c.unit (metric_to_dict (metric_of c t)) ≡ ok t
  TimingNormal c (err e) = Unit

  abbrev ProgressNormal : Result EventProgress → Type 0
  ProgressNormal (ok p) = progress_from lib (obj (progress_to_dict p)) ≡ ok p
  ProgressNormal (err e) = Unit

  texts_of-normal :
      (v : Option Value) (ss : List String)
      → texts_of lib v ≡ ok ss
      → texts_of lib (some (arr (items_of ss))) ≡ ok ss
  unfolding texts_of
  texts_of-normal (some (arr vs)) ss h =
      let (ts, e, h1) = >>=-eq-ok (nonblank_texts lib vs) _ h in
      let same : ts ≡ ss = distinct-same lib ts ss h1 in
      rw (texts-normal vs ss (e ∙ ap ok same))
        (subst (λ z. distinct_or_refuse lib z ≡ ok ss) same h1)
  texts_of-normal v ss h = ground arith

  counts-normal :
      (fs : Fields) (c : Counts) (t : Timing)
      → counts_from lib fs ≡ ok c
      → counts_from lib (metric_to_dict (metric_of c t)) ≡ ok c
  unfolding counts_from metric_to_dict get_field
  counts-normal fs c t h =
      let (kind, e1, h1) = >>=-eq-ok (kind_of (get_field "kind" fs)) _ h in
      let (label, e2, h2) = >>=-eq-ok (label_of lib (get_field "label" fs)) _ h1 in
      let (unit, e3, h3) = >>=-eq-ok (unit_of (get_field "unit" fs)) _ h2 in
      let (target, e4, h4) = >>=-eq-ok (target_of (get_field "target" fs)) _ h3 in
      let (current, e5, h5) = >>=-eq-ok (current_of target (get_field "current" fs)) _ h4 in
      subst (CountsNormal t) h5 (
        rw
          (
            kind_of-normal (get_field "kind" fs) kind e1,
            label_of-normal (get_field "label" fs) label e2,
            unit_of-normal (get_field "unit" fs) unit e3,
            target_of-normal (get_field "target" fs) target e4,
            current_of-normal target (get_field "current" fs) current e5,
          )
          refl)

  timing_written :
      (c : Counts) (t : Timing)
      → binding_of (some (text_or_null t.event_binding)) ≡ ok t.event_binding
      → fail_if (t.auto_complete && not (is_some t.event_binding)) domain_error ≡ ok tt
      → optional_date lib (some (text_or_null t.task_day)) ≡ ok t.task_day
      → timezone_of t.event_binding c.unit t.auto_complete t.task_day
          (some (text_or_null t.timezone))
        ≡ ok t.timezone
      → timing_from lib c.unit (metric_to_dict (metric_of c t)) ≡ ok t
  unfolding timing_from metric_to_dict get_field flag_of
  timing_written c t b f d z = rw (b, f, d, z) refl

  timing-normal :
      (fs : Fields) (c : Counts) (t : Timing)
      → timing_from lib c.unit fs ≡ ok t
      → timing_from lib c.unit (metric_to_dict (metric_of c t)) ≡ ok t
  unfolding timing_from
  timing-normal fs c t h =
      let (binding, e6, h6) = >>=-eq-ok (binding_of (get_field "event_binding" fs)) _ h in
      let (auto, e7, h7) = >>=-eq-ok (flag_of (get_field "auto_complete" fs)) _ h6 in
      let loose : Bool = auto && not (is_some binding) in
      let (u, e8, h8) = >>=-eq-ok (fail_if loose domain_error) _ h7 in
      let (day, e9, h9) = >>=-eq-ok (optional_date lib (get_field "task_day" fs)) _ h8 in
      let (zone, e10, h10) =
        >>=-eq-ok (timezone_of binding c.unit auto day (get_field "timezone" fs)) _ h9 in
      subst (TimingNormal c) h10 (
        timing_written c
          (record {
            event_binding = binding;
            auto_complete = auto;
            task_day = day;
            timezone = zone;
          })
          (binding_of-normal (get_field "event_binding" fs) binding e6) e8
          (optional_date-normal (get_field "task_day" fs) day e9)
          (timezone_of-normal binding c.unit auto day (get_field "timezone" fs) zone e10))

  -- Normal form. Whatever metric `ProgressMetric.from_value` accepts, its dict is read back as the same metric.
  pub metric-normal :
      (v : Value) (m : ProgressMetric)
      → metric_from lib v ≡ ok m
      → metric_from lib (obj (metric_to_dict m)) ≡ ok m
  unfolding metric_from
  metric-normal (obj fs) m h =
      let (c, e1, h1) = >>=-eq-ok (counts_from lib fs) _ h in
      let (t, e2, h2) = >>=-eq-ok (timing_from lib c.unit fs) _ h1 in
      subst MetricNormal h2 (rw (counts-normal fs c t e1, timing-normal fs c t e2) refl)
  metric-normal v m h = ground arith

  -- Normal form. Whatever progress `EventProgress.from_value` accepts, its dict is read back as the same progress.
  pub progress-normal :
      (v : Value) (p : EventProgress)
      → progress_from lib v ≡ ok p
      → progress_from lib (obj (progress_to_dict p)) ≡ ok p
  unfolding progress_from progress_to_dict get_field
  progress-normal (obj fs) p h =
      let (baseline, e1, h1) = >>=-eq-ok (baseline_of (get_field "baseline_count" fs)) _ h in
      let (evidence, e2, h2) = >>=-eq-ok (texts_of lib (get_field "evidence_slugs" fs)) _ h1 in
      let (receipts, e3, h3) = >>=-eq-ok (texts_of lib (get_field "receipt_ids" fs)) _ h2 in
      let unpaired : Bool = not (nat_eq (length evidence) (length receipts)) in
      let (u, e4, h4) = >>=-eq-ok (fail_if unpaired domain_error) _ h3 in
      let written : EventProgress = record {
        baseline_count = baseline;
        evidence_slugs = evidence;
        receipt_ids = receipts;
      } in
      subst ProgressNormal h4 (
        rw
          (
            baseline_of-written written,
            texts_of-normal (get_field "evidence_slugs" fs) evidence e2,
            texts_of-normal (get_field "receipt_ids" fs) receipts e3,
            e4,
          )
          refl)
  progress-normal v p h = ground arith
