-- ===== src/Domain/QueueMetric.antt =====
-- The metrics that gtasks/domain.py writes are what gtasks/event_queue/gbrain_adapter.py reads.
use gtasks.Prelude.{
  ℕ, ◌≡◌, refl, subst, arith, String, Bool, true, false, not, ◌&&◌, Option, none, some, ltb, nat_eq,
  is_some, eq_iff,
}
use gtasks.Prelude.Exec.{Result, ok, err, domain_error}
use gtasks.Prelude.Checked.{fail_if, >>=-eq-ok}
use gtasks.EventQueue.Json.{Value, Fields, null, bool, int, float, str, arr, obj, keys, get_field}
use gtasks.EventQueue.Gbrain.Calls.{PageLibrary}
use gtasks.EventQueue.Gbrain.QuotaPage.{metric_of, checked_day, numbers_of, is_bad_label}
use gtasks.Domain.Metrics.{
  DomainLibrary, ProgressMetric, Counts, Timing, metric_of as joined, counts_from, timing_from,
  queue_timezone, kind_of, unit_of, target_of, current_of, binding_of, flag_of, timezone_of,
  text_or_null, label_of, optional_date, metric_from, metric_to_dict,
}
use gtasks.Domain.Normal.{label_of-fits}

-- both sides strip alike, nothing is left of nothing, and the queue reads a day in its canonical text
pub record SharedLaws (lib : DomainLibrary) (pages : PageLibrary) : Type 0 where
  pub same_strip : (s : String) → pages.strip s ≡ lib.strip s
  pub strip_again : (s : String) → lib.strip (lib.strip s) ≡ lib.strip s
  pub strip_nothing : lib.strip "" ≡ ""
  pub same_day : (s d : String) → lib.day_of s ≡ some d → pages.date_of d ≡ some d

-- the two parts of a metric that the queue accepts, for the day
record IsCounted (pages : PageLibrary) (c : Counts) : Type 0 where
  is_count : c.kind ≡ "count"
  labelled : is_bad_label pages (some (text_or_null c.label)) ≡ false
  positive : nat_eq c.target 0 ≡ false
  within : ltb c.target c.current ≡ false

record IsTimed (pages : PageLibrary) (unit : String) (t : Timing) (d : String) : Type 0 where
  in_unit : unit ≡ "job_application"
  bound : t.event_binding ≡ some "job_applied"
  automatic : t.auto_complete ≡ true
  dated : t.task_day ≡ some d
  readable : pages.date_of d ≡ some d
  zoned : t.timezone ≡ some queue_timezone

checked_day-joined :
    (pages : PageLibrary) (c : Counts) (t : Timing) (d : String)
    → IsCounted pages c
    → IsTimed pages c.unit t d
    → checked_day pages (metric_to_dict (joined c t)) ≡ ok d
unfolding checked_day metric_to_dict get_field keys
checked_day-joined pages c t d q r =
    rw (q.labelled, r.dated, r.readable, q.is_count, r.in_unit, r.bound, r.automatic, r.zoned) refl

numbers_of-joined :
    (pages : PageLibrary) (c : Counts) (t : Timing) (d : String)
    → IsCounted pages c
    → numbers_of d (metric_to_dict (joined c t))
      ≡ ok (record { day = d; target = c.target; current = c.current })
unfolding numbers_of metric_to_dict get_field
numbers_of-joined pages c t d q = rw (q.positive, q.within) refl

kind_of-count : (v : Option Value) (k : String) → kind_of v ≡ ok k → k ≡ "count"
unfolding kind_of
kind_of-count v k h = ground arith

target_of-positive : (v : Option Value) (n : ℕ) → target_of v ≡ ok n → nat_eq n 0 ≡ false
unfolding target_of
target_of-positive v n h = ground arith

current_of-within : (t : ℕ) (v : Option Value) (n : ℕ) → current_of t v ≡ ok n → ltb t n ≡ false
unfolding current_of
current_of-within t v n h = ground arith

timezone_of-bound :
    (u : String) (auto : Bool) (day : Option String) (v : Option Value) (tz : Option String)
    → timezone_of (some "job_applied") u auto day v ≡ ok tz
    → (is_some day ≡ true) × (u ≡ "job_application") × (auto ≡ true) × (tz ≡ some queue_timezone)
unfolding timezone_of
timezone_of-bound u auto day v tz h =
    (ground arith, (eq_iff u "job_application").0 (ground arith), ground arith, ground arith)

module _ (lib : DomainLibrary) (pages : PageLibrary) (laws : SharedLaws lib pages) where
  label_of-good :
      (v : Option Value) (l : Option String)
      → label_of lib v ≡ ok l
      → is_bad_label pages (some (text_or_null l)) ≡ false
  unfolding label_of
  label_of-good v none h = refl
  label_of-good v (some s) h =
      let (stable, filled, short) = label_of-fits lib laws.strip_again v s h in
      rw (laws.same_strip s, stable, filled, short) refl

  optional_date-readable :
      (v : Option Value) (d : String) → optional_date lib v ≡ ok (some d) → pages.date_of d ≡ some d
  unfolding optional_date
  optional_date-readable (some (str s)) d h = laws.same_day s d (ground arith)
  optional_date-readable v d h = ground arith

  abbrev OkCounted : Result Counts → Type 0
  OkCounted (ok c) = IsCounted pages c
  OkCounted (err e) = Unit

  counts_from-IsCounted : (fs : Fields) (c : Counts) → counts_from lib fs ≡ ok c → IsCounted pages c
  unfolding counts_from
  counts_from-IsCounted fs c e =
      let (kind, e1, i1) = >>=-eq-ok (kind_of (get_field "kind" fs)) _ e in
      let (label, e2, i2) = >>=-eq-ok (label_of lib (get_field "label" fs)) _ i1 in
      let (unit, e3, i3) = >>=-eq-ok (unit_of (get_field "unit" fs)) _ i2 in
      let (target, e4, i4) = >>=-eq-ok (target_of (get_field "target" fs)) _ i3 in
      let (current, e5, i5) = >>=-eq-ok (current_of target (get_field "current" fs)) _ i4 in
      subst OkCounted i5 (record {
        is_count = kind_of-count (get_field "kind" fs) kind e1;
        labelled = label_of-good (get_field "label" fs) label e2;
        positive = target_of-positive (get_field "target" fs) target e4;
        within = current_of-within target (get_field "current" fs) current e5;
      })

  abbrev Timed : String → Timing → Type 0
  Timed unit t = t.event_binding ≡ some "job_applied" → (d : String) × IsTimed pages unit t d

  abbrev OkTimed : String → Result Timing → Type 0
  OkTimed unit (ok t) = Timed unit t
  OkTimed unit (err e) = Unit

  timed :
      (unit : String) (b : Option String) (auto : Bool) (day tz : Option String)
      (dv tv : Option Value)
      → optional_date lib dv ≡ ok day
      → timezone_of b unit auto day tv ≡ ok tz
      → Timed unit
          (record { event_binding = b; auto_complete = auto; task_day = day; timezone = tz })
  timed unit b auto none tz dv tv h k bound =
      let known =
        (timezone_of-bound unit auto none tv tz
          (subst (λ z. timezone_of z unit auto none tv ≡ ok tz) bound k)).0 in
      absurd (ground arith)
  timed unit b auto (some d) tz dv tv h k bound =
      let (known, in_unit, automatic, zoned) =
        timezone_of-bound unit auto (some d) tv tz
          (subst (λ z. timezone_of z unit auto (some d) tv ≡ ok tz) bound k) in
      (
        d,
        record {
          in_unit = in_unit;
          bound = bound;
          automatic = automatic;
          dated = refl;
          readable = optional_date-readable dv d h;
          zoned = zoned;
        },
      )

  timing_from-IsTimed :
      (unit : String) (fs : Fields) (t : Timing) → timing_from lib unit fs ≡ ok t → Timed unit t
  unfolding timing_from
  timing_from-IsTimed unit fs t e =
      let (b, e1, i1) = >>=-eq-ok (binding_of (get_field "event_binding" fs)) _ e in
      let (auto, e2, i2) = >>=-eq-ok (flag_of (get_field "auto_complete" fs)) _ i1 in
      let (u, e3, i3) = >>=-eq-ok (fail_if (auto && not (is_some b)) domain_error) _ i2 in
      let (day, e4, i4) = >>=-eq-ok (optional_date lib (get_field "task_day" fs)) _ i3 in
      let (tz, e5, i5) = >>=-eq-ok (timezone_of b unit auto day (get_field "timezone" fs)) _ i4 in
      subst (OkTimed unit) i5
        (timed unit b auto day tz (get_field "task_day" fs) (get_field "timezone" fs) e4 e5)

  abbrev MetricRead : Fields → ProgressMetric → Type 0
  MetricRead fm m =
      (d : String) × (m.task_day ≡ some d)
      × (metric_of pages fm ≡ ok (record { day = d; target = m.target; current = m.current }))

  abbrev Written : Fields → Result ProgressMetric → Type 0
  Written fm (ok m) =
      m.event_binding ≡ some "job_applied"
      → get_field "progress_metric" fm ≡ some (obj (metric_to_dict m))
      → MetricRead fm m
  Written fm (err e) = Unit

  metric_of-written :
      (fm : Fields) (c : Counts) (t : Timing) (d : String)
      → IsCounted pages c
      → IsTimed pages c.unit t d
      → get_field "progress_metric" fm ≡ some (obj (metric_to_dict (joined c t)))
      → metric_of pages fm ≡ ok (record { day = d; target = c.target; current = c.current })
  unfolding metric_of
  metric_of-written fm c t d q r at =
      rw (at, checked_day-joined pages c t d q r, numbers_of-joined pages c t d q) refl

  pub metric-Written :
      (v : Value) (m : ProgressMetric) (fm : Fields) → metric_from lib v ≡ ok m → Written fm (ok m)
  unfolding metric_from
  metric-Written (obj fs) m fm h =
      let (c, e, h1) = >>=-eq-ok (counts_from lib fs) _ h in
      let (t, e', h2) = >>=-eq-ok (timing_from lib c.unit fs) _ h1 in
      let q = counts_from-IsCounted fs c e in
      let written : Written fm (ok (joined c t)) = λ bound at.
        let (d, r) = timing_from-IsTimed c.unit fs t e' bound in
        (d, r.dated, metric_of-written fm c t d q r at) in
      subst (Written fm) h2 written
  metric-Written (arr _) m fm h = cc
  metric-Written (str _) m fm h = cc
  metric-Written (float _) m fm h = cc
  metric-Written (int _) m fm h = cc
  metric-Written (bool _) m fm h = cc
  metric-Written null m fm h = cc
