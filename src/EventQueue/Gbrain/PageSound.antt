-- ===== src/EventQueue/Gbrain/PageSound.antt =====
-- What `_quota_task_from_page` (gtasks/event_queue/gbrain_adapter.py) accepts.
use gtasks.Prelude.{ℕ, ◌+◌, ◌≤◌, ◌<◌, ◌≡◌, refl, subst, arith, String, Bool, true, false, List}
use gtasks.Prelude.Exec.{Error, Result, ok, err}
use gtasks.Prelude.Checked.{fail_if, >>=-eq-ok}
use gtasks.Prelude.Tables.{length}
use gtasks.EventQueue.Json.{Fields, get_field}
use gtasks.EventQueue.Handler.{QuotaTaskState, policy_unit}
use gtasks.EventQueue.Memory.Counting.{TaskIsValid}
use gtasks.EventQueue.Gbrain.Calls.{PageLibrary, object_or, text_or}
use gtasks.EventQueue.Gbrain.Links.{LinkRecord}
use gtasks.EventQueue.Gbrain.QuotaPage.{
  QuotaMetric, QuotaProgress, numbers_of, checked_day, metric_of, progress_of, status_of,
  completed_at_of, quota_task_from_page, is_open, contract_invalid,
}

-- A task as a page may give it: counted, within its target, which is positive, in the unit of the policy, with
-- a receipt for each application, and active only in an open status.
pub record IsReadable (t : QuotaTaskState) : Type 0 where
  pub valid : TaskIsValid t
  pub positive : 0 < t.target
  pub in_unit : t.unit ≡ policy_unit
  pub paired : length t.evidence ≡ length t.receipt_ids
  pub active_open : t.active ≡ true → is_open t.status ≡ true

fail_if-ok : (b : Bool) (e : Error) {a : Unit {0}} → fail_if b e ≡ ok a → b ≡ false
fail_if-ok true e h = cc
fail_if-ok false e h = refl

numbers-bounds :
    (day : String) (fs : Fields) (m : QuotaMetric)
    → numbers_of day fs ≡ ok m
    → (0 < m.target) × (m.current ≤ m.target)
unfolding numbers_of
numbers-bounds day fs m h = ground arith

metric-bounds :
    (lib : PageLibrary) (fs : Fields) (m : QuotaMetric)
    → metric_of lib fs ≡ ok m
    → (0 < m.target) × (m.current ≤ m.target)
unfolding metric_of
metric-bounds lib fs m h =
    let (metric, e1, h1) =
      >>=-eq-ok (object_or contract_invalid (get_field "progress_metric" fs)) _ h in
    let (day, e2, h2) = >>=-eq-ok (checked_day lib metric) _ h1 in numbers-bounds day metric m h2

progress-counted :
    (current : ℕ) (fs : Fields) (p : QuotaProgress)
    → progress_of current fs ≡ ok p
    → (current ≡ p.baseline_count + length p.evidence) × (length p.evidence ≡ length p.receipt_ids)
unfolding progress_of
progress-counted current fs p h = ground arith

abbrev Readable : Result QuotaTaskState → Type 0
Readable (ok t) = IsReadable t
Readable (err e) = Unit

pub page-IsReadable :
    (lib : PageLibrary) (page : Fields) (links : List LinkRecord) (t : QuotaTaskState)
    → quota_task_from_page lib page links ≡ ok t
    → IsReadable t
unfolding quota_task_from_page
page-IsReadable lib page links t h =
    let (slug, e1, h1) = >>=-eq-ok (text_or contract_invalid (get_field "slug" page)) _ h in
    let (fs, e2, h2) = >>=-eq-ok (object_or contract_invalid (get_field "frontmatter" page)) _ h1 in
    let (m, e3, h3) = >>=-eq-ok (metric_of lib fs) _ h2 in
    let (p, e4, h4) = >>=-eq-ok (progress_of m.current fs) _ h3 in
    let (status, e5, h5) = >>=-eq-ok (status_of (get_field "status" fs)) _ h4 in
    let (at, e6, h6) = >>=-eq-ok (completed_at_of lib (get_field "completed_at" fs)) _ h5 in
    let bounds = metric-bounds lib fs m e3 in
    let counted = progress-counted m.current fs p e4 in
    subst Readable h6 (record {
      valid = record { counted = counted.0; bounded = bounds.1 };
      positive = bounds.0;
      in_unit = refl;
      paired = counted.1;
      active_open = λ a. ground arith;
    })
