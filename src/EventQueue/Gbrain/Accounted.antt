-- ===== src/EventQueue/Gbrain/Accounted.antt =====
-- The effects of `JobAppliedHandler` (gtasks/event_queue/handler.py) over an adapter whose tasks can be relied on,
-- such as `GBrainJobAppliedAdapter` (gtasks/event_queue/gbrain_adapter.py).
use gtasks.Prelude.{
  ◌+◌, ◌≤◌, ◌<◌, ◌≡◌, subst, arith, inl, inr, String, true, not, ◌&&◌, ◌||◌, ◌==◌, leb, ltb, nat_eq,
  if◌then◌else◌, Bool-cases,
}
use gtasks.Prelude.Exec.{Result, ok, err, returned, returned_guard, handler_failure, pure}
use gtasks.Prelude.Sets.{member}
use gtasks.EventQueue.Time.{Datetime}
use gtasks.EventQueue.Event.{JobAppliedV1}
use gtasks.EventQueue.Slug.{TextLibrary}
use gtasks.EventQueue.Handler.{
  QuotaTaskState, ApplicationRecord, JobAppliedEffect, Progress, Adapter, handle, handle_active,
  handle_inactive, refuse_full, write_progress, complete_if_met, intended_progress, record_of,
  exact_completed_replay, duplicate_effect, effect_of, policy_unit, is_naive,
}
use gtasks.EventQueue.Gbrain.Calls.{Runner, PageLibrary}
use gtasks.EventQueue.Gbrain.PageSound.{IsReadable}
use gtasks.EventQueue.Gbrain.Sound.{
  get_quota_task-IsReadable, set_quota_progress-IsReadable, complete_quota_task-IsCompleted,
}
use gtasks.EventQueue.Gbrain.{gbrain_adapter}

-- the verified receipts and the baseline make up the progress, which is within a positive target
pub record IsAccounted (e : JobAppliedEffect) : Type 0 where
  pub counted : e.resulting_progress ≡ e.baseline_count + e.verified_count
  pub bounded : e.resulting_progress ≤ e.target
  pub positive : 0 < e.target

-- an adapter all of whose tasks are readable
pub record IsReliable {State : Type 0} (adapter : Adapter State) : Type 0 where
  pub reads :
      (slug : String) (s : State) (t : QuotaTaskState)
      → (adapter.get_quota_task slug s).0 ≡ ok t
      → IsReadable t
  pub progresses :
      (slug : String) (p : Progress) (s : State) (t : QuotaTaskState)
      → (adapter.set_quota_progress slug p s).0 ≡ ok t
      → IsReadable t
  pub completes :
      (slug : String) (at : Datetime) (s : State) (t : QuotaTaskState)
      → (adapter.complete_quota_task slug at s).0 ≡ ok t
      → IsReadable t

abbrev Accounted : Result JobAppliedEffect → Type 0
Accounted (ok e) = IsAccounted e
Accounted (err e) = Unit

abbrev Readable : Result QuotaTaskState → Type 0
Readable (ok t) = IsReadable t
Readable (err e) = Unit

duplicate-IsAccounted :
    (r : ApplicationRecord) (t : QuotaTaskState) → IsReadable t → IsAccounted (duplicate_effect r t)
duplicate-IsAccounted r t v = record {
  counted = omega (arith, v.valid.counted, v.paired);
  bounded = v.valid.bounded;
  positive = v.positive;
}

effect-IsAccounted :
    (r : ApplicationRecord) (task t : QuotaTaskState)
    → IsReadable t
    → IsAccounted (effect_of r task t)
effect-IsAccounted r task t v = record {
  counted = omega (arith, v.valid.counted, v.paired);
  bounded = v.valid.bounded;
  positive = v.positive;
}

module _ {State : Type 0} (adapter : Adapter State) (reliable : IsReliable adapter) where
  inactive-IsAccounted :
      (r : ApplicationRecord) (task : QuotaTaskState) (s : State) (e : JobAppliedEffect)
      → IsReadable task
      → (handle_inactive adapter r task s).0 ≡ ok e
      → IsAccounted e
  unfolding handle_inactive
  inactive-IsAccounted r task s e v h =
      let (replay, h1) =
        returned_guard (not (exact_completed_replay r task))
          (handler_failure "quota_task_not_active" true) _ s h in
      let (u, e2, h2) = returned (adapter.verify r task) _ s h1 in
      subst Accounted h2 (duplicate-IsAccounted r task v)

  met-IsReadable :
      (task : QuotaTaskState) (now : Datetime) (s : State) (t : QuotaTaskState)
      → IsReadable task
      → (complete_if_met adapter task now s).0 ≡ ok t
      → IsReadable t
  unfolding complete_if_met
  met-IsReadable task now s t v h = elim (Bool-cases (nat_eq task.completed_count task.target)) [
    | inl met ↦ reliable.completes task.slug now s t (rw met at h)
    | inr short ↦ subst Readable (rw short at h) v
  ]

  write-IsAccounted :
      (r : ApplicationRecord) (task : QuotaTaskState) (now : Datetime) (s : State)
      (e : JobAppliedEffect)
      → (write_progress adapter r task now s).0 ≡ ok e
      → IsAccounted e
  unfolding write_progress
  write-IsAccounted r task now s e h =
      let (u, e1, h1) = returned (adapter.upsert_application r) _ s h in
      let s1 : State = (adapter.upsert_application r s).1 in
      let forward = adapter.ensure_link r.slug task.slug "evidence_for" in
      let (u2, e2, h2) = returned forward _ s1 h1 in
      let s2 : State = (forward s1).1 in
      let reverse = adapter.ensure_link task.slug r.slug "has_evidence" in
      let (u3, e3, h3) = returned reverse _ s2 h2 in
      let s3 : State = (reverse s2).1 in
      let set = adapter.set_quota_progress task.slug (intended_progress r task now) in
      let (progressed, e4, h4) = returned set _ s3 h3 in
      let s4 : State = (set s3).1 in
      let (intended, e5, h5) = returned (complete_if_met adapter progressed now) _ s4 h4 in
      let s5 : State = (complete_if_met adapter progressed now s4).1 in
      let (u6, e6, h6) = returned (adapter.verify r intended) _ s5 h5 in
      let v = reliable.progresses task.slug (intended_progress r task now) s3 progressed e4 in
      subst Accounted h6
        (effect-IsAccounted r task intended (met-IsReadable progressed now s4 intended v e5))

  active-IsAccounted :
      (r : ApplicationRecord) (task : QuotaTaskState) (now : Datetime) (s : State)
      (e : JobAppliedEffect)
      → (handle_active adapter r task now s).0 ≡ ok e
      → IsAccounted e
  unfolding handle_active
  active-IsAccounted r task now s e h =
      let (within, h1) =
        returned_guard (ltb task.target task.completed_count)
          (handler_failure "quota_progress_invalid" true) _ s h in
      let full = leb task.target task.completed_count && not (member r.slug task.evidence) in
      let room = if full then refuse_full adapter task now else pure tt in
      let (u, e2, h2) = returned room _ s h1 in write-IsAccounted r task now (room s).1 e h2

  handle-IsAccounted :
      (texts : TextLibrary) (slug : String) (now : Datetime) (event : JobAppliedV1) (s : State)
      (e : JobAppliedEffect)
      → (handle adapter texts slug now event s).0 ≡ ok e
      → IsAccounted e
  unfolding handle
  handle-IsAccounted texts slug now event s e h =
      let (aware, h1) =
        returned_guard (is_naive now) (handler_failure "quota_clock_invalid" true) _ s h in
      let (task, e2, h2) = returned (adapter.get_quota_task slug) _ s h1 in
      let s2 : State = (adapter.get_quota_task slug s).1 in
      let v = reliable.reads slug s task e2 in
      let (fits, h3) =
        returned_guard (not (task.unit == policy_unit) || leb task.target 0)
          (handler_failure "quota_task_contract_invalid" true) _ s2 h2 in
      elim (Bool-cases task.active) [
        | inl active ↦ active-IsAccounted (record_of texts event) task now s2 e (rw active at h3)
        | inr inactive ↦
            inactive-IsAccounted (record_of texts event) task s2 e v (rw inactive at h3)
      ]

gbrain-IsReliable :
    (lib : PageLibrary) {State : Type 0} (runner : Runner State)
    → IsReliable (gbrain_adapter lib runner)
gbrain-IsReliable lib runner = record {
  reads = get_quota_task-IsReadable lib runner;
  progresses = set_quota_progress-IsReadable lib runner;
  completes = λ slug at s t h. (complete_quota_task-IsCompleted lib runner slug at s t h).readable;
}

-- Whatever gbrain answers to the adapter, an event that the handler does not refuse has an effect that is accounted
-- for: the resulting progress is the baseline and one for each verified receipt, and it is at most the target,
-- which is positive.
pub handle-gbrain :
    (lib : PageLibrary) {State : Type 0} (runner : Runner State) (texts : TextLibrary)
    (slug : String) (now : Datetime) (event : JobAppliedV1) (s : State) (e : JobAppliedEffect)
    → (handle (gbrain_adapter lib runner) texts slug now event s).0 ≡ ok e
    → IsAccounted e
handle-gbrain lib runner =
    handle-IsAccounted (gbrain_adapter lib runner) (gbrain-IsReliable lib runner)
