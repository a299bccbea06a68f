-- ===== src/EventQueue/Gbrain/Sound.antt =====
-- What the methods of `GBrainJobAppliedAdapter` (gtasks/event_queue/gbrain_adapter.py) return, whatever gbrain
-- answers.
use gtasks.Prelude.{
  ◌≡◌, subst, arith, inl, inr, String, true, List, [], ◌∷◌, ◌==◌, Bool-cases, eq_iff,
}
use gtasks.Prelude.Exec.{Result, ok, err, returned, returned_guard, handler_failure, pure, catch}
use gtasks.EventQueue.Time.{Datetime}
use gtasks.EventQueue.Json.{Value, obj}
use gtasks.EventQueue.Handler.{QuotaTaskState, Progress}
use gtasks.EventQueue.Gbrain.Calls.{Runner, PageLibrary, get_page}
use gtasks.EventQueue.Gbrain.Links.{links_from}
use gtasks.EventQueue.Gbrain.QuotaPage.{progress_invalid}
use gtasks.EventQueue.Gbrain.PageSound.{IsReadable, page-IsReadable}
use gtasks.EventQueue.Gbrain.{
  quota_task_of, get_quota_task, set_quota_progress, apply_added, failed_as, is_mismatch, minus,
  merged, merged_receipts, is_overfull, is_unmet, complete_current, complete_quota_task,
  is_uncompleted,
}

-- What a completion returns: a readable task that is completed.
pub record IsCompleted (t : QuotaTaskState) : Type 0 where
  pub readable : IsReadable t
  pub done : t.status ≡ "completed"

abbrev Readable : Result QuotaTaskState → Type 0
Readable (ok t) = IsReadable t
Readable (err e) = Unit

abbrev Completed : Result QuotaTaskState → Type 0
Completed (ok t) = IsCompleted t
Completed (err e) = Unit

module _ (lib : PageLibrary) {State : Type 0} (runner : Runner State) where
  task_of-IsReadable :
      (slug : String) (page : Value) (s : State) (t : QuotaTaskState)
      → (quota_task_of lib runner slug page s).0 ≡ ok t
      → IsReadable t
  task_of-IsReadable slug (obj page) s t h =
      let (links, e, h1) = returned (links_from runner slug) _ s h in
      page-IsReadable lib page links t h1
  task_of-IsReadable slug _ s t h = cc

  pub get_quota_task-IsReadable :
      (slug : String) (s : State) (t : QuotaTaskState)
      → (get_quota_task lib runner slug s).0 ≡ ok t
      → IsReadable t
  unfolding get_quota_task
  get_quota_task-IsReadable slug s t h =
      let (page, e, h1) = returned (runner.run (get_page slug)) _ s h in
      task_of-IsReadable slug page (runner.run (get_page slug) s).1 t h1

  added-IsReadable :
      (slug : String) (current : QuotaTaskState) (now : Datetime) (es rs : List String) (s : State)
      (t : QuotaTaskState)
      → IsReadable current
      → (apply_added lib runner slug current now es rs s).0 ≡ ok t
      → IsReadable t
  added-IsReadable slug current now [] [] s t v h = subst Readable h v
  added-IsReadable slug current now (e ∷ []) (r ∷ []) s t v h =
      let write =
        catch (runner.apply_task_progress_event slug e r now)
          (failed_as "quota_progress_write_failed") in
      let (u, w, h1) = returned write _ s h in get_quota_task-IsReadable slug (write s).1 t h1
  added-IsReadable slug current now [] (r ∷ rs) s t v h = cc
  added-IsReadable slug current now (e ∷ []) [] s t v h = cc
  added-IsReadable slug current now (e ∷ []) (r ∷ r' ∷ rs) s t v h = cc
  added-IsReadable slug current now (e ∷ e' ∷ es) rs s t v h = cc

  pub set_quota_progress-IsReadable :
      (slug : String) (p : Progress) (s : State) (t : QuotaTaskState)
      → (set_quota_progress lib runner slug p s).0 ≡ ok t
      → IsReadable t
  unfolding set_quota_progress
  set_quota_progress-IsReadable slug p s t h =
      let (current, e1, h1) = returned (get_quota_task lib runner slug) _ s h in
      let s1 : State = (get_quota_task lib runner slug s).1 in
      let (match, h2) =
        returned_guard (is_mismatch current p) (handler_failure "quota_task_contract_mismatch" true)
          _ s1 h1 in
      let (fits, h3) =
        returned_guard (is_overfull current p) progress_invalid
          (apply_added lib runner slug current p.occurred_at
            (minus (merged current p) current.evidence)
            (minus (merged_receipts current p) current.receipt_ids))
          s1 h2 in
      added-IsReadable slug current p.occurred_at (minus (merged current p) current.evidence)
        (minus (merged_receipts current p) current.receipt_ids) s1 t
        (get_quota_task-IsReadable slug s current e1) h3

  complete_current-IsCompleted :
      (slug : String) (at : Datetime) (current : QuotaTaskState) (s : State) (t : QuotaTaskState)
      → (complete_current lib runner slug at current s).0 ≡ ok t
      → IsCompleted t
  unfolding complete_current
  complete_current-IsCompleted slug at current s t h =
      let (met, h1) =
        returned_guard (is_unmet current) (handler_failure "quota_completion_invalid" true) _ s h in
      let write =
        catch (runner.set_task_status slug "completed" at) (failed_as "quota_completion_failed") in
      let (u, w, h2) = returned write _ s h1 in
      let s1 : State = (write s).1 in
      let (read, e3, h3) = returned (get_quota_task lib runner slug) _ s1 h2 in
      let s2 : State = (get_quota_task lib runner slug s1).1 in
      let (same, h4) =
        returned_guard (is_uncompleted current read at)
          (handler_failure "gbrain_completion_readback_mismatch" true) (pure read) s2 h3 in
      subst Completed h4 (record {
        readable = get_quota_task-IsReadable slug s1 read e3;
        done = ground (arith, eq_iff read.status "completed");
      })

  pub complete_quota_task-IsCompleted :
      (slug : String) (at : Datetime) (s : State) (t : QuotaTaskState)
      → (complete_quota_task lib runner slug at s).0 ≡ ok t
      → IsCompleted t
  unfolding complete_quota_task
  complete_quota_task-IsCompleted slug at s t h =
      let (current, e1, h1) = returned (get_quota_task lib runner slug) _ s h in
      let s1 : State = (get_quota_task lib runner slug s).1 in
      elim (Bool-cases (current.status == "completed")) [
        | inl done ↦ subst Completed (rw done at h1) (record {
          readable = get_quota_task-IsReadable slug s current e1;
          done = (eq_iff current.status "completed").0 done;
        })
        | inr open_ ↦ complete_current-IsCompleted slug at current s1 t (rw open_ at h1)
      ]
