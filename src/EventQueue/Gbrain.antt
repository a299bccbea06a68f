-- ===== src/EventQueue/Gbrain.antt =====
-- gtasks/event_queue/gbrain_adapter.py, `GBrainJobAppliedAdapter`: the adapter of the quota handler over the pages
-- and links of gbrain, which reads back what it wrote. Every answer of gbrain is taken as it comes.
pub mod Calls
pub mod Links
pub mod QuotaPage
pub mod ApplicationPage
pub mod PageSound
pub mod Sound
pub mod Accounted
use gtasks.Prelude.{
  ℕ, ◌+◌, String, Bool, true, false, not, ◌&&◌, ◌||◌, Option, none, some, List, [], ◌∷◌, ◌++◌, ◌==◌,
  ltb, nat_eq, if◌then◌else◌,
}
use gtasks.Prelude.Exec.{
  Exec, Error, handler_failure, pure, raise, raise_if, lift, catch, ◌>>=◌, ◌>>◌,
}
use gtasks.Prelude.Tables.{length}
use gtasks.Prelude.Sets.{member, set_eq}
use gtasks.EventQueue.Time.{Datetime}
use gtasks.EventQueue.Json.{Value, str, obj}
use gtasks.EventQueue.Handler.{QuotaTaskState, ApplicationRecord, Progress, Adapter}
use gtasks.EventQueue.Memory.{frozen, same_task, same_completion}
use gtasks.EventQueue.Gbrain.Calls.{Runner, PageLibrary, get_page}
use gtasks.EventQueue.Gbrain.Links.{
  LinkRecord, links_from, matching, is_single, is_own_or_unsourced, ensure_link,
}
use gtasks.EventQueue.Gbrain.QuotaPage.{quota_task_from_page, progress_invalid}
use gtasks.EventQueue.Gbrain.ApplicationPage.{
  application_page_matches, application_mismatch, upsert_application,
}

-- xs - ys
abbrev pub minus : List String → List String → List String
minus [] ys = []
minus (x ∷ xs) ys = let rest = minus xs ys in if member x ys then rest else x ∷ rest

abbrev pub is_mismatch : QuotaTaskState → Progress → Bool
is_mismatch current p =
    not (current.day == p.day)
    || not (current.unit == p.unit)
    || not (nat_eq current.target p.target)
    || not current.active
    || not (nat_eq (length p.evidence) (length p.receipt_ids))

-- `except Exception`, whatever was raised
abbrev pub failed_as : {State : Type 0} → String → Error → Exec State (Unit {0})
failed_as code e = raise (handler_failure code true)

abbrev pub merged : QuotaTaskState → Progress → List String
merged current p = frozen (current.evidence ++ p.evidence)

abbrev pub merged_receipts : QuotaTaskState → Progress → List String
merged_receipts current p = frozen (current.receipt_ids ++ p.receipt_ids)

abbrev pub is_overfull : QuotaTaskState → Progress → Bool
is_overfull current p =
    not (nat_eq (length (merged current p)) (length (merged_receipts current p)))
    || ltb p.target (current.baseline_count + length (merged current p))

abbrev pub is_unmet : QuotaTaskState → Bool
is_unmet current = not current.active || not (nat_eq current.completed_count current.target)

abbrev pub is_uncompleted : QuotaTaskState → QuotaTaskState → Datetime → Bool
is_uncompleted current completed completed_at =
    not (completed.status == "completed")
    || completed.active
    || not (same_completion completed.completed_at (some completed_at))
    || not (set_eq completed.evidence current.evidence)
    || not (set_eq completed.receipt_ids current.receipt_ids)

module _ (lib : PageLibrary) {State : Type 0} (runner : Runner State) where
  abbrev pub quota_task_of : String → Value → Exec State QuotaTaskState
  quota_task_of slug (obj page) = do
    links ← links_from runner slug
    lift (quota_task_from_page lib page links)
  quota_task_of slug _ = raise (handler_failure "quota_task_missing" true)

  unfoldable pub get_quota_task : String → Exec State QuotaTaskState
  get_quota_task slug = do page ← runner.run (get_page slug); quota_task_of slug page

  -- the write of one application and one receipt; nothing to write leaves the task as it is
  abbrev pub apply_added :
      String → QuotaTaskState → Datetime → List String → List String → Exec State QuotaTaskState
  apply_added slug current now [] [] = pure current
  apply_added slug current now (e ∷ []) (r ∷ []) = do
    catch (runner.apply_task_progress_event slug e r now) (failed_as "quota_progress_write_failed")
    get_quota_task slug
  apply_added slug current now _ _ = raise progress_invalid

  unfoldable pub set_quota_progress : String → Progress → Exec State QuotaTaskState
  unfolding get_quota_task
  set_quota_progress slug p = do
    current ← get_quota_task slug
    raise_if (is_mismatch current p) (handler_failure "quota_task_contract_mismatch" true)
    raise_if (is_overfull current p) progress_invalid
    apply_added slug current p.occurred_at (minus (merged current p) current.evidence)
        (minus (merged_receipts current p) current.receipt_ids)

  -- the completion of a task that is not completed
  unfoldable pub complete_current : String → Datetime → QuotaTaskState → Exec State QuotaTaskState
  unfolding get_quota_task
  complete_current slug completed_at current = do
    raise_if (is_unmet current) (handler_failure "quota_completion_invalid" true)
    catch (runner.set_task_status slug "completed" completed_at)
        (failed_as "quota_completion_failed")
    completed ← get_quota_task slug
    raise_if (is_uncompleted current completed completed_at)
        (handler_failure "gbrain_completion_readback_mismatch" true)
    pure completed

  unfoldable pub complete_quota_task : String → Datetime → Exec State QuotaTaskState
  unfolding get_quota_task complete_current
  complete_quota_task slug completed_at = do
    current ← get_quota_task slug
    if current.status == "completed"
        then pure current
        else complete_current slug completed_at current

  unfoldable pub verify : ApplicationRecord → QuotaTaskState → Exec State (Unit {0})
  unfolding get_quota_task
  verify r task = do
    page ← runner.run (get_page r.slug)
    raise_if (not (application_page_matches lib page r)) application_mismatch
    application_links ← links_from runner r.slug
    task_links ← links_from runner task.slug
    raise_if
        (not (
          is_single is_own_or_unsourced
            (matching r.slug task.slug "evidence_for" application_links)))
        (handler_failure "gbrain_forward_link_missing" true)
    raise_if
        (not (is_single is_own_or_unsourced (matching task.slug r.slug "has_evidence" task_links)))
        (handler_failure "gbrain_reverse_link_missing" true)
    readback ← get_quota_task task.slug
    raise_if (not (same_task readback task))
        (handler_failure "gbrain_progress_readback_mismatch" true)

  abbrev pub gbrain_adapter : Adapter State
  gbrain_adapter = record {
    get_quota_task = get_quota_task;
    upsert_application = upsert_application lib runner;
    ensure_link = ensure_link runner;
    set_quota_progress = set_quota_progress;
    complete_quota_task = complete_quota_task;
    verify = verify;
  }
