-- ===== src/Handoff/Agreement.antt =====
-- Which tasks `validate_task_handoff` (gtasks/handoff.py) accepts.
use mathlib.Core.Logic.{◌↔◌}
use gtasks.Prelude.{
  ◌≡◌, refl, ap, arith, String, Bool, true, false, not, Option, none, some, ◌==◌, eq_iff,
}
use gtasks.Prelude.Exec.{Result, ok, domain_error}
use gtasks.Prelude.Checked.{◌>>◌, fail_if}
use gtasks.Handoff.{
  HandoffLibrary, TaskHandoff, HandoffState, HandedTask, waiting_for_input, ready_for_agent,
  agent_working, same_owner, blocks, validate_state, validate_handoff, validate_task_handoff,
}

-- the status and the work that a state asks of its task
abbrev pub StateAgrees : HandoffLibrary → HandedTask → TaskHandoff → HandoffState → Type 0
StateAgrees lib task h waiting_for_input =
    (task.status ≡ "blocked") × (blocks h.waiting_on task.blockers ≡ true)
StateAgrees lib task h ready_for_agent =
    (task.status ≡ "active") × (lib.strip task.next_action ≡ h.resume_action)
StateAgrees lib task h agent_working =
    (task.status ≡ "active") × (lib.strip task.next_action ≡ h.resume_action)

abbrev pub Agrees : HandoffLibrary → HandedTask → Option TaskHandoff → Type 0
Agrees lib task none = Unit
Agrees lib task (some h) = (task.owner_agent ≡ some h.resume_owner) × StateAgrees lib task h h.state

same_owner_iff : (o : Option String) (s : String) → (same_owner o s ≡ true) ↔ (o ≡ some s)
same_owner_iff none s = (λ h. cc, λ h. cc)
same_owner_iff (some t) s = (λ h. ap some ((eq_iff t s).0 h), λ h. ground (arith, eq_iff t s))

two_checks :
    (a b : Bool)
    → ((fail_if (not a) domain_error >> (fail_if (not b) domain_error >> ok tt)) ≡ ok tt)
      ↔ ((a ≡ true) × (b ≡ true))
two_checks true true = (λ h. (refl, refl), λ h. refl)
two_checks true false = (λ h. cc, λ h. cc)
two_checks false b = (λ h. cc, λ h. cc)

module _ (lib : HandoffLibrary) where
  active_iff :
      (task : HandedTask) (h : TaskHandoff)
      → (validate_state lib task h ready_for_agent ≡ ok tt) ↔ StateAgrees lib task h ready_for_agent
  unfolding validate_state
  active_iff task h =
      let checks =
        two_checks (task.status == "active") (lib.strip task.next_action == h.resume_action) in
      let same = eq_iff (lib.strip task.next_action) h.resume_action in
      (
        λ e. ((eq_iff task.status "active").0 (checks.0 e).0, same.0 (checks.0 e).1),
        λ e. checks.1 ((eq_iff task.status "active").1 e.0, same.1 e.1),
      )

  state_iff :
      (task : HandedTask) (h : TaskHandoff) (st : HandoffState)
      → (validate_state lib task h st ≡ ok tt) ↔ StateAgrees lib task h st
  unfolding validate_state
  state_iff task h waiting_for_input =
      let checks = two_checks (task.status == "blocked") (blocks h.waiting_on task.blockers) in
      (
        λ e. ((eq_iff task.status "blocked").0 (checks.0 e).0, (checks.0 e).1),
        λ e. checks.1 ((eq_iff task.status "blocked").1 e.0, e.1),
      )
  state_iff task h ready_for_agent = active_iff task h
  state_iff task h agent_working = active_iff task h

  owner_first :
      (b : Bool) (m : Result (Unit {0}))
      → ((fail_if (not b) domain_error >> m) ≡ ok tt) ↔ ((b ≡ true) × (m ≡ ok tt))
  owner_first true m = (λ h. (refl, h), λ h. h.1)
  owner_first false m = (λ h. cc, λ h. cc)

  handoff_iff :
      (task : HandedTask) (found : Option TaskHandoff)
      → (validate_handoff lib task found ≡ ok tt) ↔ Agrees lib task found
  handoff_iff task none = (λ h. tt, λ h. refl)
  handoff_iff task (some h) =
      let owner = same_owner_iff task.owner_agent h.resume_owner in
      let first =
        owner_first (same_owner task.owner_agent h.resume_owner)
          (validate_state lib task h h.state) in
      let state = state_iff task h h.state in
      (λ e. (owner.0 (first.0 e).0, state.0 (first.0 e).1), λ e. first.1 (owner.1 e.0, state.1 e.1))

  -- A task is accepted exactly if it has no hand-off or agrees with it: it is owned by the agent that resumes;
  -- it is blocked, by the slug that it waits on, while it waits for input; and otherwise it is active, with the
  -- resume action as its next action.
  pub validate-iff-Agrees :
      (task : HandedTask) → (validate_task_handoff lib task ≡ ok tt) ↔ Agrees lib task task.handoff
  unfolding validate_task_handoff
  validate-iff-Agrees task = handoff_iff task task.handoff
