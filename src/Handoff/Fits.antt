-- ===== src/Handoff/Fits.antt =====
-- What a hand-off that gtasks/handoff.py accepts is known to satisfy, and what is asked of Python's strings.
use Prim.Native.String.{count}
use gtasks.Prelude.{ℕ, ◌≡◌, ◌≤◌, String, true, false, Option, none, some, ◌==◌, is_some}
use gtasks.Prelude.Texts.{starts_with, has_code}
use gtasks.EventQueue.Time.{aware}
use gtasks.EventQueue.Contract.{replace_z}
use gtasks.Handoff.{
  HandoffLibrary, TaskHandoff, HandoffState, waiting_for_input, ready_for_agent, agent_working,
  slash,
}

-- `strip` is idempotent and returns a part of its text; `fromisoformat` reads what `isoformat` writes, which
-- has no "Z" for it to replace.
pub record LibraryLaws (lib : HandoffLibrary) : Type 0 where
  pub strip_strip : (s : String) → lib.strip (lib.strip s) ≡ lib.strip s
  pub strip_part : (n : ℕ) (s : String) → has_code n s ≡ false → has_code n (lib.strip s) ≡ false
  pub replace_isoformat : (t : ℕ) → replace_z (lib.isoformat t) ≡ lib.isoformat t
  pub datetime_isoformat : (t : ℕ) → lib.datetime_of (lib.isoformat t) ≡ some (aware t)

-- who is waited for, and the times, by state
abbrev pub StateFits : HandoffState → Option String → Option ℕ → Option ℕ → Type 0
StateFits waiting_for_input w a k = (is_some w ≡ true) × (a ≡ none) × (k ≡ none)
StateFits ready_for_agent w a k = (w ≡ none) × (is_some a ≡ true) × (k ≡ none)
StateFits agent_working w a k = (w ≡ none) × (is_some a ≡ true) × (is_some k ≡ true)

-- the answer is not before the request, nor the acknowledgement before the answer, which it needs
abbrev pub InOrder : ℕ → Option ℕ → Option ℕ → Type 0
InOrder r none none = Unit
InOrder r none (some k) = ⊥
InOrder r (some a) none = r ≤ a
InOrder r (some a) (some k) = (r ≤ a) × (a ≤ k)

abbrev pub WaitingFits : Option String → Type 0
WaitingFits none = Unit
WaitingFits (some s) = has_code slash s ≡ true

pub record IsAction (lib : HandoffLibrary) (s : String) : Type 0 where
  pub stripped : lib.strip s ≡ s
  pub filled : (s == "") ≡ false
  pub bounded : count s ≤ 240
  pub one_line : (has_code 10 s ≡ false) × (has_code 13 s ≡ false)

pub record IsFit (lib : HandoffLibrary) (h : TaskHandoff) : Type 0 where
  pub question : starts_with "todos/" h.question_todo ≡ true
  pub owner : starts_with "agents/" h.resume_owner ≡ true
  pub waiting : WaitingFits h.waiting_on
  pub action : IsAction lib h.resume_action
  pub counted : 1 ≤ h.round
  pub ordered : InOrder h.requested_at h.answered_at h.acknowledged_at
  pub state_fits : StateFits h.state h.waiting_on h.answered_at h.acknowledged_at
