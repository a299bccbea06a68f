-- ===== src/Handoff/RoundTrip.antt =====
-- Reading back what `TaskHandoff.to_dict` (gtasks/handoff.py) writes.
use gtasks.Prelude.{ℕ, ◌≡◌, ◌≤◌, refl, arith, String, true, false, Option, none, some, is_some}
use gtasks.Prelude.Exec.{ok}
use gtasks.Prelude.Texts.{starts_with}
use gtasks.EventQueue.Store.{pos}
use gtasks.EventQueue.Json.{Value, int, str, obj, get_field}
use gtasks.Handoff.{
  HandoffLibrary, TaskHandoff, HandoffState, waiting_for_input, ready_for_agent, agent_working,
  name_of, state_of, slug_of, waiting_on_of, round_of, timestamp_of, action_of, precedes,
  acknowledged_early, is_misfit, from_value, to_dict, text_or_null, time_or_null,
}
use gtasks.Handoff.Fits.{LibraryLaws, IsAction, IsFit, StateFits, InOrder, WaitingFits}
use gtasks.Handoff.Sound.{from_value-IsFit}

state_of-name : (st : HandoffState) → state_of (some (str (name_of st))) ≡ ok st
unfolding state_of
state_of-name waiting_for_input = refl
state_of-name ready_for_agent = refl
state_of-name agent_working = refl

slug_of-str : (p s : String) → starts_with p s ≡ true → slug_of p (some (str s)) ≡ ok s
unfolding slug_of
slug_of-str p s h = rw h refl

waiting_on_of-text :
    (w : Option String) → WaitingFits w → waiting_on_of (some (text_or_null w)) ≡ ok w
unfolding waiting_on_of
waiting_on_of-text none h = refl
waiting_on_of-text (some s) h = rw h refl

round_of-pos : (n : ℕ) → 1 ≤ n → round_of (some (int (pos n))) ≡ ok n
unfolding round_of
round_of-pos n h = ground arith

is_misfit-StateFits :
    (st : HandoffState) (w : Option String) (a k : Option ℕ)
    → StateFits st w a k
    → is_misfit st (is_some w) (is_some a) (is_some k) ≡ false
unfolding is_misfit
is_misfit-StateFits waiting_for_input w a k h = ground arith
is_misfit-StateFits ready_for_agent w a k h = ground arith
is_misfit-StateFits agent_working w a k h = ground arith

precedes-InOrder : (r : ℕ) (a k : Option ℕ) → InOrder r a k → precedes a r ≡ false
precedes-InOrder r none k h = refl
precedes-InOrder r (some a) none h = ground arith
precedes-InOrder r (some a) (some k) h = ground arith

acknowledged_early-InOrder :
    (r : ℕ) (a k : Option ℕ) → InOrder r a k → acknowledged_early k a ≡ false
acknowledged_early-InOrder r a none h = refl
acknowledged_early-InOrder r none (some k) h = absurd h
acknowledged_early-InOrder r (some a) (some k) h = ground arith

module _ (lib : HandoffLibrary) (laws : LibraryLaws lib) where
  action_of-str : (s : String) → IsAction lib s → action_of lib (some (str s)) ≡ ok s
  unfolding action_of
  action_of-str s h = rw h.stripped (ground arith)

  timestamp_of-time : (t : Option ℕ) → timestamp_of lib (some (time_or_null lib t)) ≡ ok t
  unfolding timestamp_of
  timestamp_of-time none = refl
  timestamp_of-time (some t) = rw (laws.replace_isoformat t, laws.datetime_isoformat t) refl

  -- Round trip. A hand-off that fits is read back from the dict that is written for it.
  pub from_value-to_dict :
      (h : TaskHandoff) → IsFit lib h → from_value lib (obj (to_dict lib h)) ≡ ok h
  unfolding from_value to_dict get_field
  from_value-to_dict h f =
      rw
        (
          state_of-name h.state,
          slug_of-str "todos/" h.question_todo f.question,
          slug_of-str "agents/" h.resume_owner f.owner,
          waiting_on_of-text h.waiting_on f.waiting,
          action_of-str h.resume_action f.action,
          round_of-pos h.round f.counted,
          timestamp_of-time (some h.requested_at),
          timestamp_of-time h.answered_at,
          timestamp_of-time h.acknowledged_at,
          precedes-InOrder h.requested_at h.answered_at h.acknowledged_at f.ordered,
          acknowledged_early-InOrder h.requested_at h.answered_at h.acknowledged_at f.ordered,
          is_misfit-StateFits h.state h.waiting_on h.answered_at h.acknowledged_at f.state_fits,
        )
        refl

  -- Normal form. Whatever `from_value` accepts, writing the result and reading it again gives the same hand-off.
  pub from_value-normal :
      (v : Value) (h : TaskHandoff)
      → from_value lib v ≡ ok h
      → from_value lib (obj (to_dict lib h)) ≡ ok h
  from_value-normal v h e = from_value-to_dict h (from_value-IsFit lib laws v h e)
