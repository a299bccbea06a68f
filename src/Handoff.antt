-- ===== src/Handoff.antt =====
-- gtasks/handoff.py: the hand-off of a task between an agent and the person it waits for. A naive datetime
-- is refused; an aware one is its instant. Error messages are not kept.
pub mod Fits
pub mod Sound
pub mod RoundTrip
pub mod Agreement
mod Tests
use Prim.Native.String.{count}
use gtasks.Prelude.{
  ℕ, String, Bool, true, false, not, ◌&&◌, ◌||◌, Option, none, some, List, ◌==◌, ltb, is_some,
  if◌then◌else◌,
}
use gtasks.Prelude.Exec.{Result, ok, err, domain_error, type_error}
use gtasks.Prelude.Checked.{◌>>=◌, ◌>>◌, fail_if}
use gtasks.Prelude.Sets.{member}
use gtasks.Prelude.Texts.{starts_with, has_code}
use gtasks.EventQueue.Time.{Datetime, aware, naive}
use gtasks.EventQueue.Store.{Version, pos, negsuc}
use gtasks.EventQueue.Json.{
  Value, null, bool, int, float, str, arr, obj, Fields, field, end, get_field,
}
use gtasks.EventQueue.Contract.{replace_z}

-- What the parser uses of Python's standard library: `str.strip`, `datetime.fromisoformat`, with `none` for
-- ValueError, and `isoformat` of an aware datetime.
pub record HandoffLibrary : Type 0 where
  pub strip : String → String
  pub datetime_of : String → Option Datetime
  pub isoformat : ℕ → String

-- `STATES`
pub data HandoffState : Type 0 where
  waiting_for_input ready_for_agent agent_working : HandoffState

pub record TaskHandoff : Type 0 where
  pub state : HandoffState
  pub question_todo : String
  pub waiting_on : Option String
  pub resume_owner : String
  pub resume_action : String
  pub requested_at : ℕ
  pub answered_at : Option ℕ
  pub acknowledged_at : Option ℕ
  pub round : ℕ

abbrev pub name_of : HandoffState → String
name_of waiting_for_input = "waiting_for_input"
name_of ready_for_agent = "ready_for_agent"
name_of agent_working = "agent_working"

-- `state not in cls.STATES`: a list or a dict has no hash, so the test raises TypeError
unfoldable pub state_of : Option Value → Result HandoffState
state_of (some (str s)) =
    if s == "waiting_for_input"
    then ok waiting_for_input
    else if s == "ready_for_agent"
    then ok ready_for_agent
    else if s == "agent_working"
    then ok agent_working
    else err domain_error
state_of (some (arr xs)) = err type_error
state_of (some (obj fs)) = err type_error
state_of _ = err domain_error

-- a text that starts with `prefix`
unfoldable pub slug_of : String → Option Value → Result String
slug_of prefix (some (str s)) = do fail_if (not (starts_with prefix s)) domain_error; ok s
slug_of prefix _ = err domain_error

abbrev pub slash : ℕ
slash = b'/'

unfoldable pub waiting_on_of : Option Value → Result (Option String)
waiting_on_of none = ok none
waiting_on_of (some null) = ok none
waiting_on_of (some (str s)) = do fail_if (not (has_code slash s)) domain_error; ok (some s)
waiting_on_of _ = err domain_error

abbrev pub positive_or_refuse : ℕ → Result ℕ
positive_or_refuse n = do fail_if (ltb n 1) domain_error; ok n

unfoldable pub round_of : Option Value → Result ℕ
round_of (some (int (pos n))) = positive_or_refuse n
round_of _ = err domain_error

abbrev pub instant_of : Option Datetime → Result ℕ
instant_of (some (aware t)) = ok t
instant_of _ = err domain_error

abbrev pub required : Option ℕ → Result ℕ
required none = err domain_error
required (some t) = ok t

-- `a is not None and a < b`, with `b` a datetime
abbrev pub precedes : Option ℕ → ℕ → Bool
precedes none t = false
precedes (some a) t = ltb a t

-- `acknowledged_at is not None and (answered_at is None or acknowledged_at < answered_at)`
abbrev pub acknowledged_early : Option ℕ → Option ℕ → Bool
acknowledged_early none answered = false
acknowledged_early (some a) none = true
acknowledged_early (some a) (some b) = ltb a b

abbrev pub text_or_null : Option String → Value
text_or_null none = null
text_or_null (some s) = str s

-- the fields that a state asks for
unfoldable pub is_misfit : HandoffState → Bool → Bool → Bool → Bool
is_misfit waiting_for_input waiting answered acknowledged = not waiting || answered || acknowledged
is_misfit ready_for_agent waiting answered acknowledged = waiting || not answered || acknowledged
is_misfit agent_working waiting answered acknowledged = waiting || not answered || not acknowledged

module _ (lib : HandoffLibrary) where
  open lib use {strip, datetime_of, isoformat}

  -- `_timestamp`, where None gives None
  unfoldable pub timestamp_of : Option Value → Result (Option ℕ)
  timestamp_of none = ok none
  timestamp_of (some null) = ok none
  timestamp_of (some (str s)) = do t ← instant_of (datetime_of (replace_z s)); ok (some t)
  timestamp_of _ = err domain_error

  -- one line of 1 to 240 characters
  unfoldable pub action_of : Option Value → Result String
  action_of (some (str s)) = do
    fail_if ((strip s == "") || (ltb 240 (count (strip s)) || (has_code 10 s || has_code 13 s)))
        domain_error
    ok (strip s)
  action_of _ = err domain_error

  unfoldable pub from_value : Value → Result TaskHandoff
  from_value (obj value) = do
    state ← state_of (get_field "state" value)
    question_todo ← slug_of "todos/" (get_field "question_todo" value)
    resume_owner ← slug_of "agents/" (get_field "resume_owner" value)
    waiting_on ← waiting_on_of (get_field "waiting_on" value)
    resume_action ← action_of (get_field "resume_action" value)
    round ← round_of (get_field "round" value)
    requested ← timestamp_of (get_field "requested_at" value)
    requested_at ← required requested
    answered_at ← timestamp_of (get_field "answered_at" value)
    acknowledged_at ← timestamp_of (get_field "acknowledged_at" value)
    fail_if (precedes answered_at requested_at) domain_error
    fail_if (acknowledged_early acknowledged_at answered_at) domain_error
    fail_if (is_misfit state (is_some waiting_on) (is_some answered_at) (is_some acknowledged_at))
        domain_error
    ok (record {
      state = state;
      question_todo = question_todo;
      waiting_on = waiting_on;
      resume_owner = resume_owner;
      resume_action = resume_action;
      requested_at = requested_at;
      answered_at = answered_at;
      acknowledged_at = acknowledged_at;
      round = round;
    })
  from_value _ = err domain_error

  abbrev pub time_or_null : Option ℕ → Value
  time_or_null none = null
  time_or_null (some t) = str (isoformat t)

  unfoldable pub to_dict : TaskHandoff → Fields
  to_dict h = field "state" (str (name_of h.state)) (
      field "question_todo" (str h.question_todo) (
        field "waiting_on" (text_or_null h.waiting_on) (
          field "resume_owner" (str h.resume_owner) (
            field "resume_action" (str h.resume_action) (
              field "requested_at" (str (isoformat h.requested_at)) (
                field "answered_at" (time_or_null h.answered_at) (
                  field "acknowledged_at" (time_or_null h.acknowledged_at)
                    (field "round" (int (pos h.round)) end))))))))

-- what `validate_task_handoff` reads of a task
pub record HandedTask : Type 0 where
  pub owner_agent : Option String
  pub status : String
  pub blockers : List String
  pub next_action : String
  pub handoff : Option TaskHandoff

abbrev pub same_owner : Option String → String → Bool
same_owner none owner = false
same_owner (some o) owner = o == owner

abbrev pub blocks : Option String → List String → Bool
blocks none blockers = false
blocks (some slug) blockers = member slug blockers

module _ (lib : HandoffLibrary) where
  unfoldable pub validate_state : HandedTask → TaskHandoff → HandoffState → Result (Unit {0})
  validate_state task h waiting_for_input = do
    fail_if (not (task.status == "blocked")) domain_error
    fail_if (not (blocks h.waiting_on task.blockers)) domain_error
    ok tt
  validate_state task h _ = do
    fail_if (not (task.status == "active")) domain_error
    fail_if (not (lib.strip task.next_action == h.resume_action)) domain_error
    ok tt

  abbrev pub validate_handoff : HandedTask → Option TaskHandoff → Result (Unit {0})
  validate_handoff task none = ok tt
  validate_handoff task (some h) = do
    fail_if (not (same_owner task.owner_agent h.resume_owner)) domain_error
    validate_state task h h.state

  unfoldable pub validate_task_handoff : HandedTask → Result (Unit {0})
  validate_task_handoff task = validate_handoff task task.handoff
