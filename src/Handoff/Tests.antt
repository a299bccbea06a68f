-- ===== src/Handoff/Tests.antt =====
-- Runs of gtasks/handoff.py.
use gtasks.Prelude.{ℕ, zero, suc, ◌≡◌, refl, ap, String, none, some, []}
use mathlib.Core.Logic.{◌↔◌}
use gtasks.Prelude.Exec.{ok, err, type_error}
use gtasks.Prelude.Texts.{starts_with, has_code}
use gtasks.EventQueue.Time.{aware}
use gtasks.EventQueue.Store.{pos}
use gtasks.EventQueue.Json.{Value, str, int, obj, arr, nil, null, field, end, get_field}
use gtasks.EventQueue.Contract.{replace_z}
use gtasks.Handoff.{
  HandoffLibrary, TaskHandoff, HandedTask, agent_working, from_value, to_dict, state_of, slug_of,
  waiting_on_of, round_of, timestamp_of, action_of, is_misfit, validate_task_handoff,
}
use gtasks.Handoff.Fits.{LibraryLaws, IsFit}
use gtasks.Handoff.Sound.{from_value-IsFit}
use gtasks.Handoff.RoundTrip.{from_value-to_dict, from_value-normal}
use gtasks.Handoff.Agreement.{Agrees, validate-iff-Agrees}

-- a time as so many letters
unary : ℕ → String
unary zero = String.[]
unary (suc n) = String.◌∷◌ "a" (unary n)

letters : String → ℕ
letters String.[] = 0
letters (String.◌∷◌ c s) = suc (letters s)

letters-unary : (n : ℕ) → letters (unary n) ≡ n
unfolding letters unary
letters-unary zero = refl
letters-unary (suc n) = ap suc (letters-unary n)

replace_z-unary : (n : ℕ) → replace_z (unary n) ≡ unary n
unfolding replace_z unary
replace_z-unary zero = refl
replace_z-unary (suc n) = ap (λ s. String.◌∷◌ "a" s) (replace_z-unary n)

abbrev library : HandoffLibrary
unfolding unary letters
library = record { strip = λ s. s; datetime_of = λ s. some (aware (letters s)); isoformat = unary }

library_laws : LibraryLaws library
unfolding library
library_laws = record {
  strip_strip = λ s. refl;
  strip_part = λ n s h. h;
  replace_isoformat = replace_z-unary;
  datetime_isoformat = λ t. ap (λ n. some (aware n)) (letters-unary t);
}

abbrev asked : TaskHandoff
asked = record {
  state = agent_working;
  question_todo = "todos/q1";
  waiting_on = none;
  resume_owner = "agents/codex";
  resume_action = "Continue";
  requested_at = 1;
  answered_at = some 2;
  acknowledged_at = some 3;
  round = 1;
}

abbrev asked_value : Value
asked_value = obj (
    field "state" (str "agent_working") (
      field "question_todo" (str "todos/q1") (
        field "waiting_on" null (
          field "resume_owner" (str "agents/codex") (
            field "resume_action" (str "Continue") (
              field "requested_at" (str "a") (
                field "answered_at" (str "aa")
                  (field "acknowledged_at" (str "aaa") (field "round" (int (pos 1)) end)))))))))

from_value_test : from_value library asked_value ≡ ok asked
unfolding library unary letters from_value state_of slug_of waiting_on_of round_of timestamp_of
    action_of is_misfit get_field starts_with has_code replace_z
from_value_test = refl

-- a state that is a list raises TypeError, and not DomainValidationError
unhashable_state_test : from_value library (obj (field "state" (arr nil) end)) ≡ err type_error
unfolding from_value state_of get_field
unhashable_state_test = refl

asked-IsFit : IsFit library asked
asked-IsFit = from_value-IsFit library library_laws asked_value asked from_value_test

from_value-IsFit_example : IsFit library asked
from_value-IsFit_example = from_value-IsFit library library_laws asked_value asked from_value_test

from_value-to_dict_example : from_value library (obj (to_dict library asked)) ≡ ok asked
from_value-to_dict_example = from_value-to_dict library library_laws asked asked-IsFit

from_value-normal_example : from_value library (obj (to_dict library asked)) ≡ ok asked
from_value-normal_example = from_value-normal library library_laws asked_value asked from_value_test

abbrev working_task : HandedTask
working_task = record {
  owner_agent = some "agents/codex";
  status = "active";
  blockers = [];
  next_action = "Continue";
  handoff = some asked;
}

validate-iff-Agrees_example :
    (validate_task_handoff library working_task ≡ ok tt) ↔ Agrees library working_task (some asked)
validate-iff-Agrees_example = validate-iff-Agrees library working_task
