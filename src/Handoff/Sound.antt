-- ===== src/Handoff/Sound.antt =====
-- `TaskHandoff.from_value` (gtasks/handoff.py) accepts only what fits.
use gtasks.Prelude.{
  ℕ, ◌≡◌, ◌≤◌, refl, subst, arith, String, Bool, true, false, ◌||◌, Option, none, some, ◌==◌, ltb,
  is_some,
}
use gtasks.Prelude.Exec.{Result, ok, err, domain_error}
use gtasks.Prelude.Checked.{fail_if, >>=-eq-ok}
use gtasks.Prelude.Texts.{starts_with, has_code}
use gtasks.EventQueue.Json.{Value, str, obj, get_field}
use gtasks.Handoff.{
  HandoffLibrary, TaskHandoff, HandoffState, waiting_for_input, ready_for_agent, agent_working,
  state_of, slug_of, waiting_on_of, round_of, timestamp_of, required, action_of, precedes,
  acknowledged_early, is_misfit, from_value,
}
use gtasks.Handoff.Fits.{LibraryLaws, IsAction, IsFit, StateFits, InOrder, WaitingFits}
use Prim.Native.String.{count}

fail_if-ok : (b : Bool) {a : Unit {0}} → fail_if b domain_error ≡ ok a → b ≡ false
fail_if-ok true h = cc
fail_if-ok false h = refl

slug_of-ok :
    (p : String) (v : Option Value) (s : String) → slug_of p v ≡ ok s → starts_with p s ≡ true
unfolding slug_of
slug_of-ok p v s h = ground arith

waiting_on_of-ok : (v : Option Value) (w : Option String) → waiting_on_of v ≡ ok w → WaitingFits w
unfolding waiting_on_of
waiting_on_of-ok v none h = tt
waiting_on_of-ok v (some s) h = ground arith

round_of-ok : (v : Option Value) (n : ℕ) → round_of v ≡ ok n → 1 ≤ n
unfolding round_of
round_of-ok v n h = ground arith

StateFits-of :
    (st : HandoffState) (w : Option String) (a k : Option ℕ)
    → is_misfit st (is_some w) (is_some a) (is_some k) ≡ false
    → StateFits st w a k
unfolding is_misfit
StateFits-of waiting_for_input w a k h = ground arith
StateFits-of ready_for_agent w a k h = ground arith
StateFits-of agent_working w a k h = ground arith

InOrder-of :
    (r : ℕ) (a k : Option ℕ) → precedes a r ≡ false → acknowledged_early k a ≡ false → InOrder r a k
InOrder-of r none none p q = tt
InOrder-of r none (some k) p q = cc
InOrder-of r (some a) none p q = ground arith
InOrder-of r (some a) (some k) p q = ground arith

abbrev OkAction : HandoffLibrary → Result String → Type 0
OkAction lib (ok s) = IsAction lib s
OkAction lib (err e) = Unit

abbrev OkFit : HandoffLibrary → Result TaskHandoff → Type 0
OkFit lib (ok h) = IsFit lib h
OkFit lib (err e) = Unit

module _ (lib : HandoffLibrary) (laws : LibraryLaws lib) where
  action_of-ok : (v : Option Value) (s : String) → action_of lib v ≡ ok s → IsAction lib s
  unfolding action_of
  action_of-ok (some (str t)) s h =
      let bad : Bool =
        (lib.strip t == "")
        || (ltb 240 (count (lib.strip t)) || (has_code 10 t || has_code 13 t)) in
      let (u, e, h1) = >>=-eq-ok (fail_if bad domain_error) _ h in
      let good : bad ≡ false = fail_if-ok bad e in
      subst (OkAction lib) h1 (record {
        stripped = laws.strip_strip t;
        filled = ground arith;
        bounded = ground arith;
        one_line = (laws.strip_part 10 t (ground arith), laws.strip_part 13 t (ground arith));
      })
  action_of-ok v s h = ground arith

  -- Soundness. A hand-off that `from_value` returns has a question among the todos and an owner among the agents,
  -- waits on a slug or on nobody, has as its action one stripped line of 1 to 240 characters, a positive
  -- round, times in order, and the waiting slug and times that its state asks for.
  pub from_value-IsFit : (v : Value) (h : TaskHandoff) → from_value lib v ≡ ok h → IsFit lib h
  unfolding from_value
  from_value-IsFit (obj fs) h e =
      let (st, e1, h1) = >>=-eq-ok (state_of (get_field "state" fs)) _ e in
      let (question, e2, h2) = >>=-eq-ok (slug_of "todos/" (get_field "question_todo" fs)) _ h1 in
      let (owner, e3, h3) = >>=-eq-ok (slug_of "agents/" (get_field "resume_owner" fs)) _ h2 in
      let (waiting, e4, h4) = >>=-eq-ok (waiting_on_of (get_field "waiting_on" fs)) _ h3 in
      let (action, e5, h5) = >>=-eq-ok (action_of lib (get_field "resume_action" fs)) _ h4 in
      let (n, e6, h6) = >>=-eq-ok (round_of (get_field "round" fs)) _ h5 in
      let (r, e7, h7) = >>=-eq-ok (timestamp_of lib (get_field "requested_at" fs)) _ h6 in
      let (requested, e8, h8) = >>=-eq-ok (required r) _ h7 in
      let (a, e9, h9) = >>=-eq-ok (timestamp_of lib (get_field "answered_at" fs)) _ h8 in
      let (k, e10, h10) = >>=-eq-ok (timestamp_of lib (get_field "acknowledged_at" fs)) _ h9 in
      let (u, e11, h11) = >>=-eq-ok (fail_if (precedes a requested) domain_error) _ h10 in
      let (u', e12, h12) = >>=-eq-ok (fail_if (acknowledged_early k a) domain_error) _ h11 in
      let misfit : Bool = is_misfit st (is_some waiting) (is_some a) (is_some k) in
      let (u'', e13, h13) = >>=-eq-ok (fail_if misfit domain_error) _ h12 in
      subst (OkFit lib) h13 (record {
        question = slug_of-ok "todos/" (get_field "question_todo" fs) question e2;
        owner = slug_of-ok "agents/" (get_field "resume_owner" fs) owner e3;
        waiting = waiting_on_of-ok (get_field "waiting_on" fs) waiting e4;
        action = action_of-ok (get_field "resume_action" fs) action e5;
        counted = round_of-ok (get_field "round" fs) n e6;
        ordered =
            InOrder-of requested a k (fail_if-ok (precedes a requested) e11)
              (fail_if-ok (acknowledged_early k a) e12);
        state_fits = StateFits-of st waiting a k (fail_if-ok misfit e13);
      })
  from_value-IsFit v h e = ground arith
