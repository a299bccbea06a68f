-- ===== src/EventQueue/Memory/Counting.antt =====
-- `JobAppliedHandler` over `InMemoryJobAppliedAdapter` (gtasks/event_queue/handler.py) counts an
-- application at most once, and never past the target.
use gtasks.Prelude.{
  ℕ, ◌+◌, ◌≡◌, ◌≤◌, ◌<◌, ◌⊎◌, refl, inl, inr, String, Bool, true, false, not, ◌&&◌, ◌||◌, some,
  List, ◌==◌, arith, nat_eq, ltb, leb, if◌then◌else◌, Bool-cases, ap, ◌∙◌,
}
use gtasks.Prelude.Exec.{Exec, Result, ok, err, handler_failure, pure, ◌>>◌, after_step}
use gtasks.Prelude.Tables.{length}
use gtasks.Prelude.Sets.{member, add, subset, member-add}
use gtasks.Prelude.Dict.{get}
use gtasks.EventQueue.Time.{Datetime}
use gtasks.EventQueue.Event.{JobAppliedV1}
use gtasks.EventQueue.Slug.{TextLibrary}
use gtasks.EventQueue.Handler.{
  QuotaTaskState, ApplicationRecord, Progress, intended_progress, policy_unit, handle,
  handle_active, handle_inactive, refuse_full, complete_if_met, record_of, duplicate_effect,
  JobAppliedEffect, write_progress, effect_of, is_naive, exact_completed_replay,
}
use gtasks.EventQueue.Memory.{
  Memory, memory_adapter, upsert_application, ensure_link, set_quota_progress, verify, progressed,
  completed, same_task,
}
use gtasks.EventQueue.Memory.Tasks.{
  tasks-upsert, tasks-link, tasks-verify, get_task-found, complete-found, set_progress-found,
}

-- A task whose count is its baseline and its evidence, and does not pass the target.
pub record TaskIsValid (t : QuotaTaskState) : Type 0 where
  pub counted : t.completed_count ≡ t.baseline_count + length t.evidence
  pub bounded : t.completed_count ≤ t.target

-- What an event with the application `slug` may make of a task.
pub record Counted (slug : String) (task t : QuotaTaskState) : Type 0 where
  pub valid : TaskIsValid t
  pub once :
      (t.completed_count ≡ task.completed_count)
      ⊎ ((member slug task.evidence ≡ false) × (t.completed_count ≡ task.completed_count + 1))

abbrev CountedIn : String → QuotaTaskState → Memory → Type 0
CountedIn slug task m =
    (t : QuotaTaskState) × (get task.slug m.tasks ≡ some t) × Counted slug task t

same-Counted : (slug : String) (task : QuotaTaskState) → TaskIsValid task → Counted slug task task
same-Counted slug task v = record { valid = v; once = inl refl }

length-add :
    (a : String) (xs : List String)
    → length (add a xs) ≡ (if member a xs then length xs else length xs + 1)
length-add a xs = ground arith

progressed-Counted :
    (r : ApplicationRecord) (task : QuotaTaskState) (now : Datetime)
    → TaskIsValid task
    → (leb task.target task.completed_count && not (member r.slug task.evidence)) ≡ false
    → Counted r.slug task (progressed task (intended_progress r task now))
progressed-Counted r task now v room = elim (Bool-cases (member r.slug task.evidence)) [
  | inl old ↦ record {
    valid = record {
      counted = refl;
      bounded = omega (arith, length-add_old r.slug task.evidence old, v.counted, v.bounded);
    };
    once = inl (omega (arith, length-add_old r.slug task.evidence old, v.counted));
  }
  | inr new ↦ record {
    valid = record {
      counted = refl;
      bounded = omega (
        arith,
        length-add_new r.slug task.evidence new,
        v.counted,
        below task.target task.completed_count _ room new,
      );
    };
    once = inr (new, omega (arith, length-add_new r.slug task.evidence new, v.counted));
  }
]
  where
    length-add_old :
        (a : String) (xs : List String) → member a xs ≡ true → length (add a xs) ≡ length xs
    length-add_old a xs h = rw h refl

    length-add_new :
        (a : String) (xs : List String) → member a xs ≡ false → length (add a xs) ≡ length xs + 1
    length-add_new a xs h = rw h (omega arith)

    below : (n k : ℕ) (b : Bool) → (leb n k && not b) ≡ false → b ≡ false → k < n
    below n k b h e = ground arith

completed-Counted :
    (slug : String) (task t t' : QuotaTaskState) (at : Datetime)
    → Counted slug task t
    → (t' ≡ t) ⊎ (t' ≡ completed t at)
    → Counted slug task t'
completed-Counted slug task t t' at c (inl e) = rw e c
completed-Counted slug task t t' at c (inr e) = rw e (record {
  valid = record { counted = c.valid.counted; bounded = c.valid.bounded };
  once = c.once;
})

-- a task that counts the event's application
abbrev RecordedIn : String → QuotaTaskState → Memory → Type 0
RecordedIn slug task m =
    (t : QuotaTaskState) × (get task.slug m.tasks ≡ some t)
    × Counted slug task t
    × (member slug t.evidence ≡ true)

module _ (slug : String) (task : QuotaTaskState) where
  verified-RecordedIn :
      {A : Type 0} (r : ApplicationRecord) (t : QuotaTaskState) (e : A) (m : Memory)
      → RecordedIn slug task m
      → RecordedIn slug task ((verify r t >> pure e) m).1
  verified-RecordedIn {A} r t e m (t', h, c, k) =
      let after : RecordedIn slug task (verify r t m).1 =
        (t', ap (get task.slug) (tasks-verify r t m) ∙ h, c, k) in
      after_step {B = A} (RecordedIn slug task) (verify r t m).0 (λ _. pure e) (verify r t m).1
        after (λ _. after)

  completed-member :
      (t t' : QuotaTaskState) (at : Datetime)
      → member slug t.evidence ≡ true
      → (t' ≡ t) ⊎ (t' ≡ completed t at)
      → member slug t'.evidence ≡ true
  completed-member t t' at k (inl e) = rw e k
  completed-member t t' at k (inr e) = rw e k

  met-RecordedIn :
      (p : QuotaTaskState) (now : Datetime) (m : Memory)
      → p.slug ≡ task.slug
      → RecordedIn slug task m
      → (t : QuotaTaskState) × ((complete_if_met memory_adapter p now m).0 ≡ ok t)
        × RecordedIn slug task (complete_if_met memory_adapter p now m).1
  unfolding complete_if_met
  met-RecordedIn p now m same (t, h, c, k) = elim (Bool-cases (nat_eq p.completed_count p.target)) [
    | inl met ↦
        let (t', answer, there, how) = complete-found task.slug now t m h in
        rw (met, same)
          (
            t',
            answer,
            (
              t',
              there,
              completed-Counted slug task t t' now c how,
              completed-member t t' now k how,
            ),
          )
    | inr short ↦ rw short (p, refl, (t, h, c, k))
  ]

same_task-evidence :
    (a b : QuotaTaskState) → same_task a b ≡ true → subset a.evidence b.evidence ≡ true
unfolding same_task
same_task-evidence a b h = ground arith

subset-add : (a : String) (xs : List String) → subset (add a xs) xs ≡ true → member a xs ≡ true
subset-add a xs h = elim (Bool-cases (member a xs)) [ inl old ↦ old | inr new ↦ ground arith ]

-- a write that changes nothing has found its application among the evidence
unchanged-member :
    (r : ApplicationRecord) (task : QuotaTaskState) (now : Datetime)
    → same_task (progressed task (intended_progress r task now)) task ≡ true
    → member r.slug task.evidence ≡ true
unchanged-member r task now h =
    subset-add r.slug task.evidence
      (same_task-evidence (progressed task (intended_progress r task now)) task h)

write_progress-RecordedIn :
    (r : ApplicationRecord) (task : QuotaTaskState) (now : Datetime) (m : Memory)
    → get task.slug m.tasks ≡ some task
    → TaskIsValid task
    → (leb task.target task.completed_count && not (member r.slug task.evidence)) ≡ false
    → RecordedIn r.slug task (write_progress memory_adapter r task now m).1
unfolding write_progress
write_progress-RecordedIn r task now m h v room =
    let q : Progress = intended_progress r task now in
    let m1 : Memory = (upsert_application r m).1 in
    let m2 : Memory = (ensure_link r.slug task.slug "evidence_for" m1).1 in
    let m3 : Memory = (ensure_link task.slug r.slug "has_evidence" m2).1 in
    let (e1, s1) = tasks-upsert r m in
    let (e2, s2) = tasks-link r.slug task.slug "evidence_for" m1 in
    let (e3, s3) = tasks-link task.slug r.slug "has_evidence" m2 in
    let (e4, wrote) =
      set_progress-found task.slug q task m3 (ap (get task.slug) (s3 ∙ s2 ∙ s1) ∙ h) in
    let m4 : Memory = (set_quota_progress task.slug q m3).1 in
    let recorded : RecordedIn r.slug task m4 = elim wrote [
      | inl new ↦ (
        progressed task q,
        new,
        progressed-Counted r task now v room,
        member-add r.slug task.evidence,
      )
      | inr old ↦ (task, old.0, same-Counted r.slug task v, unchanged-member r task now old.1)
    ] in
    let (t, e5, recorded') = met-RecordedIn r.slug task (progressed task q) now m4 refl recorded in
    rw (e1, e2, e3, e4, e5)
      (verified-RecordedIn r.slug task r t (effect_of r task t)
        (complete_if_met memory_adapter (progressed task q) now m4).1 recorded')

-- What a run of the handler leaves, by how it ended.
abbrev pub HandledIn : String → QuotaTaskState → Result JobAppliedEffect → Memory → Type 0
HandledIn slug task (ok e) m = RecordedIn slug task m
HandledIn slug task (err e) m = CountedIn slug task m

recorded-HandledIn :
    (slug : String) (task : QuotaTaskState) (r : Result JobAppliedEffect) (m : Memory)
    → RecordedIn slug task m
    → HandledIn slug task r m
recorded-HandledIn slug task (ok e) m h = h
recorded-HandledIn slug task (err e) m (t, h, c, k) = (t, h, c)

refuse_full-CountedIn :
    (slug : String) (task : QuotaTaskState) (now : Datetime) (m : Memory)
    → CountedIn slug task m
    → ((refuse_full memory_adapter task now m).0 ≡ err (handler_failure "quota_task_full" true))
      × CountedIn slug task (refuse_full memory_adapter task now m).1
unfolding refuse_full
refuse_full-CountedIn slug task now m (t, h, c) =
    let (t', answer, there, how) = complete-found task.slug now t m h in
    rw answer (refl, (t', there, completed-Counted slug task t t' now c how))

active-HandledIn :
    (r : ApplicationRecord) (task : QuotaTaskState) (now : Datetime) (m : Memory)
    → get task.slug m.tasks ≡ some task
    → TaskIsValid task
    → HandledIn r.slug task
        (handle_active memory_adapter r task now m).0
        (handle_active memory_adapter r task now m).1
unfolding handle_active
active-HandledIn r task now m h v =
    let same : CountedIn r.slug task m = (task, h, same-Counted r.slug task v) in
    elim (Bool-cases (ltb task.target task.completed_count)) [
      | inl over ↦ rw over same
      | inr within ↦
          rw within
            (elim (Bool-cases
              (leb task.target task.completed_count && not (member r.slug task.evidence))) [
                | inl full ↦
                    let (answer, counted) = refuse_full-CountedIn r.slug task now m same in
                    rw (full, answer) counted
                | inr room ↦ rw room (
                    recorded-HandledIn r.slug task (write_progress memory_adapter r task now m).0 _
                      (write_progress-RecordedIn r task now m h v room))
              ])
    ]

replay-member :
    (r : ApplicationRecord) (task : QuotaTaskState)
    → exact_completed_replay r task ≡ true
    → member r.slug task.evidence ≡ true
replay-member r task h = ground arith

inactive-HandledIn :
    (r : ApplicationRecord) (task : QuotaTaskState) (m : Memory)
    → get task.slug m.tasks ≡ some task
    → TaskIsValid task
    → HandledIn r.slug task
        (handle_inactive memory_adapter r task m).0
        (handle_inactive memory_adapter r task m).1
unfolding handle_inactive
inactive-HandledIn r task m h v = elim (Bool-cases (exact_completed_replay r task)) [
  | inl replay ↦ rw replay (
      recorded-HandledIn r.slug task ((verify r task >> pure (duplicate_effect r task)) m).0 _ (
        verified-RecordedIn r.slug task r task (duplicate_effect r task) m
          (task, h, same-Counted r.slug task v, replay-member r task replay)))
  | inr other ↦ rw other (task, h, same-Counted r.slug task v)
]

HandledIn-if :
    (b : Bool) (f g : Exec Memory JobAppliedEffect) (slug : String) (task : QuotaTaskState)
    (m : Memory)
    → HandledIn slug task (f m).0 (f m).1
    → HandledIn slug task (g m).0 (g m).1
    → HandledIn slug task ((if b then f else g) m).0 ((if b then f else g) m).1
HandledIn-if true f g slug task m h k = h
HandledIn-if false f g slug task m h k = k

-- Exactly-once counting. Of a task whose count is its baseline and evidence and does not pass its target,
-- a run of the handler over the in-memory adapter leaves, however it ends, a task of which the same holds
-- and whose count is the old one or, if the application was not among the evidence, one more; a run that returns
-- leaves the application among the evidence.
pub handle-Counts :
    (lib : TextLibrary) (now : Datetime) (event : JobAppliedV1) (task : QuotaTaskState) (m : Memory)
    → get task.slug m.tasks ≡ some task
    → TaskIsValid task
    → HandledIn
        (record_of lib event).slug
        task
        (handle memory_adapter lib task.slug now event m).0
        (handle memory_adapter lib task.slug now event m).1
unfolding handle
handle-Counts lib now event task m h v =
    let r : ApplicationRecord = record_of lib event in
    let same : CountedIn r.slug task m = (task, h, same-Counted r.slug task v) in
    elim (Bool-cases (is_naive now)) [
      | inl bad ↦ rw bad same
      | inr good ↦
          rw (good, get_task-found task.slug task m h)
            (elim (Bool-cases (not (task.unit == policy_unit) || leb task.target 0)) [
              | inl broken ↦ rw broken same
              | inr whole ↦ rw whole (
                  HandledIn-if task.active (handle_active memory_adapter r task now)
                    (handle_inactive memory_adapter r task) r.slug task m
                    (active-HandledIn r task now m h v) (inactive-HandledIn r task m h v))
            ])
    ]
