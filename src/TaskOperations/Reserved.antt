-- ===== src/TaskOperations/Reserved.antt =====
-- A key of `TaskOperationStore` (gtasks/task_operations.py) keeps the identity that was reserved for it.
use mathlib.Core.Option.{some_inj}
use gtasks.Prelude.{
  sym, ◌∙◌, subst, ap, ◌≡◌, refl, inl, inr, arith, eq_iff, ℕ, String, Bool, false, Option, none,
  some, List, [], ◌∷◌, ◌==◌, if◌then◌else◌, Bool-cases, ==_refl,
}
use gtasks.Prelude.Exec.{
  Exec, transaction-answer, transaction_kept, Result, ok, err, operation_conflict, value_error,
  after_raise_if, after_transaction, guard_passes, guard_fails,
}
use gtasks.Prelude.Tables.{find_row, find-update, find-append_old, find-append_new}
use gtasks.EventQueue.Time.{Datetime, aware, naive}
use gtasks.EventQueue.Json.{Fields}
use gtasks.TaskOperations.{
  OperationLibrary, TaskOperation, OperationRow, TaskOperationStore, has_key, mark, mark_verified,
  is_bad_key, reserved_row, reserve_row, reserve_body, reserve_checked, reserve,
}

-- a call of a method that changes the table
pub data Step : Type 0 where
  reserving : String → Fields → Datetime → Step
  marking : TaskOperation → Step

-- the row of a key, with its digest and identity
pub record Reserved (key digest identity : String) (s : TaskOperationStore) : Type 0 where
  pub row : OperationRow
  pub there : find_row (has_key key) s.rows ≡ some row
  pub same_digest : row.request_hash ≡ digest
  pub same_identity : row.identity ≡ identity

-- the identity that an operation has, and whether it is new
abbrev pub reserved_as : Result TaskOperation → Result (String × Bool)
reserved_as (ok op) = ok (op.identity, op.is_new)
reserved_as (err e) = err e

module _ (lib : OperationLibrary) where
  unfoldable pub after : List Step → TaskOperationStore → TaskOperationStore
  after [] s = s
  after (reserving key payload now ∷ steps) s = after steps (reserve lib key payload now s).1
  after (marking operation ∷ steps) s = after steps (mark_verified operation s).1

  mark-Reserved :
      (key digest identity : String) (operation : TaskOperation) (s : TaskOperationStore)
      → Reserved key digest identity s
      → Reserved key digest identity (mark_verified operation s).1
  unfolding mark_verified
  mark-Reserved key digest identity operation s h =
      elim (Bool-cases (h.row.identity == operation.identity)) [
        | inl hit ↦ record {
          row = mark h.row;
          there =
              rw
                (
                  find-update (has_key key) (λ r. r.identity == operation.identity) mark (λ x. refl)
                      s.rows,
                  h.there,
                  hit,
                )
                refl;
          same_digest = h.same_digest;
          same_identity = h.same_identity;
        }
        | inr miss ↦ record {
          row = h.row;
          there =
              rw
                (
                  find-update (has_key key) (λ r. r.identity == operation.identity) mark (λ x. refl)
                      s.rows,
                  h.there,
                  miss,
                )
                refl;
          same_digest = h.same_digest;
          same_identity = h.same_identity;
        }
      ]

  row-Reserved :
      (key digest identity k d : String) (t : ℕ) (found : Option OperationRow)
      (s : TaskOperationStore)
      → Reserved key digest identity s
      → Reserved key digest identity (reserve_row lib k d t found s).1
  unfolding reserve_row
  row-Reserved key digest identity k d t none s h = record {
    row = h.row;
    there =
        find-append_old (has_key key) s.rows (reserved_row lib k d t s.drawn ∷ []) h.row h.there;
    same_digest = h.same_digest;
    same_identity = h.same_identity;
  }
  row-Reserved key digest identity k d t (some r) s h = elim (Bool-cases (r.request_hash == d)) [
    | inl same ↦ rw same h
    | inr other ↦ rw other h
  ]

  digest-Reserved :
      (key digest identity k : String) (now : Datetime) (found : Option String)
      (s : TaskOperationStore)
      → Reserved key digest identity s
      → Reserved key digest identity (reserve_checked lib k now found s).1
  unfolding reserve_checked
  digest-Reserved key digest identity k (naive w) found s h = h
  digest-Reserved key digest identity k (aware t) none s h = h
  digest-Reserved key digest identity k (aware t) (some d) s h =
      after_transaction (Reserved key digest identity) (reserve_body lib k d t) s h
        (row-Reserved key digest identity k d t (find_row (has_key k) s.rows) s h)

  reserve-Reserved :
      (key digest identity k : String) (payload : Fields) (now : Datetime) (s : TaskOperationStore)
      → Reserved key digest identity s
      → Reserved key digest identity (reserve lib k payload now s).1
  unfolding reserve
  reserve-Reserved key digest identity k payload now s h =
      after_raise_if (Reserved key digest identity) (is_bad_key lib k) value_error _ s h
        (digest-Reserved key digest identity k now (lib.digest_of payload) s h)

  after-Reserved :
      (key digest identity : String) (steps : List Step) (s : TaskOperationStore)
      → Reserved key digest identity s
      → Reserved key digest identity (after steps s)
  unfolding after
  after-Reserved key digest identity [] s h = h
  after-Reserved key digest identity (reserving k payload now ∷ steps) s h =
      after-Reserved key digest identity steps _
        (reserve-Reserved key digest identity k payload now s h)
  after-Reserved key digest identity (marking operation ∷ steps) s h =
      after-Reserved key digest identity steps _ (mark-Reserved key digest identity operation s h)

  -- what a fresh row and a found row make of a reservation
  row_first :
      (key d : String) (t : ℕ) (found : Option OperationRow) (s : TaskOperationStore)
      (op : TaskOperation)
      → find_row (has_key key) s.rows ≡ found
      → (reserve_row lib key d t found s).0 ≡ ok op
      → Reserved key d op.identity (reserve_row lib key d t found s).1
  unfolding reserve_row
  row_first key d t none s op f e = record {
    row = reserved_row lib key d t s.drawn;
    there = find-append_new (has_key key) s.rows (reserved_row lib key d t s.drawn) f (==_refl key);
    same_digest = refl;
    same_identity = ground arith;
  }
  row_first key d t (some r) s op f e = elim (Bool-cases (r.request_hash == d)) [
    | inl same ↦ rw same (record {
      row = r;
      there = f;
      same_digest = ground (arith, eq_iff r.request_hash d);
      same_identity = ground arith;
    })
    | inr other ↦ cc (rw other at e)
  ]

  checked_first :
      (key d : String) (now : Datetime) (found : Option String) (s : TaskOperationStore)
      (op : TaskOperation)
      → found ≡ some d
      → (reserve_checked lib key now found s).0 ≡ ok op
      → Reserved key d op.identity (reserve_checked lib key now found s).1
  unfolding reserve_checked
  checked_first key d (naive w) found s op f e = cc
  checked_first key d (aware t) none s op f e = cc
  checked_first key d (aware t) (some d') s op f e =
      let body : Exec TaskOperationStore TaskOperation = reserve_body lib key d' t in
      let ran : (body s).0 ≡ ok op = sym (transaction-answer body s) ∙ e in
      subst (λ z. Reserved key d op.identity z.1) (sym (transaction_kept body s op ran))
        (subst (λ z. Reserved key z op.identity (body s).1) (some_inj.0 f)
          (row_first key d' t (find_row (has_key key) s.rows) s op refl ran))

  -- a reservation that returned was made under a good key
  first_reservation :
      (key d : String) (payload : Fields) (now : Datetime) (s : TaskOperationStore)
      (op : TaskOperation)
      → lib.digest_of payload ≡ some d
      → (reserve lib key payload now s).0 ≡ ok op
      → (is_bad_key lib key ≡ false) × Reserved key d op.identity (reserve lib key payload now s).1
  unfolding reserve
  first_reservation key d payload now s op f e = elim (Bool-cases (is_bad_key lib key)) [
    | inl bad ↦ cc (
      guard_fails (is_bad_key lib key) value_error
          (reserve_checked lib key now (lib.digest_of payload)) s bad,
      e,
    )
    | inr good ↦
        let passed =
          guard_passes (is_bad_key lib key) value_error
            (reserve_checked lib key now (lib.digest_of payload)) s good in
        (
          good,
          subst (λ z. Reserved key d op.identity z.1) (sym passed)
              (checked_first key d now (lib.digest_of payload) s op f
                (sym (ap (λ z. z.0) passed) ∙ e)),
        )
  ]

  row_again :
      (key d d' identity : String) (t : ℕ) (s : TaskOperationStore)
      → Reserved key d identity s
      → reserved_as (reserve_body lib key d' t s).0
        ≡ (if d == d' then ok (identity, false) else err operation_conflict)
  unfolding reserve_row
  row_again key d d' identity t s h =
      rw (h.there, h.same_digest)
        (elim (Bool-cases (d == d')) [
          | inl same ↦ rw (same, h.same_identity) refl
          | inr other ↦ rw other refl
        ])

  -- A key that was reserved keeps its identity: after a reservation that returned, and any sequence of further
  -- reservations and markings, a reservation of the same key at an aware time answers that identity, as not
  -- new, if the digest of its values is the same, and raises TaskOperationConflict if not.
  pub reserve_again :
      (key d d' : String) (payload payload' : Fields) (now : Datetime) (t : ℕ) (steps : List Step)
      (s : TaskOperationStore) (op : TaskOperation)
      → lib.digest_of payload ≡ some d
      → lib.digest_of payload' ≡ some d'
      → (reserve lib key payload now s).0 ≡ ok op
      → reserved_as
          (reserve lib key payload' (aware t) (after steps (reserve lib key payload now s).1)).0
        ≡ (if d == d' then ok (op.identity, false) else err operation_conflict)
  unfolding reserve reserve_checked
  reserve_again key d d' payload payload' now t steps s op f f' e =
      let (good, first) = first_reservation key d payload now s op f e in
      let s' : TaskOperationStore = after steps (reserve lib key payload now s).1 in
      let kept : Reserved key d op.identity s' = after-Reserved key d op.identity steps _ first in
      let passed =
        guard_passes (is_bad_key lib key) value_error
          (reserve_checked lib key (aware t) (lib.digest_of payload')) s' good in
      ap (λ z. reserved_as z.0) passed
      ∙ ap (λ z. reserved_as (reserve_checked lib key (aware t) z s').0) f'
      ∙ ap reserved_as (transaction-answer (reserve_body lib key d' t) s')
      ∙ row_again key d d' op.identity t s' kept
