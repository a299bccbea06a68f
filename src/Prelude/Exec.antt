-- ===== src/Prelude/Exec.antt =====
-- Actions that change a state and may raise. What was written before a raise stays written, so the
-- state comes back beside the error too; a database transaction is the exception.
use mathlib.Core.Path.{◌≡◌, refl, subst}
use mathlib.Core.Bool.{Bool, true, false}
use Prim.Native.String.{String}

-- The exceptions that the program raises and catches.
--   handler_failure code retriable: `HandlerFailure` of handler.py
--   claim_conflict: `ClaimConflict` of store.py
--   operation_conflict: `TaskOperationConflict` of task_operations.py
--   deadline_exceeded, capacity_exceeded: `ReadDeadlineExceeded` and `ReadCapacityExceeded` of read_budget.py
--   contract_error: `ContractError` of contract.py
--   domain_error: `DomainValidationError` of handoff.py and domain.py
--   protocol_error, page_not_found: `GBrainProtocolError` and `GBrainPageNotFound` of gbrain_adapter.py
--   runtime_error, value_error, type_error, key_error: the built-in classes
--   other_error: an exception of any other class, raised by code outside the repository
pub data Error : Type 0 where
  handler_failure : String → Bool → Error
  claim_conflict operation_conflict deadline_exceeded capacity_exceeded binding_rejected : Error
  contract_error domain_error protocol_error page_not_found runtime_error value_error type_error
        key_error other_error :
      Error

pub data Result (A : Type 0) : Type 0 where
  ok : A → Result A
  err : Error → Result A

abbrev pub Exec : Type 0 → Type 0 → Type 0
Exec S A = S → Result A × S

module _ {S A : Type 0} where
  abbrev pub pure : A → Exec S A
  pure a s = (ok a, s)

  abbrev pub raise : Error → Exec S A
  raise e s = (err e, s)

  abbrev pub lift : Result A → Exec S A
  lift r s = (r, s)

  abbrev pub gets : (S → A) → Exec S A
  gets f s = (ok (f s), s)

  -- `except Exception: rollback; raise` round a transaction
  abbrev pub rollback : S → Result A → S → Result A × S
  rollback before (ok a) after = (ok a, after)
  rollback before (err e) after = (err e, before)

  abbrev pub transaction : Exec S A → Exec S A
  transaction m s = let (r, s') = m s in rollback s r s'

  -- `try: m except …`: the handler sees the error and the state that the raise left
  abbrev pub handled : (Error → Exec S A) → Result A → Exec S A
  handled f (ok a) s = (ok a, s)
  handled f (err e) s = f e s

  abbrev pub catch : Exec S A → (Error → Exec S A) → Exec S A
  catch m f s = let (r, s') = m s in handled f r s'

module _ {S : Type 0} where
  abbrev pub modify : (S → S) → Exec S (Unit {0})
  modify f s = (ok tt, f s)

  abbrev pub raise_if : Bool → Error → Exec S (Unit {0})
  raise_if true e s = (err e, s)
  raise_if false e s = (ok tt, s)

module _ {S A B : Type 0} where
  infixl 5 ◌>>=◌ ◌>>◌
  abbrev pub continue : Result A → (A → Exec S B) → Exec S B
  continue (ok a) f s = f a s
  continue (err e) f s = (err e, s)

  abbrev pub ◌>>=◌ : Exec S A → (A → Exec S B) → Exec S B
  ◌>>=◌ m f s = let (r, s') = m s in continue r f s'

  abbrev pub ◌>>◌ : Exec S A → Exec S B → Exec S B
  m >> n = m >>= λ _. n

-- What holds before and after the rest of an action holds after a guard, and after a transaction.
module _ {S A : Type 0} (P : S → Type 0) where
  pub after_raise_if :
      (b : Bool) (e : Error) (m : Exec S A) (s : S) → P s → P (m s).1 → P ((raise_if b e >> m) s).1
  after_raise_if true e m s h k = h
  after_raise_if false e m s h k = k

  after_rollback :
      (before after : S) (r : Result A) → P before → P after → P (rollback before r after).1
  after_rollback before after (ok a) h k = k
  after_rollback before after (err e) h k = h

  pub after_transaction : (m : Exec S A) (s : S) → P s → P (m s).1 → P (transaction m s).1
  after_transaction m s h k = after_rollback s (m s).1 (m s).0 h k

module _ {S : Type 0} (P : S → Type 0) where
  pub after_last_raise_if : (b : Bool) (e : Error) (s : S) → P s → P (raise_if b e s).1
  after_last_raise_if true e s h = h
  after_last_raise_if false e s h = h

module _ {S A : Type 0} where
  pub guard_passes :
      (b : Bool) (e : Error) (m : Exec S A) (s : S) → b ≡ false → (raise_if b e >> m) s ≡ m s
  guard_passes true e m s h = cc
  guard_passes false e m s h = refl

  pub guard_fails :
      (b : Bool) (e : Error) (m : Exec S A) (s : S) → b ≡ true → (raise_if b e >> m) s ≡ (err e, s)
  guard_fails true e m s h = refl
  guard_fails false e m s h = cc

  rollback-answer : (before after : S) (r : Result A) → (rollback before r after).0 ≡ r
  rollback-answer before after (ok a) = refl
  rollback-answer before after (err e) = refl

  -- a transaction answers as its body does
  pub transaction-answer : (m : Exec S A) (s : S) → (transaction m s).0 ≡ (m s).0
  transaction-answer m s = rollback-answer s (m s).1 (m s).0

  rollback_unchanged :
      (Q : Result A → Type 0) (before after : S) (r : Result A)
      → (Q r → after ≡ before)
      → Q r
      → (rollback before r after).1 ≡ before
  rollback_unchanged Q before after (ok a) h q = h q
  rollback_unchanged Q before after (err e) h q = refl

  -- a transaction changes nothing where its body changes nothing
  pub transaction_unchanged :
      (Q : Result A → Type 0) (m : Exec S A) (s : S)
      → (Q (m s).0 → (m s).1 ≡ s)
      → Q (transaction m s).0
      → (transaction m s).1 ≡ s
  transaction_unchanged Q m s h q =
      rollback_unchanged Q s (m s).1 (m s).0 h (subst Q (transaction-answer m s) q)

  rollback_kept :
      (before after : S) (r : Result A) (a : A) → r ≡ ok a → rollback before r after ≡ (r, after)
  rollback_kept before after (ok b) a h = refl
  rollback_kept before after (err e) a h = cc

  -- a transaction that returns is its body
  pub transaction_kept : (m : Exec S A) (s : S) (a : A) → (m s).0 ≡ ok a → transaction m s ≡ m s
  transaction_kept m s a h = rollback_kept s (m s).1 (m s).0 a h

-- What holds when a step ends, and after the rest where the step returned, holds after both.
module _ {S A B : Type 0} (P : S → Type 0) where
  pub after_step :
      (r : Result A) (f : A → Exec S B) (s : S)
      → P s
      → ((a : A) → P (f a s).1)
      → P (continue r f s).1
  after_step (ok a) f s h k = k a
  after_step (err e) f s h k = h

-- inversion of an action that returned
module _ {S A B : Type 0} where
  continue-ok :
      (r : Result A) (f : A → Exec S B) (s : S) {b : B}
      → (continue r f s).0 ≡ ok b
      → (a : A) × (r ≡ ok a) × ((f a s).0 ≡ ok b)
  continue-ok (ok a) f s h = (a, refl, h)
  continue-ok (err e) f s h = cc

  pub returned :
      (m : Exec S A) (f : A → Exec S B) (s : S) {b : B}
      → ((m >>= f) s).0 ≡ ok b
      → (a : A) × ((m s).0 ≡ ok a) × ((f a (m s).1).0 ≡ ok b)
  returned m f s h = continue-ok (m s).0 f (m s).1 h

module _ {S A : Type 0} where
  pub returned_guard :
      (b : Bool) (e : Error) (m : Exec S A) (s : S) {a : A}
      → ((raise_if b e >> m) s).0 ≡ ok a
      → (b ≡ false) × ((m s).0 ≡ ok a)
  returned_guard true e m s h = cc
  returned_guard false e m s h = (refl, h)

module _ {S A B : Type 0} where
  continue-goes_on :
      (r : Result A) (f : A → Exec S B) (s : S) (a : A) → r ≡ ok a → continue r f s ≡ f a s
  continue-goes_on (ok b) f s a h = cc
  continue-goes_on (err e) f s a h = cc

  -- after an action that returned comes the rest
  pub goes_on :
      (m : Exec S A) (f : A → Exec S B) (s : S) (a : A) → (m s).0 ≡ ok a → (m >>= f) s ≡ f a (m s).1
  goes_on m f s a h = continue-goes_on (m s).0 f (m s).1 a h
