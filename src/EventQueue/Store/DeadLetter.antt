-- ===== src/EventQueue/Store/DeadLetter.antt =====
-- Terminal receipts (gtasks/event_queue/store.py): `record_terminal`, `reopen_terminal` and `release`, and
-- what a claim is answered after them.
use gtasks.Prelude.{
  ℕ, ◌≡◌, ◌≤◌, refl, inl, inr, String, Bool, true, false, ◌&&◌, Option, none, some, eq_iff, arith,
  leb, if◌then◌else◌, Bool-cases, Option-cases, ap, sym, ◌∙◌, subst,
}
use gtasks.Prelude.Exec.{
  Exec, ok, err, value_error, runtime_error, ◌>>◌, transaction, transaction_kept,
  transaction-answer, guard_passes,
}
use gtasks.Prelude.Tables.{
  any_row, find_row, find-update, find-test, update_rows, any-find, All-find,
}
use gtasks.EventQueue.Time.{Datetime, aware, naive, after_seconds}
use gtasks.EventQueue.Store.{
  Status, processing, accepted, terminal, Receipt, EventStore, TerminalRecord, Activity, Identity,
  process, busy, terminal_has_id, has_id, same_identity, con, record_body, record_terminal,
  mark_terminal, renew, is_processing, is_terminal, record_activity, release, reopen_terminal,
  reopen_body, claim, is_terminal_receipt,
}
use gtasks.EventQueue.Store.Terminals.{any-upsert_self}
use gtasks.EventQueue.Store.Invariant.{IsValid, ReceiptIsValid, StatusIsValid}
use gtasks.EventQueue.Store.Keeps.{record_terminal-IsValid, release-IsValid}
use gtasks.EventQueue.Store.Frame.{row}
use gtasks.EventQueue.Store.Matching.{con_open, con_closed, same_identity-matches}
use gtasks.EventQueue.Store.Lease.{colliding_answer}

record_terminal_open :
    (t : TerminalRecord) (s : EventStore)
    → s.connected ≡ true
    → record_terminal t s ≡ record_body t s
unfolding record_terminal
record_terminal_open t s up =
    con_open (transaction (record_body t)) s up ∙ transaction_kept (record_body t) s tt refl

record_terminal_closed :
    (t : TerminalRecord) (s : EventStore)
    → s.connected ≡ false
    → record_terminal t s ≡ (err runtime_error, s)
unfolding record_terminal
record_terminal_closed t s down = con_closed (transaction (record_body t)) s down

pub record_terminal-has :
    (t : TerminalRecord) (s : EventStore) {a : Unit {0}}
    → (record_terminal t s).0 ≡ ok a
    → any_row (terminal_has_id t.event_id) (record_terminal t s).1.terminals ≡ true
record_terminal-has t s e = elim (Bool-cases s.connected) [
  | inl up ↦ rw (record_terminal_open t s up) (has_row t s)
  | inr down ↦ cc (record_terminal_closed t s down)
]
  where
    has_row :
        (t : TerminalRecord) (s : EventStore)
        → any_row (terminal_has_id t.event_id) (record_body t s).1.terminals ≡ true
    has_row t s = unfold record_body in any-upsert_self t s.terminals

pub terminals-record_activity :
    (a : Activity) (now : Datetime) (s : EventStore)
    → (record_activity a now s).1.terminals ≡ s.terminals
unfolding record_activity
terminals-record_activity a (naive w) s = refl
terminals-record_activity a (aware t) s = ground arith

-- The receipt of an event after its event is recorded as terminal, whatever its status was.
record_body-row :
    (t : TerminalRecord) (r : Receipt) (s : EventStore)
    → row s t.event_id ≡ some r
    → row (record_body t s).1 t.event_id ≡ some (mark_terminal t.failed_at r)
unfolding record_body
record_body-row t r s h =
    rw
      (
        find-update (has_id t.event_id) (has_id t.event_id) (mark_terminal t.failed_at) (λ x. refl)
            s.receipts,
        h,
        find-test (has_id t.event_id) s.receipts h,
      )
      refl

-- Recording an event as terminal overrides an accepted receipt too: of an open store with valid tables,
-- a later claim of the same identity is answered BUSY, and not DUPLICATE.
pub claim-record_terminal :
    (c : Identity) (d : TerminalRecord) (t n : ℕ) (r : Receipt) (s : EventStore)
    → IsValid s
    → s.connected ≡ true
    → row s d.event_id ≡ some r
    → same_identity c r ≡ true
    → (claim c (aware t) n (record_terminal d s).1).0 ≡ ok busy
claim-record_terminal c d t n r s v up h same =
    let s' : EventStore = (record_body d s).1 in
    let v' : IsValid s' =
      subst (λ z. IsValid z.1) (record_terminal_open d s up) (record_terminal-IsValid d s v) in
    rw (record_terminal_open d s up) (
      colliding_answer d.event_id c t n (mark_terminal d.failed_at r) s' v'
        (unfold record_body in up) (record_body-row d r s h) (same_identity-matches c r same)
      ∙ rw same refl)

-- The receipt of an event after an update by a test that it passes.
hit-row :
    (e : String) (p : Receipt → Bool) (f : Receipt → Receipt) (r : Receipt) (s : EventStore)
    → ((x : Receipt) → (f x).event_id ≡ x.event_id)
    → row s e ≡ some r
    → p r ≡ true
    → find_row (has_id e) (update_rows p f s.receipts) ≡ some (f r)
hit-row e p f r s keeps h hit =
    rw (find-update (has_id e) p f (λ x. rw (keeps x) refl) s.receipts, h, hit) refl

release_open :
    (e : String) (t : ℕ) (s : EventStore)
    → s.connected ≡ true
    → release e (aware t) s ≡ (
      ok tt,
      record s {
        receipts = update_rows (λ r. has_id e r && is_processing r.status) (renew t t) s.receipts;
      },
    )
unfolding release
release_open e t s up = con_open _ s up

-- A released claim can be taken over at once: of an open store with valid tables, after the release of a
-- processing receipt at a time, a claim of its identity from that time on is answered PROCESS.
pub claim-release :
    (c : Identity) (t t' n : ℕ) (r : Receipt) (s : EventStore)
    → IsValid s
    → s.connected ≡ true
    → row s c.event_id ≡ some r
    → same_identity c r ≡ true
    → r.status ≡ processing
    → t ≤ t'
    → (claim c (aware t') n (release c.event_id (aware t) s).1).0 ≡ ok process
claim-release c t t' n r s v up h same st late =
    let s' : EventStore = record s {
      receipts =
          update_rows (λ q. has_id c.event_id q && is_processing q.status) (renew t t) s.receipts;
    } in
    let v' : IsValid s' =
      subst (λ z. IsValid z.1) (release_open c.event_id t s up)
        (release-IsValid c.event_id (aware t) s v) in
    rw (release_open c.event_id t s up) (
      colliding_answer c.event_id c t' n (renew t t r) s' v' up
        (hit-row c.event_id _ (renew t t) r s (λ x. refl) h
          (rw (find-test (has_id c.event_id) s.receipts h, st) refl))
        (same_identity-matches c r same)
      ∙ rw (same, st) (ground arith))

-- there is a receipt, and it is terminal
abbrev has_terminal_status : Option Receipt → Bool
has_terminal_status none = false
has_terminal_status (some r) = is_terminal r.status

no_row :
    (st : Status) (lease : Option ℕ) (v : Option String) (dead : Bool)
    → StatusIsValid st lease v dead
    → dead ≡ false
    → false ≡ is_terminal st
no_row processing lease v dead h e = refl
no_row accepted lease v dead h e = refl
no_row terminal lease v dead h e = cc

reopen_body-answer :
    (e : String) (t u : ℕ) (s : EventStore)
    → is_terminal_receipt (row s e) (find_row (terminal_has_id e) s.terminals)
      ≡ has_terminal_status (row s e)
    → (reopen_body e t u s).0 ≡ (if has_terminal_status (row s e) then ok tt else err value_error)
unfolding reopen_body
reopen_body-answer e t u s test = elim (Bool-cases (has_terminal_status (row s e))) [
  | inl dead ↦ rw (test, dead) refl
  | inr live ↦ rw (test, live) refl
]

-- A terminal receipt has its row in the terminals, so the test of `reopen_terminal` is on its status.
reopen_test :
    (e : String) (r : Receipt) (s : EventStore)
    → IsValid s
    → row s e ≡ some r
    → is_terminal_receipt (row s e) (find_row (terminal_has_id e) s.terminals)
      ≡ is_terminal r.status
reopen_test e r s v h =
    let same : r.event_id ≡ e = (eq_iff r.event_id e).0 (find-test (has_id e) s.receipts h) in
    let valid : ReceiptIsValid s.terminals r =
      All-find (ReceiptIsValid s.terminals) (has_id e) s.receipts v.rows h in
    rw h (elim (Option-cases (find_row (terminal_has_id e) s.terminals)) [
      | inl gone ↦ rw gone (
          no_row r.status r.lease_expires_at r.handler_version _ valid
            (rw (same, any-find (terminal_has_id e) s.terminals, gone) refl))
      | inr (t, found) ↦ rw found refl
    ])

reopen_test_row :
    (e : String) (s : EventStore)
    → IsValid s
    → is_terminal_receipt (row s e) (find_row (terminal_has_id e) s.terminals)
      ≡ has_terminal_status (row s e)
reopen_test_row e s v = elim (Option-cases (row s e)) [
  | inl gone ↦ rw gone refl
  | inr (r, found) ↦ reopen_test e r s v found ∙ ap has_terminal_status (sym found)
]

-- Of an open store with valid tables, `reopen_terminal` with a positive lease returns exactly for an event
-- that has a receipt and whose receipt is terminal; for any other event it raises ValueError.
pub reopen_terminal-answer :
    (e : String) (t n : ℕ) (s : EventStore)
    → IsValid s
    → s.connected ≡ true
    → 1 ≤ n
    → (reopen_terminal e (aware t) n s).0
      ≡ (if has_terminal_status (row s e) then ok tt else err value_error)
unfolding reopen_terminal
reopen_terminal-answer e t n s v up some_lease =
    let body : Exec EventStore (Unit {0}) = reopen_body e t (after_seconds t n) in
    ap (λ z. z.0)
      (guard_passes (leb n 0) value_error (con >> transaction body) s (ground arith)
        ∙ con_open (transaction body) s up)
    ∙ transaction-answer body s
    ∙ reopen_body-answer e t (after_seconds t n) s (reopen_test_row e s v)
