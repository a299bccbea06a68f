-- ===== src/EventQueue/Store/Frame.antt =====
-- Which calls of the methods of `EventStore` (gtasks/event_queue/store.py) leave a receipt alone.
use gtasks.Prelude.{
  ℕ, ◌≡◌, ◌≢◌, refl, inl, inr, String, Bool, true, false, ◌&&◌, not, Option, none, some, List, [],
  ◌∷◌, eq_iff, arith, sym, ◌∙◌, subst, leb, ltb, nat_eq, Bool-cases,
}
use gtasks.Prelude.Exec.{
  Exec, runtime_error, value_error, ◌>>◌, after_raise_if, after_last_raise_if, after_transaction,
}
use gtasks.Prelude.Tables.{
  All, find_row, update_rows, count_rows, find-test, find-update, find-append_old,
}
use gtasks.EventQueue.Time.{Datetime, aware, naive, after_seconds}
use gtasks.EventQueue.Store
use gtasks.EventQueue.Store.{
  Status, processing, accepted, terminal, Receipt, TerminalRecord, Activity, EventStore, Identity,
  has_id, terminal_has_id, matches, same_identity, renew, is_processing, is_terminal, is_live,
  new_receipt, acceptable, mark_terminal, reopen, claim_status, claim_row, claim_body, record_body,
  reopen_body, reopen_write, con, is_terminal_receipt,
}
use gtasks.EventQueue.Store.Invariant.{IsValid, same_row, same_identity-has_id}
use gtasks.EventQueue.Store.Calls.{Call, step, run, step-IsValid}

-- the receipt of an event
abbrev pub row : EventStore → String → Option Receipt
row s e = find_row (has_id e) s.receipts

-- the test by which `claim` takes over a receipt
abbrev pub renewable : Status → Option ℕ → ℕ → Bool
renewable processing (some lease) t = not (ltb t lease)
renewable _ _ _ = false

abbrev pub ClaimSpares : Identity → Datetime → Receipt → Type 0
ClaimSpares c (aware t) r =
    r.event_id ≡ c.event_id → renewable r.status r.lease_expires_at t ≡ false
ClaimSpares c (naive w) r = Unit

-- the calls that leave a receipt as it is
abbrev pub Spares : Call → Receipt → Type 0
Spares (Call.claim c now n) r = ClaimSpares c now r
Spares (Call.release e now) r = r.event_id ≡ e → is_processing r.status ≡ false
Spares (Call.accept e v now) r = r.event_id ≡ e → is_live r.status ≡ false
Spares (Call.record_terminal t) r = r.event_id ≢ t.event_id
Spares (Call.reopen_terminal e now n) r = r.event_id ≡ e → is_terminal r.status ≡ false
Spares (Call.record_activity a now) r = Unit
Spares Call.close r = Unit

not_terminal :
    (r : Receipt) (t : Option TerminalRecord)
    → is_terminal r.status ≡ false
    → is_terminal_receipt (some r) t ≡ false
not_terminal r none h = refl
not_terminal r (some t) h = h

true_ne_false : ◌≡◌ {A = Bool} true false → ⊥
true_ne_false h = cc

module _ (e : String) (r : Receipt) where
  abbrev HasRow : EventStore → Type 0
  HasRow s = row s e ≡ some r

  row_id : (s : EventStore) → HasRow s → r.event_id ≡ e
  row_id s h = (eq_iff r.event_id e).0 (find-test (has_id e) s.receipts h)

  -- an update that keeps the event ids and does not touch the receipt
  update-row :
      (p : Receipt → Bool) (f : Receipt → Receipt)
      → ((x : Receipt) → (f x).event_id ≡ x.event_id)
      → (rs : List Receipt) → p r ≡ false
      → find_row (has_id e) rs ≡ some r
      → find_row (has_id e) (update_rows p f rs) ≡ some r
  update-row p f keeps rs miss h =
      rw (find-update (has_id e) p f (λ x. rw (keeps x)) rs, h, miss) refl

  con-row :
      {A : Type 0} (m : Exec EventStore A) (s : EventStore)
      → HasRow s
      → HasRow (m s).1
      → HasRow ((con >> m) s).1
  unfolding con
  con-row m s = after_raise_if HasRow (not s.connected) runtime_error m s

  missed : (j : String) → r.event_id ≢ j → has_id j r ≡ false
  missed j ne = ground (arith, eq_iff r.event_id j)

  -- an update by event id and a test, where the test fails on the receipt of that event
  missed_unless : (j : String) (b : Bool) → (r.event_id ≡ j → b ≡ false) → (has_id j r && b) ≡ false
  missed_unless j b f = ground (arith, eq_iff r.event_id j)

  claim_status-row :
      (c : Identity) (t u : ℕ) (st : Status) (lease : Option ℕ) (s : EventStore)
      → (r.event_id ≡ c.event_id → renewable st lease t ≡ false)
      → HasRow s
      → HasRow (claim_status c t u st lease s).1
  unfolding claim_status
  claim_status-row c t u accepted lease s spared h = h
  claim_status-row c t u terminal lease s spared h = h
  claim_status-row c t u processing none s spared h = h
  claim_status-row c t u processing (some l) s spared h = elim (Bool-cases (ltb t l)) [
    | inl early ↦ rw early h
    | inr late ↦ rw late (
        update-row (has_id c.event_id) (renew t u) (λ x. refl) s.receipts
          (missed c.event_id (λ same. true_ne_false (rw late at (spared same)))) h)
  ]

  claim_row-row :
      (c : Identity) (t u : ℕ) (found : Option Receipt) (s : EventStore)
      → IsValid s
      → find_row (matches c) s.receipts ≡ found
      → ClaimSpares c (aware t) r
      → HasRow s
      → HasRow (claim_row c t u found s).1
  unfolding claim_row
  claim_row-row c t u none s v f spared h = find-append_old (has_id e) s.receipts _ r h
  claim_row-row c t u (some q) s v f spared h = elim (Bool-cases (same_identity c q)) [
    | inl same ↦ rw same (
        claim_status-row c t u q.status q.lease_expires_at s
          (λ hit.
            subst (λ z. renewable z.status z.lease_expires_at t ≡ false)
              (same_row (matches c) (has_id e) c.event_id s.receipts v.distinct f
                (same_identity-has_id c q same) h ((eq_iff r.event_id c.event_id).1 hit))
              (spared hit))
          h)
    | inr other ↦ rw other h
  ]

  reopen_body-row :
      (j : String) (t u : ℕ) (s : EventStore)
      → (r.event_id ≡ j → is_terminal r.status ≡ false)
      → HasRow s
      → HasRow (reopen_body j t u s).1
  unfolding reopen_body
  reopen_body-row j t u s spared h = elim (Bool-cases (has_id j r)) [
    | inl hit ↦
        let same : r.event_id ≡ j = (eq_iff r.event_id j).0 hit in
        let here : row s j ≡ some r = subst (λ z. row s z ≡ some r) (sym (row_id s h) ∙ same) h in
        rw
          (
            here,
            is_terminal_receipt,
            not_terminal r (find_row (terminal_has_id j) s.terminals) (spared same),
          )
          h
    | inr miss ↦
        after_raise_if HasRow
          (not (
            is_terminal_receipt (find_row (has_id j) s.receipts)
              (find_row (terminal_has_id j) s.terminals)))
          value_error (reopen_write j t u) s h
          (update-row (has_id j) (reopen t u) (λ x. refl) s.receipts miss h)
  ]

  -- One call that spares the receipt leaves it as it is.
  step-row : (c : Call) (s : EventStore) → IsValid s → Spares c r → HasRow s → HasRow (step c s)
  unfolding step Store.claim Store.release Store.accept Store.record_terminal Store.reopen_terminal
      Store.record_activity Store.close
  step-row (Call.claim c (naive w) n) s v spared h = h
  step-row (Call.claim c (aware t) n) s v spared h = con-row _ s h (
      after_transaction HasRow (claim_body c t (after_seconds t n)) s h
        (claim_row-row c t (after_seconds t n) _ s v refl spared h))
  step-row (Call.release j (naive w)) s v spared h = h
  step-row (Call.release j (aware t)) s v spared h =
      con-row _ s h (update-row _ (renew t t) (λ x. refl) s.receipts (missed_unless j _ spared) h)
  step-row (Call.accept j w (naive t)) s v spared h = h
  step-row (Call.accept j w (aware t)) s v spared h = con-row _ s h (
      after_last_raise_if HasRow (not (nat_eq (count_rows (acceptable j) s.receipts) 1))
        runtime_error _
        (update-row (acceptable j) _ (λ x. refl) s.receipts (missed_unless j _ spared) h))
  step-row (Call.record_terminal t) s v spared h = con-row _ s h (
      after_transaction HasRow (record_body t) s h (
        update-row (has_id t.event_id) (mark_terminal t.failed_at) (λ x. refl) s.receipts
          (missed _ spared) h))
  step-row (Call.reopen_terminal j (naive w) n) s v spared h = h
  step-row (Call.reopen_terminal j (aware t) n) s v spared h =
      after_raise_if HasRow (leb n 0) value_error _ s h (
        con-row _ s h (
          after_transaction HasRow (reopen_body j t (after_seconds t n)) s h
            (reopen_body-row j t (after_seconds t n) s spared h)))
  step-row (Call.record_activity a (naive w)) s v spared h = h
  step-row (Call.record_activity a (aware t)) s v spared h = con-row _ s h h
  step-row Call.close s v spared h = h

  abbrev SparedBy : Call → Type 0
  SparedBy c = Spares c r

  -- A receipt stays as it is through any sequence of calls each of which spares it.
  pub run-row :
      (cs : List Call) (s : EventStore) → IsValid s → All SparedBy cs → HasRow s → HasRow (run cs s)
  unfolding run
  run-row [] s v spared h = h
  run-row (c ∷ cs) s v spared h =
      run-row cs (step c s) (step-IsValid c s v) spared.1 (step-row c s v spared.0 h)
