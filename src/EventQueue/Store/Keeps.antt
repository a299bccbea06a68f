-- ===== src/EventQueue/Store/Keeps.antt =====
-- Each method of `EventStore` (gtasks/event_queue/store.py) keeps the invariant of the tables, and so
-- does any sequence of calls.
use gtasks.Prelude.{
  ℕ, ◌+◌, ◌<◌, ◌≡◌, refl, inl, inr, String, Bool, true, ◌&&◌, not, Option, none, some, arith, leb,
  ltb, nat_eq, ap, ◌∙◌, Bool-cases,
}
use gtasks.Prelude.Exec.{
  Exec, runtime_error, value_error, ◌>>◌, after_raise_if, after_last_raise_if, after_transaction,
}
use gtasks.Prelude.Tables.{
  All, find_row, update_rows, delete_rows, All-map, All-zip, All-append, Pairs-append, count_rows,
  All-update, Pairs-delete,
}
use gtasks.EventQueue.Time.{Datetime, aware, naive, after_seconds}
use gtasks.EventQueue.Store.{
  Status, processing, accepted, terminal, Receipt, TerminalRecord, Activity, EventStore, Identity,
  has_id, terminal_has_id, matches, same_identity, renew, is_processing, acceptable, mark_accepted,
  upsert_terminal, mark_terminal, reopen, claim_status, claim_row, claim_body, record_body,
  reopen_body, reopen_write, con, is_terminal_receipt, claim, release, accept, record_terminal,
  reopen_terminal, record_activity, close,
}
use gtasks.EventQueue.Store.Terminals.{
  any-upsert_mono, any-upsert_hit, upsert-distinct, any-delete_ne,
}
use gtasks.EventQueue.Store.Invariant.{
  StatusIsValid, ReceiptIsValid, IsValid, update-distinct, update-IsValid, insert-IsValid,
  unique_row, same_identity-has_id,
}

abbrev Processing : String → EventStore → Type 0
Processing e s = All (λ r. has_id e r ≡ true → r.status ≡ processing) s.receipts

StatusIsValid-renewed :
    (st : Status) (u : ℕ) (v : Option String) (dead : Bool)
    → st ≡ processing
    → StatusIsValid st (some u) v dead
StatusIsValid-renewed st u v dead h = rw h refl

renew-IsValid :
    (e : String) (t u : ℕ) (s : EventStore)
    → Processing e s
    → IsValid s
    → IsValid (record s { receipts = update_rows (has_id e) (renew t u) s.receipts })
renew-IsValid e t u s busy v = record {
  rows =
      All-update (λ r. ReceiptIsValid s.terminals r × (has_id e r ≡ true → r.status ≡ processing))
        (ReceiptIsValid s.terminals) (has_id e) (renew t u)
        (λ r h hit. StatusIsValid-renewed r.status u r.handler_version _ (h.1 hit)) (λ r h _. h.0)
        s.receipts (All-zip _ _ s.receipts v.rows busy);
  distinct =
      update-distinct (has_id e) (renew t u) (λ r. refl) (λ r. refl) (λ r. refl) s.receipts
        v.distinct;
  terminals_distinct = v.terminals_distinct;
  ids_below = v.ids_below;
  ids_rise = v.ids_rise;
}

claim_status-IsValid :
    (c : Identity) (t u : ℕ) (st : Status) (lease : Option ℕ) (s : EventStore)
    → (st ≡ processing → Processing c.event_id s)
    → IsValid s
    → IsValid (claim_status c t u st lease s).1
unfolding claim_status
claim_status-IsValid c t u accepted lease s h v = v
claim_status-IsValid c t u terminal lease s h v = v
claim_status-IsValid c t u processing none s h v = v
claim_status-IsValid c t u processing (some l) s h v = elim (Bool-cases (ltb t l)) [
  | inl e ↦ rw e v
  | inr e ↦ rw e (renew-IsValid c.event_id t u s (h refl) v)
]

claim_row-IsValid :
    (c : Identity) (t u : ℕ) (row : Option Receipt) (s : EventStore)
    → find_row (matches c) s.receipts ≡ row
    → IsValid s
    → IsValid (claim_row c t u row s).1
unfolding claim_row
claim_row-IsValid c t u none s e v = insert-IsValid c t u s e v
claim_row-IsValid c t u (some r) s e v = elim (Bool-cases (same_identity c r)) [
  | inl same ↦ rw same (
      claim_status-IsValid c t u r.status r.lease_expires_at s
        (λ p.
          All-map (λ q. has_id c.event_id q ≡ true → q ≡ r) _
            (λ q is_r found. ap (λ z. z.status) (is_r found) ∙ p) s.receipts
            (unique_row (matches c) c.event_id s.receipts v.distinct e
              (same_identity-has_id c r same)))
        v)
  | inr other ↦ rw other v
]

-- a closed store raises and is left alone
after_con :
    {A : Type 0} (m : Exec EventStore A) (s : EventStore)
    → IsValid s
    → IsValid (m s).1
    → IsValid ((con >> m) s).1
unfolding con
after_con m s = after_raise_if IsValid (not s.connected) runtime_error m s

pub claim-IsValid :
    (c : Identity) (now : Datetime) (n : ℕ) (s : EventStore)
    → IsValid s
    → IsValid (claim c now n s).1
unfolding claim
claim-IsValid c (naive w) n s v = v
claim-IsValid c (aware t) n s v = after_con _ s v (
    after_transaction IsValid (claim_body c t (after_seconds t n)) s v
      (claim_row-IsValid c t (after_seconds t n) _ s refl v))

StatusIsValid-released :
    (st : Status) (t : ℕ) (v : Option String) (dead : Bool)
    → is_processing st ≡ true
    → StatusIsValid st (some t) v dead
StatusIsValid-released processing t v dead h = refl
StatusIsValid-released accepted t v dead h = cc
StatusIsValid-released terminal t v dead h = cc

pub release-IsValid :
    (e : String) (now : Datetime) (s : EventStore) → IsValid s → IsValid (release e now s).1
unfolding release
release-IsValid e (naive w) s v = v
release-IsValid e (aware t) s v = after_con _ s v (
    update-IsValid (λ r. has_id e r && is_processing r.status) (renew t t) (λ r. refl) (λ r. refl)
      (λ r. refl) s
      (λ r h hit. StatusIsValid-released r.status t r.handler_version _ (ground arith)) v)

pub accept-IsValid :
    (e version : String) (now : Datetime) (s : EventStore)
    → IsValid s
    → IsValid (accept e version now s).1
unfolding accept
accept-IsValid e version (naive w) s v = v
accept-IsValid e version (aware t) s v = after_con _ s v (
    after_last_raise_if IsValid (not (nat_eq (count_rows (acceptable e) s.receipts) 1))
      runtime_error _ kept)
  where
    kept :
        IsValid
          (record s { receipts = update_rows (acceptable e) (mark_accepted version t) s.receipts })
    kept =
        update-IsValid (acceptable e) (mark_accepted version t) (λ r. refl) (λ r. refl) (λ r. refl)
          s (λ r h hit. (refl, refl)) v

StatusIsValid-mono :
    (st : Status) (lease : Option ℕ) (v : Option String) (dead dead' : Bool)
    → (dead ≡ true → dead' ≡ true)
    → StatusIsValid st lease v dead
    → StatusIsValid st lease v dead'
StatusIsValid-mono processing lease v dead dead' f h = h
StatusIsValid-mono accepted lease v dead dead' f h = h
StatusIsValid-mono terminal lease v dead dead' f h = (h.0, f h.1)

record_body-IsValid :
    (t : TerminalRecord) (s : EventStore) → IsValid s → IsValid (record_body t s).1
unfolding record_body
record_body-IsValid t s v = record {
  rows =
      All-update (ReceiptIsValid s.terminals) (ReceiptIsValid (upsert_terminal t s.terminals))
        (has_id t.event_id) (mark_terminal t.failed_at)
        (λ r h hit. (refl, any-upsert_hit r.event_id t s.terminals hit))
        (λ r h miss.
          StatusIsValid-mono r.status r.lease_expires_at r.handler_version _ _
            (any-upsert_mono r.event_id t s.terminals) h)
        s.receipts v.rows;
  distinct =
      update-distinct (has_id t.event_id) (mark_terminal t.failed_at) (λ r. refl) (λ r. refl)
        (λ r. refl) s.receipts v.distinct;
  terminals_distinct = upsert-distinct t s.terminals v.terminals_distinct;
  ids_below = v.ids_below;
  ids_rise = v.ids_rise;
}

pub record_terminal-IsValid :
    (t : TerminalRecord) (s : EventStore) → IsValid s → IsValid (record_terminal t s).1
unfolding record_terminal
record_terminal-IsValid t s v =
    after_con _ s v (after_transaction IsValid (record_body t) s v (record_body-IsValid t s v))

reopen_body-IsValid :
    (e : String) (t u : ℕ) (s : EventStore) → IsValid s → IsValid (reopen_body e t u s).1
unfolding reopen_body
reopen_body-IsValid e t u s v =
    after_raise_if IsValid
      (not (
        is_terminal_receipt (find_row (has_id e) s.receipts)
          (find_row (terminal_has_id e) s.terminals)))
      value_error (reopen_write e t u) s v
      (record {
        rows =
            All-update (ReceiptIsValid s.terminals)
              (ReceiptIsValid (delete_rows (terminal_has_id e) s.terminals)) (has_id e) (reopen t u)
              (λ r h hit. refl)
              (λ r h miss.
                StatusIsValid-mono r.status r.lease_expires_at r.handler_version _ _
                  (λ k. any-delete_ne e r.event_id s.terminals miss ∙ k) h)
              s.receipts v.rows;
        distinct =
            update-distinct (has_id e) (reopen t u) (λ r. refl) (λ r. refl) (λ r. refl) s.receipts
              v.distinct;
        terminals_distinct = Pairs-delete _ (terminal_has_id e) s.terminals v.terminals_distinct;
        ids_below = v.ids_below;
        ids_rise = v.ids_rise;
      })

pub reopen_terminal-IsValid :
    (e : String) (now : Datetime) (n : ℕ) (s : EventStore)
    → IsValid s
    → IsValid (reopen_terminal e now n s).1
unfolding reopen_terminal
reopen_terminal-IsValid e (naive w) n s v = v
reopen_terminal-IsValid e (aware t) n s v = after_raise_if IsValid (leb n 0) value_error _ s v (
    after_con _ s v (
      after_transaction IsValid (reopen_body e t (after_seconds t n)) s v
        (reopen_body-IsValid e t (after_seconds t n) s v)))

pub record_activity-IsValid :
    (a : Activity) (now : Datetime) (s : EventStore)
    → IsValid s
    → IsValid (record_activity a now s).1
unfolding record_activity
record_activity-IsValid a (naive w) s v = v
record_activity-IsValid a (aware t) s v = after_con _ s v (record {
  rows = v.rows;
  distinct = v.distinct;
  terminals_distinct = v.terminals_distinct;
  ids_below =
      All-append (λ x. x.id < s.next_id + 1) s.activity _
        (All-map (λ x. x.id < s.next_id) _ (λ x h. omega arith) s.activity v.ids_below)
        (omega arith, tt);
  ids_rise = Pairs-append (λ x y. x.id < y.id) s.activity _ v.ids_rise v.ids_below;
})

pub close-IsValid : (s : EventStore) → IsValid s → IsValid (close s).1
unfolding close
close-IsValid s v = record {
  rows = v.rows;
  distinct = v.distinct;
  terminals_distinct = v.terminals_distinct;
  ids_below = v.ids_below;
  ids_rise = v.ids_rise;
}
