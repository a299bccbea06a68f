-- ===== src/EventQueue/Store/Calls.antt =====
-- Sequences of calls of the methods of `EventStore` (gtasks/event_queue/store.py): what they keep.
use gtasks.Prelude.{ℕ, String, List, [], ◌∷◌}
use gtasks.EventQueue.Time.{Datetime}
use gtasks.EventQueue.Store
use gtasks.EventQueue.Store.{
  Status, processing, accepted, terminal, Receipt, TerminalRecord, Activity, EventStore, Identity,
  has_id, terminal_has_id, matches, same_identity, renew, is_processing, is_terminal, is_live,
  new_receipt, acceptable, mark_terminal, reopen, claim_status, claim_row, claim_body, record_body,
  reopen_body, reopen_write, con, is_terminal_receipt,
}
use gtasks.EventQueue.Store.Invariant.{IsValid}
use gtasks.EventQueue.Store.Keeps.{
  claim-IsValid, release-IsValid, accept-IsValid, record_terminal-IsValid, reopen_terminal-IsValid,
  record_activity-IsValid, close-IsValid,
}

-- a call of a method that changes the store
pub data Call : Type 0 where
  claim : Identity → Datetime → ℕ → Call
  release : String → Datetime → Call
  accept : String → String → Datetime → Call
  record_terminal : TerminalRecord → Call
  reopen_terminal : String → Datetime → ℕ → Call
  record_activity : Activity → Datetime → Call
  close : Call

-- the store after a call, whether it returned or raised
unfoldable pub step : Call → EventStore → EventStore
step (Call.claim c now n) s = (Store.claim c now n s).1
step (Call.release e now) s = (Store.release e now s).1
step (Call.accept e v now) s = (Store.accept e v now s).1
step (Call.record_terminal t) s = (Store.record_terminal t s).1
step (Call.reopen_terminal e now n) s = (Store.reopen_terminal e now n s).1
step (Call.record_activity a now) s = (Store.record_activity a now s).1
step Call.close s = (Store.close s).1

unfoldable pub run : List Call → EventStore → EventStore
run [] s = s
run (c ∷ cs) s = run cs (step c s)

pub step-IsValid : (c : Call) (s : EventStore) → IsValid s → IsValid (step c s)
unfolding step
step-IsValid (Call.claim c now n) s v = claim-IsValid c now n s v
step-IsValid (Call.release e now) s v = release-IsValid e now s v
step-IsValid (Call.accept e w now) s v = accept-IsValid e w now s v
step-IsValid (Call.record_terminal t) s v = record_terminal-IsValid t s v
step-IsValid (Call.reopen_terminal e now n) s v = reopen_terminal-IsValid e now n s v
step-IsValid (Call.record_activity a now) s v = record_activity-IsValid a now s v
step-IsValid Call.close s v = close-IsValid s v

-- From a store whose tables are valid, any sequence of calls of the store's methods, whether they
-- return or raise, ends in a store whose tables are valid: event ids and pairs of source and
-- idempotency key are unique among the receipts, a processing receipt has a lease, an accepted one has
-- a handler version and no lease, a terminal one has no lease and has its row in the terminals, whose
-- event ids are unique, and the ids of the activity rows rise and lie below the next id.
pub run-IsValid : (cs : List Call) (s : EventStore) → IsValid s → IsValid (run cs s)
unfolding run
run-IsValid [] s v = v
run-IsValid (c ∷ cs) s v = run-IsValid cs (step c s) (step-IsValid c s v)
