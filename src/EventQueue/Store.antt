-- ===== src/EventQueue/Store.antt =====
-- gtasks/event_queue/store.py: the receipts, terminals and activity tables of the SQLite store and
-- the methods of `EventStore`. A method holds the lock, and SQLite serialises transactions, so each
-- is one step. Failures of SQLite itself are not modelled.
pub mod Invariant
pub mod Terminals
pub mod Keeps
pub mod Calls
pub mod Frame
pub mod Matching
pub mod Claim
pub mod Held
pub mod Lease
pub mod DeadLetter
use gtasks.Prelude.{
  ℕ, ◌+◌, String, Bool, true, false, not, ◌&&◌, ◌||◌, Option, none, some, List, [], ◌∷◌, ◌++◌, ◌==◌,
  ltb, leb, nat_eq, if◌then◌else◌,
}
use gtasks.Prelude.Exec.{
  Exec, pure, raise, lift, gets, modify, raise_if, transaction, ◌>>=◌, ◌>>◌, claim_conflict,
  runtime_error, value_error, type_error,
}
use gtasks.Prelude.Tables.{find_row, count_rows, update_rows, delete_rows, any_row, take}
use gtasks.EventQueue.Time.{Datetime, utc, after_seconds}
use mathlib.Core.List.{reverse}

pub data Status : Type 0 where
  processing accepted terminal : Status

pub data Disposition : Type 0 where
  process duplicate busy : Disposition

-- a row of `receipts`
pub record Receipt : Type 0 where
  pub event_id : String
  pub source_client_id : String
  pub idempotency_key : String
  pub fingerprint : String
  pub status : Status
  pub lease_expires_at : Option ℕ
  pub handler_version : Option String
  pub created_at : ℕ
  pub updated_at : ℕ

-- `schema_version` is an int of any sign, which is only stored and compared.
pub data Version : Type 0 where
  pos negsuc : ℕ → Version

pub record TerminalRecord : Type 0 where
  pub event_id : String
  pub event_type : String
  pub schema_version : Version
  pub source_client_id : String
  pub error_code : String
  pub attempts : ℕ
  pub original_stream : String
  pub original_stream_sequence : ℕ
  pub failed_at : ℕ

-- the keyword arguments of `record_activity`, less `recorded_at`
pub record Activity : Type 0 where
  pub event_id : String
  pub fingerprint : String
  pub source_client_id : String
  pub disposition : String
  pub task_slug : String
  pub error_code : Option String
  pub scope_day : Option String
  pub timezone_name : Option String
  pub prior_progress : Option ℕ
  pub resulting_progress : Option ℕ
  pub verified_count : Option ℕ
  pub baseline_count : Option ℕ
  pub target_value : Option ℕ

-- a row of `activity_receipts`
pub record ActivityRow : Type 0 where
  pub id : ℕ
  pub entry : Activity
  pub recorded_at : ℕ

-- `connected` is `_connection is not None`; `next_id` is the AUTOINCREMENT counter.
pub record EventStore : Type 0 where
  pub connected : Bool
  pub receipts : List Receipt
  pub terminals : List TerminalRecord
  pub activity : List ActivityRow
  pub next_id : ℕ

-- the identity that `claim` is called with
pub record Identity : Type 0 where
  pub event_id : String
  pub source_client_id : String
  pub idempotency_key : String
  pub fingerprint : String

-- a store on an empty file
abbrev pub empty_store : EventStore
empty_store = record { connected = true; receipts = []; terminals = []; activity = []; next_id = 1 }

unfoldable pub close : Exec EventStore (Unit {0})
close = modify (λ s. record s { connected = false })

-- `_con`
unfoldable pub con : Exec EventStore (Unit {0})
con s = raise_if (not s.connected) runtime_error s

abbrev pub set_receipts : (List Receipt → List Receipt) → Exec EventStore (Unit {0})
set_receipts f = modify (λ s. record s { receipts = f s.receipts })

abbrev pub set_terminals : (List TerminalRecord → List TerminalRecord) → Exec EventStore (Unit {0})
set_terminals f = modify (λ s. record s { terminals = f s.terminals })

-- WHERE event_id = ?
abbrev pub has_id : String → Receipt → Bool
has_id e r = r.event_id == e

abbrev pub terminal_has_id : String → TerminalRecord → Bool
terminal_has_id e t = t.event_id == e

-- WHERE event_id = ? OR (source_client_id = ? AND idempotency_key = ?)
abbrev pub matches : Identity → Receipt → Bool
matches c r =
    (r.event_id == c.event_id)
    || ((r.source_client_id == c.source_client_id) && (r.idempotency_key == c.idempotency_key))

abbrev pub same_identity : Identity → Receipt → Bool
same_identity c r =
    (r.event_id == c.event_id)
    && (r.source_client_id == c.source_client_id)
    && (r.idempotency_key == c.idempotency_key)
    && (r.fingerprint == c.fingerprint)

abbrev pub new_receipt : Identity → ℕ → ℕ → Receipt
new_receipt c current lease_expires = record {
  event_id = c.event_id;
  source_client_id = c.source_client_id;
  idempotency_key = c.idempotency_key;
  fingerprint = c.fingerprint;
  status = processing;
  lease_expires_at = some lease_expires;
  handler_version = none;
  created_at = current;
  updated_at = current;
}

abbrev pub renew : ℕ → ℕ → Receipt → Receipt
renew current lease_expires r = record r {
  lease_expires_at = some lease_expires;
  updated_at = current;
}

-- the branches on the status and the lease of the row that was found
unfoldable pub claim_status : Identity → ℕ → ℕ → Status → Option ℕ → Exec EventStore Disposition
claim_status c current lease_expires accepted lease = pure duplicate
claim_status c current lease_expires terminal lease = pure busy
claim_status c current lease_expires processing none = raise type_error
claim_status c current lease_expires processing (some lease) =
    if ltb current lease then pure busy else do
      set_receipts (update_rows (has_id c.event_id) (renew current lease_expires))
      pure process

unfoldable pub claim_row : Identity → ℕ → ℕ → Option Receipt → Exec EventStore Disposition
unfolding claim_status
claim_row c current lease_expires none = do
  set_receipts (λ rs. rs ++ new_receipt c current lease_expires ∷ [])
  pure process
claim_row c current lease_expires (some row) =
    if same_identity c row
    then claim_status c current lease_expires row.status row.lease_expires_at
    else raise claim_conflict

-- the transaction of `claim`
unfoldable pub claim_body : Identity → ℕ → ℕ → Exec EventStore Disposition
unfolding claim_row
claim_body c current lease_expires = do
  row ← gets (λ s. find_row (matches c) s.receipts)
  claim_row c current lease_expires row

unfoldable pub claim : Identity → Datetime → ℕ → Exec EventStore Disposition
unfolding claim_body con utc
claim c now lease_seconds = do
  current ← lift (utc now)
  con
  transaction (claim_body c current (after_seconds current lease_seconds))

abbrev pub is_processing : Status → Bool
is_processing processing = true
is_processing _ = false

-- status IN ('processing','accepted')
abbrev pub is_live : Status → Bool
is_live terminal = false
is_live _ = true

abbrev pub is_terminal : Status → Bool
is_terminal terminal = true
is_terminal _ = false

unfoldable pub release : String → Datetime → Exec EventStore (Unit {0})
unfolding con utc
release event_id now = do
  current ← lift (utc now)
  con
  set_receipts
      (update_rows (λ r. has_id event_id r && is_processing r.status) (renew current current))

abbrev pub acceptable : String → Receipt → Bool
acceptable event_id r = has_id event_id r && is_live r.status

abbrev pub mark_accepted : String → ℕ → Receipt → Receipt
mark_accepted version current r = record r {
  status = accepted;
  lease_expires_at = none;
  handler_version = some version;
  updated_at = current;
}

unfoldable pub accept : String → String → Datetime → Exec EventStore (Unit {0})
unfolding con utc
accept event_id handler_version now = do
  current ← lift (utc now)
  con
  rowcount ← gets (λ s. count_rows (acceptable event_id) s.receipts)
  set_receipts (update_rows (acceptable event_id) (mark_accepted handler_version current))
  raise_if (not (nat_eq rowcount 1)) runtime_error

-- INSERT … ON CONFLICT(event_id) DO UPDATE
abbrev pub upsert_terminal : TerminalRecord → List TerminalRecord → List TerminalRecord
upsert_terminal t ts =
    if any_row (terminal_has_id t.event_id) ts
    then update_rows (terminal_has_id t.event_id)
        (λ old. record old {
          error_code = t.error_code;
          attempts = t.attempts;
          failed_at = t.failed_at;
        })
        ts
    else ts ++ t ∷ []

abbrev pub mark_terminal : ℕ → Receipt → Receipt
mark_terminal failed_at r = record r {
  status = terminal;
  lease_expires_at = none;
  updated_at = failed_at;
}

-- the transaction of `record_terminal`
unfoldable pub record_body : TerminalRecord → Exec EventStore (Unit {0})
record_body t = do
  set_terminals (upsert_terminal t)
  set_receipts (update_rows (has_id t.event_id) (mark_terminal t.failed_at))

unfoldable pub record_terminal : TerminalRecord → Exec EventStore (Unit {0})
unfolding con record_body
record_terminal t = do con; transaction (record_body t)

-- the test of `reopen_terminal` on the two rows that it reads
abbrev pub is_terminal_receipt : Option Receipt → Option TerminalRecord → Bool
is_terminal_receipt none t = false
is_terminal_receipt (some r) none = false
is_terminal_receipt (some r) (some t) = is_terminal r.status

abbrev pub reopen : ℕ → ℕ → Receipt → Receipt
reopen current lease_expires r = record r {
  status = processing;
  lease_expires_at = some lease_expires;
  updated_at = current;
}

-- the two writes of `reopen_terminal`
abbrev pub reopen_write : String → ℕ → ℕ → Exec EventStore (Unit {0})
reopen_write event_id current lease_expires = do
  set_terminals (delete_rows (terminal_has_id event_id))
  set_receipts (update_rows (has_id event_id) (reopen current lease_expires))

-- the transaction of `reopen_terminal`
unfoldable pub reopen_body : String → ℕ → ℕ → Exec EventStore (Unit {0})
reopen_body event_id current lease_expires = do
  receipt ← gets (λ s. find_row (has_id event_id) s.receipts)
  terminal_row ← gets (λ s. find_row (terminal_has_id event_id) s.terminals)
  raise_if (not (is_terminal_receipt receipt terminal_row)) value_error
  reopen_write event_id current lease_expires

unfoldable pub reopen_terminal : String → Datetime → ℕ → Exec EventStore (Unit {0})
unfolding con utc reopen_body
reopen_terminal event_id now lease_seconds = do
  current ← lift (utc now)
  raise_if (leb lease_seconds 0) value_error
  con
  transaction (reopen_body event_id current (after_seconds current lease_seconds))

unfoldable pub record_activity : Activity → Datetime → Exec EventStore (Unit {0})
unfolding con utc
record_activity entry recorded_at = do
  current ← lift (utc recorded_at)
  con
  modify (λ s. record s {
    activity = s.activity ++ record { id = s.next_id; entry = entry; recorded_at = current } ∷ [];
    next_id = s.next_id + 1;
  })

-- ORDER BY id DESC LIMIT: the ids rise in the order of insertion
unfoldable pub list_activity : ℕ → Exec EventStore (List ActivityRow)
unfolding con
list_activity limit = do
  raise_if (ltb limit 1 || ltb 1000 limit) value_error
  con
  gets (λ s. take limit (reverse s.activity))

unfoldable pub get_terminal : String → Exec EventStore (Option TerminalRecord)
unfolding con
get_terminal event_id = do con; gets (λ s. find_row (terminal_has_id event_id) s.terminals)

pub record Counts : Type 0 where
  pub processing_count : ℕ
  pub accepted_count : ℕ
  pub terminal_count : ℕ
  pub dead_letter : ℕ

abbrev pub is_accepted : Status → Bool
is_accepted accepted = true
is_accepted _ = false

unfoldable pub counts : Exec EventStore Counts
unfolding con
counts = do
  con
  gets (λ s. record {
    processing_count = count_rows (λ r. is_processing r.status) s.receipts;
    accepted_count = count_rows (λ r. is_accepted r.status) s.receipts;
    terminal_count = count_rows (λ r. is_terminal r.status) s.receipts;
    dead_letter = count_rows (λ t. true) s.terminals;
  })
