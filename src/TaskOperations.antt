-- ===== src/TaskOperations.antt =====
-- gtasks/task_operations.py, `TaskOperationStore`: the identities reserved for task requests. A method is one
-- SQLite transaction. Failures of SQLite and of the file system are not modelled.
pub mod Reserved
mod Tests
use Prim.Native.Char.{Char, code}
use Prim.Native.String.{count}
use gtasks.Prelude.{
  ℕ, ◌+◌, String, Bool, true, false, ◌||◌, Option, none, some, List, ◌∷◌, [], ◌++◌, ◌==◌, ltb,
  nat_eq, if◌then◌else◌,
}
use gtasks.Prelude.Exec.{
  Exec, Result, ok, err, value_error, operation_conflict, pure, raise, raise_if, lift, gets, modify,
  transaction, ◌>>=◌, ◌>>◌,
}
use gtasks.Prelude.Tables.{find_row, update_rows}
use gtasks.EventQueue.Time.{Datetime, utc}
use gtasks.EventQueue.Json.{Fields}

-- What the store uses of Python's standard library: `str.strip`, the SHA-256 digest of the canonical JSON
-- text, with `none` where `json.dumps` raises ValueError, and the n-th `uuid.uuid4().hex`.
pub record OperationLibrary : Type 0 where
  pub strip : String → String
  pub digest_of : Fields → Option String
  pub uuid : ℕ → String

pub record TaskOperation : Type 0 where
  pub identity : String
  pub created_at : ℕ
  pub is_new : Bool
  pub verified : Bool

-- a row of `task_operations`
pub record OperationRow : Type 0 where
  pub operation_key : String
  pub request_hash : String
  pub identity : String
  pub created_at : ℕ
  pub verified : Bool

-- the table, and the number of UUIDs drawn so far
pub record TaskOperationStore : Type 0 where
  pub rows : List OperationRow
  pub drawn : ℕ

-- "\n" in key or "\r" in key
unfoldable pub has_newline : String → Bool
has_newline Prim.Native.String.[] = false
has_newline (Prim.Native.String.◌∷◌ c s) =
    nat_eq (code c) 10 || (nat_eq (code c) 13 || has_newline s)

-- WHERE operation_key=?
abbrev pub has_key : String → OperationRow → Bool
has_key key r = r.operation_key == key

abbrev pub digest_or_raise : Option String → Result String
digest_or_raise none = err value_error
digest_or_raise (some d) = ok d

abbrev pub operation_of : OperationRow → Bool → TaskOperation
operation_of r is_new = record {
  identity = r.identity;
  created_at = r.created_at;
  is_new = is_new;
  verified = r.verified;
}

abbrev pub mark : OperationRow → OperationRow
mark r = record r { verified = true }

-- UPDATE task_operations SET verified=1 WHERE identity=?
unfoldable pub mark_verified : TaskOperation → Exec TaskOperationStore (Unit {0})
mark_verified operation =
    modify
      (λ s. record s { rows = update_rows (λ r. r.identity == operation.identity) mark s.rows })

module _ (lib : OperationLibrary) where
  open lib use {strip, digest_of, uuid}

  abbrev pub is_bad_key : String → Bool
  is_bad_key key = (strip key == "") || (ltb 200 (count key) || has_newline key)

  abbrev pub reserved_row : String → String → ℕ → ℕ → OperationRow
  reserved_row key digest now drawn = record {
    operation_key = key;
    request_hash = digest;
    identity = uuid drawn;
    created_at = now;
    verified = false;
  }

  unfoldable pub reserve_row :
      String → String → ℕ → Option OperationRow → Exec TaskOperationStore TaskOperation
  reserve_row key digest now none s =
      let r : OperationRow = reserved_row key digest now s.drawn in
      (ok (operation_of r true), record s { rows = s.rows ++ r ∷ []; drawn = s.drawn + 1 })
  reserve_row key digest now (some r) s =
      if r.request_hash == digest
      then (ok (operation_of r false), s)
      else (err operation_conflict, s)

  abbrev pub reserve_body : String → String → ℕ → Exec TaskOperationStore TaskOperation
  unfolding reserve_row
  reserve_body key request_hash current = do
    found ← gets (λ s. find_row (has_key key) s.rows)
    reserve_row key request_hash current found

  -- what follows the check of the key
  unfoldable pub reserve_checked :
      String → Datetime → Option String → Exec TaskOperationStore TaskOperation
  unfolding reserve_row utc
  reserve_checked key now digest = do
    current ← lift (utc now)
    request_hash ← lift (digest_or_raise digest)
    transaction (reserve_body key request_hash current)

  unfoldable pub reserve : String → Fields → Datetime → Exec TaskOperationStore TaskOperation
  unfolding reserve_checked
  reserve key payload now = do
    raise_if (is_bad_key key) value_error
    reserve_checked key now (digest_of payload)
