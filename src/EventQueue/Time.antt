-- ===== src/EventQueue/Time.antt =====
-- Timestamps (gtasks/event_queue/store.py, `_utc`): an aware datetime is its instant, in
-- microseconds; a naive one has no instant, and is the time that it shows, in microseconds. ISO texts of instants in UTC are written and read back
-- without loss and sort as the instants do, so the columns hold instants.
use gtasks.Prelude.{ℕ, ◌+◌, ◌*◌}
use gtasks.Prelude.Exec.{Result, ok, err, value_error}

pub data Datetime : Type 0 where
  aware naive : ℕ → Datetime

unfoldable pub utc : Datetime → Result ℕ
utc (aware t) = ok t
utc (naive w) = err value_error

-- `current + timedelta(seconds=n)`
abbrev pub after_seconds : ℕ → ℕ → ℕ
after_seconds t n = t + n * 1000000
