-- ===== src/EventQueue/World.antt =====
-- What the queue's processor and worker act on: the event store, the state behind the adapter, and the
-- number of clock readings so far. `clock k` is the k-th reading of `datetime.now`.
use gtasks.Prelude.{ℕ, ◌+◌}
use gtasks.Prelude.Exec.{Exec, Result, ok}
use gtasks.EventQueue.Time.{Datetime}
use gtasks.EventQueue.Store.{EventStore}

pub record World (State : Type 0) : Type 0 where
  pub store : EventStore
  pub backend : State
  pub reads : ℕ

module _ {State A : Type 0} where
  abbrev pub on_store : Exec EventStore A → Exec (World State) A
  on_store m w = let (r, s) = m w.store in (r, record w { store = s })

  abbrev pub on_backend : Exec State A → Exec (World State) A
  on_backend m w = let (r, b) = m w.backend in (r, record w { backend = b })

  -- `try: m`, with the outcome as a value
  abbrev pub attempt : Exec (World State) A → Exec (World State) (Result A)
  attempt m w = let (r, w') = m w in (ok r, w')

abbrev pub read_clock : {State : Type 0} → (ℕ → Datetime) → Exec (World State) Datetime
read_clock clock w = (ok (clock w.reads), record w { reads = w.reads + 1 })
