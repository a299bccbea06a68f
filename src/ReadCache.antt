-- ===== src/ReadCache.antt =====
-- gtasks/read_cache.py, `ReadSurfaceCache`: the entries that its dicts hold for one surface, and the blocks
-- that run under its condition. A time is a number of microseconds. How the checks of a read budget and the
-- executor's `submit` end is an argument, as are the readings of the clock, in the order of the code.
pub mod Surfaces
pub mod Generations
pub mod Consistent
pub mod Readiness
pub mod Ready
pub mod Restart
mod Tests
use gtasks.Prelude.{
  ℕ, ◌+◌, ◌-◌, String, Bool, true, false, not, ◌&&◌, ◌||◌, Option, none, some, List, [], ◌∷◌, ltb,
  leb, nat_eq, is_some, if◌then◌else◌,
}
use gtasks.Prelude.Exec.{
  Exec, Error, Result, ok, err, deadline_exceeded, capacity_exceeded, pure, raise, raise_if, gets,
  modify, ◌>>=◌, ◌>>◌,
}
use gtasks.ReadBudget.{min}
use gtasks.EventQueue.Json.{
  Value, Fields, Items, null, bool, int, float, str, arr, obj, nil, cons, get_field,
}

-- an entry of `_records`
pub record Snapshot : Type 0 where
  pub payload : Fields
  pub last_valid_at : ℕ

-- The entries for one name: `_records`, whether `_loading` has it, `_generations`, `_dirty`, `_errors`,
-- `_error_at`, `_error_codes`, `_verified_here` and `_last_read_observed_at`.
pub record Surface : Type 0 where
  pub snapshot : Option Snapshot
  pub loading : Bool
  pub generation : Option ℕ
  pub dirty : Bool
  pub error : Option String
  pub error_at : Option ℕ
  pub error_code : Option String
  pub verified_here : Bool
  pub last_read_observed_at : Option ℕ

-- a surface after `__init__`, with what the store had for it
abbrev pub loaded : Option Snapshot → Surface
loaded found = record {
  snapshot = found;
  loading = false;
  generation = none;
  dirty = false;
  error = none;
  error_at = none;
  error_code = none;
  verified_here = false;
  last_read_observed_at = none;
}

abbrev pub error_text : String
error_text = "The canonical GBrain refresh did not complete. Last verified data is kept."

-- d.get(name, 0)
abbrev pub get_or_zero : Option ℕ → ℕ
get_or_zero none = 0
get_or_zero (some n) = n

abbrev pub next_generation : Option ℕ → Option ℕ
next_generation g = some (get_or_zero g + 1)

-- `_generations.get(name) == generation`
abbrev pub is_current : Option ℕ → ℕ → Bool
is_current none g = false
is_current (some n) g = nat_eq n g

-- `_fail`, with `_stop_loading`
unfoldable pub fail : String → ℕ → Surface → Surface
fail code now s = record s {
  error = some error_text;
  error_code = some code;
  error_at = some now;
  last_read_observed_at = some now;
  generation = next_generation s.generation;
  loading = false;
}

-- `_expire`; the Boolean says whether the budget's `remaining` raises
unfoldable pub expire : Bool → ℕ → Surface → Surface
unfolding fail
expire expired now s = if s.loading && expired then fail "refresh_deadline" now s else s

-- `invalidate`, for each of the names
unfoldable pub invalidate : Surface → Surface
invalidate s = record s { dirty = true; generation = next_generation s.generation; loading = false }

-- the arguments of `read`
pub record Request : Type 0 where
  pub ttl : ℕ
  pub force : Bool
  pub force_cooldown : ℕ

-- What the first block of `read` meets: whether the caller's budget lasts to its start and to the refresh's,
-- whether the budget of a refresh under way is exhausted, the readings of the clock, and how `submit` ends.
pub record Encounter : Type 0 where
  pub caller_expired : Bool
  pub expired : Bool
  pub expired_at : ℕ
  pub age_at : ℕ
  pub cold_at : ℕ
  pub refused_at : ℕ
  pub too_late : Bool
  pub submitted : Result (Unit {0})
  pub failed_at : ℕ

abbrev pub half_minute : ℕ
half_minute = 30000000

abbrev pub age : ℕ → Option Snapshot → Option ℕ
age now none = none
age now (some r) = some (now - r.last_valid_at)

-- age is None or age > limit
abbrev pub is_older : Option ℕ → ℕ → Bool
is_older none limit = true
is_older (some a) limit = ltb limit a

-- `clock - error_at.get(name, 0.0) < limit`
abbrev pub is_recent : Option ℕ → ℕ → ℕ → Bool
is_recent at now limit = ltb now (get_or_zero at + limit)

-- whether `read` starts a refresh
unfoldable pub starts : Request → Encounter → Surface → Bool
starts q e s =
    let old = age e.age_at s.snapshot in
    let needed = q.force || (s.dirty || (not (is_some s.snapshot) || is_older old q.ttl)) in
    let cooling =
      q.force
      && (is_some s.snapshot
          && (not (is_older old q.force_cooldown)
              && (not s.dirty && (not (is_some s.error) && not s.loading)))) in
    let cold =
      not (is_some s.snapshot)
      && (is_some s.error
          && (not q.force && is_recent s.error_at e.cold_at (min q.ttl half_minute))) in
    let refused =
      is_some s.snapshot
      && (is_some s.error && (not q.force && is_recent s.error_at e.refused_at q.ttl)) in
    needed && (not cooling && (not cold && (not s.loading && not refused)))

abbrev pub begin : Surface → Surface
begin s = record s {
  loading = true;
  generation = next_generation s.generation;
  error = none;
  error_at = none;
  error_code = none;
}

-- `submit` under `use_budget`; an exception of another kind propagates
abbrev pub after_submit : ℕ → Result (Unit {0}) → Exec Surface (Unit {0})
after_submit now (ok done) = pure tt
after_submit now (err capacity_exceeded) = modify (fail "refresh_capacity" now)
after_submit now (err deadline_exceeded) = modify (fail "refresh_deadline" now)
after_submit now (err e) = raise e

-- the refresh that `read` starts
unfoldable pub start : Encounter → Exec Surface (Unit {0})
unfolding fail
start e = do
  raise_if e.too_late deadline_exceeded
  modify begin
  after_submit e.failed_at e.submitted

-- the first block of `read`, up to the wait
unfoldable pub enter : Request → Encounter → Exec Surface (Unit {0})
unfolding expire
enter q e = do
  raise_if e.caller_expired deadline_exceeded
  modify (expire e.expired e.expired_at)
  starting ← gets (starts q e)
  if starting then start e else pure tt

pub data SurfaceStatus : Type 0 where
  error loading refreshing stale fresh : SurfaceStatus

-- the state that `read` returns, and the payload
pub record SurfaceRead : Type 0 where
  pub payload : Option Fields
  pub status : SurfaceStatus
  pub is_refreshing : Bool
  pub is_stale : Bool
  pub last_valid_at : Option ℕ
  pub age_of : Option ℕ
  pub error_code : Option String
  pub retryable : Bool
  pub wait_deferred : Bool
  pub error_of : Option String

unfoldable pub report_of : Request → Bool → ℕ → Option Snapshot → Surface → SurfaceRead
report_of q deferred now none s = record {
  payload = none;
  status = if is_some s.error then SurfaceStatus.error else SurfaceStatus.loading;
  is_refreshing = s.loading;
  is_stale = false;
  last_valid_at = none;
  age_of = none;
  error_code = s.error_code;
  retryable = is_some s.error;
  wait_deferred = deferred;
  error_of = s.error;
}
report_of q deferred now (some r) s =
    let old = s.loading || (s.dirty || (ltb q.ttl (now - r.last_valid_at) || is_some s.error)) in
    record {
      payload = some r.payload;
      status = if s.loading then refreshing else if old then stale else fresh;
      is_refreshing = s.loading;
      is_stale = old;
      last_valid_at = some r.last_valid_at;
      age_of = some (now - r.last_valid_at);
      error_code = s.error_code;
      retryable = is_some s.error;
      wait_deferred = deferred;
      error_of = s.error;
    }

-- the second block of `read`, after its `_expire`
unfoldable pub report : Request → Bool → ℕ → Surface → SurfaceRead
unfolding report_of
report q deferred now s = report_of q deferred now s.snapshot s

-- the blocks of `_refresh`: the publication, with whether it was made, ...
unfoldable pub publish_current : Fields → ℕ → Bool → Exec Surface Bool
publish_current payload at true s = (err deadline_exceeded, s)
publish_current payload at false s = (
  ok true,
  record s {
    snapshot = some (record { payload = payload; last_valid_at = at });
    verified_here = true;
    last_read_observed_at = some at;
    dirty = false;
    error = none;
    error_code = none;
  },
)

unfoldable pub publish : ℕ → Fields → ℕ → Bool → Exec Surface Bool
unfolding publish_current
publish generation payload at late s =
    if is_current s.generation generation then publish_current payload at late s else (ok false, s)

-- ... the `except` branch, for an exception of the loader or of the publication, ...
unfoldable pub refresh_failed : ℕ → Error → ℕ → Surface → Surface
unfolding fail
refresh_failed generation e now s =
    if is_current s.generation generation
    then fail (elim e [ deadline_exceeded ↦ "refresh_deadline" | _ ↦ "refresh_failed" ]) now s
    else s

-- ... and the `finally` branch
unfoldable pub finish : ℕ → Surface → Surface
finish generation s = if is_current s.generation generation then record s { loading = false } else s
