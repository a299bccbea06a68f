-- ===== src/ReadCache/Readiness.antt =====
-- gtasks/read_cache.py, `inspect`: what it tells of the surfaces, and when it says that they are ready.
use gtasks.Prelude.{
  ℕ, ◌+◌, ◌-◌, String, Bool, true, false, not, ◌&&◌, ◌||◌, Option, none, some, List, [], ◌∷◌, map,
  ltb, leb, is_some, if◌then◌else◌,
}
use gtasks.Prelude.Sets.{member}
use gtasks.EventQueue.Json.{Value, Items, arr, nil, cons, get_field}
use gtasks.ReadCache.{Surface, Snapshot}
use gtasks.ReadCache.Surfaces.{Cache}

pub data Readiness : Type 0 where
  error refreshing missing invalid unverified stale fresh unavailable : Readiness

-- an entry of `surfaces` in the answer
pub record Evidence : Type 0 where
  pub required : Bool
  pub status : Readiness
  pub is_refreshing : Option Bool
  pub last_valid_at : Option ℕ
  pub age_of : Option ℕ
  pub max_age : ℕ
  pub last_read_observed_at : Option ℕ
  pub provenance : String
  pub issue_count : Option ℕ
  pub error_code : Option String

-- the answer, without the constant `evidence`; `status` says what `ready` says
pub record Inspection : Type 0 where
  pub ready : Bool
  pub observed_at : ℕ
  pub surfaces : List (String × Evidence)

abbrev pub length : Items → ℕ
length nil = 0
length (cons v vs) = length vs + 1

abbrev pub length_of : Option Value → Option ℕ
length_of (some (arr vs)) = some (length vs)
length_of _ = none

-- the time of a record, where it is valid; that it is a finite number is in its type here
abbrev pub valid_time : ℕ → Option Snapshot → Option ℕ
valid_time now none = none
valid_time now (some r) =
    if ltb 0 r.last_valid_at && leb r.last_valid_at now then some r.last_valid_at else none

abbrev pub since : ℕ → Option ℕ → Option ℕ
since now none = none
since now (some t) = some (now - t)

abbrev pub count : Option Snapshot → Option ℕ
count none = none
count (some r) = length_of (get_field "issues" r.payload)

-- the code, before the status is chosen
abbrev pub code_of : Bool → Surface → Option String
code_of expired s = if s.loading && expired then some "refresh_deadline" else s.error_code

-- the choice for a record with a valid time and a list of issues
unfoldable pub current_status : ℕ → ℕ → ℕ → Surface → Readiness × Option String
current_status ttl old issues s =
    if not s.verified_here
    then (unverified, some "restart_unverified")
    else if s.dirty || ltb ttl old
    then (stale, none)
    else if ltb 0 issues
    then (error, some "canonical_read_issues")
    else (fresh, none)

abbrev pub record_status : ℕ → Option ℕ → Option ℕ → Surface → Readiness × Option String
record_status ttl (some old) (some issues) s = current_status ttl old issues s
record_status ttl _ _ s = (invalid, some "invalid_evidence")

abbrev pub snapshot_status : ℕ → ℕ → Option Snapshot → Surface → Readiness × Option String
snapshot_status ttl now none s = (missing, none)
snapshot_status ttl now (some r) s =
    record_status ttl (since now (valid_time now (some r))) (count (some r)) s

-- the chain of tests; the code that it keeps is none from the third on
unfoldable pub status_of : ℕ → ℕ → Bool → Surface → Readiness × Option String
unfolding current_status
status_of ttl now expired s =
    if is_some (code_of expired s)
    then (error, code_of expired s)
    else if s.loading
    then (refreshing, none)
    else snapshot_status ttl now s.snapshot s

-- the body of the loop
unfoldable pub inspect_surface : Bool → ℕ → ℕ → Bool → Surface → Evidence
unfolding status_of
inspect_surface required ttl now expired s = record {
  required = required;
  status = (status_of ttl now expired s).0;
  is_refreshing = some s.loading;
  last_valid_at = valid_time now s.snapshot;
  age_of = since now (valid_time now s.snapshot);
  max_age = ttl;
  last_read_observed_at = s.last_read_observed_at;
  provenance =
      if s.verified_here
      then "current_process_read"
      else if is_some s.snapshot
      then "persisted_snapshot"
      else "none";
  issue_count = count s.snapshot;
  error_code = (status_of ttl now expired s).1;
}

abbrev pub is_fresh : Readiness → Bool
is_fresh fresh = true
is_fresh _ = false

-- `all(item["status"] == "fresh" for item in result.values() if item["required"])`
abbrev pub all_fresh : List (String × Evidence) → Bool
all_fresh [] = true
all_fresh ((n, e) ∷ es) = (not e.required || is_fresh e.status) && all_fresh es

-- the answer where the lock is not had in 0.05 s, ...
unfoldable pub busy : List (String × ℕ) → List String → ℕ → Inspection
busy surfaces optional now = record {
  ready = false;
  observed_at = now;
  surfaces =
      map
        (λ x. (
          x.0,
          record {
            required = not (member x.0 optional);
            status = unavailable;
            is_refreshing = none;
            last_valid_at = none;
            age_of = none;
            max_age = x.1;
            last_read_observed_at = none;
            provenance = "none";
            issue_count = none;
            error_code = some "inspection_busy";
          },
        ))
        surfaces;
}

-- ... and where it is; `expired` says for which refreshes the budget is exhausted
unfoldable pub inspect_held :
    List (String × ℕ) → List String → ℕ → (String → Bool) → Cache → Inspection
unfolding inspect_surface
inspect_held surfaces optional now expired c =
    let result =
      map (λ x. (x.0, inspect_surface (not (member x.0 optional)) x.1 now (expired x.0) (c x.0)))
        surfaces in
    record { ready = all_fresh result; observed_at = now; surfaces = result }

-- `acquired` says whether the lock is had in time
unfoldable pub inspect :
    Bool → List (String × ℕ) → List String → ℕ → (String → Bool) → Cache → Inspection
unfolding inspect_held busy
inspect acquired surfaces optional now expired c =
    if acquired then inspect_held surfaces optional now expired c else busy surfaces optional now
