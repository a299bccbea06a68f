-- ===== src/ReadCache/Tests.antt =====
-- Runs of the blocks of `ReadSurfaceCache` (gtasks/read_cache.py).
use gtasks.Prelude.{
  ℕ, ◌≡◌, ◌≢◌, refl, arith, String, true, false, Option, none, some, List, [], ◌∷◌,
}
use gtasks.Prelude.Exec.{ok, runtime_error}
use gtasks.EventQueue.Json.{Fields, arr, nil, field, end, get_field}
use gtasks.ReadCache.{
  Surface, Snapshot, Request, Encounter, fresh, loaded, enter, starts, start, expire, report,
  report_of, publish, publish_current, refresh_failed, finish,
}
use gtasks.ReadCache.Surfaces.{
  Block, entering, invalidating, publishing, finishing, Cache, apply, step, run,
}
use gtasks.ReadCache.Generations.{publish-invalidate, report-invalidate}
use gtasks.ReadCache.Consistent.{IsConsistent, run-IsConsistent}
use gtasks.ReadCache.Readiness.{inspect, inspect_held, inspect_surface, status_of, current_status}
use gtasks.ReadCache.Ready.{AllReady, inspect-iff-AllReady}
use gtasks.ReadCache.Restart.{inspect-restart}

abbrev clean : Fields
clean = field "issues" (arr nil) end

abbrev cold : Cache
cold n = loaded none

abbrev request : Request
request = record { ttl = 30; force = false; force_cooldown = 0 }

abbrev met : Encounter
met = record {
  caller_expired = false;
  expired = false;
  expired_at = 0;
  age_at = 100;
  cold_at = 100;
  refused_at = 100;
  too_late = false;
  submitted = ok tt;
  failed_at = 100;
}

abbrev begun : List (String × Block)
begun = ("tasks", entering request met) ∷ []

abbrev read_once : List (String × Block)
read_once =
    ("tasks", entering request met)
    ∷ ("tasks", publishing 1 clean 101 false)
    ∷ ("tasks", finishing 1)
    ∷ []

abbrev read : Cache
read = run read_once cold

read_is_fresh : (report request false 110 (read "tasks")).status ≡ fresh
unfolding report report_of run step apply publish publish_current finish enter expire starts start
read_is_fresh = refl

-- a second refresh starts after the invalidation of the first
abbrev replaced : Surface
replaced = run begun (step "tasks" invalidating (run begun cold)) "tasks"

publish-invalidate_example :
    (publish 1 clean 101 false replaced ≡ (ok false, replaced))
    × (refresh_failed 1 runtime_error 102 replaced ≡ replaced)
    × (finish 1 replaced ≡ replaced)
publish-invalidate_example =
    publish-invalidate "tasks" 1 clean 101 false runtime_error 102 begun (run begun cold)
      (unfold run step apply enter expire starts start in omega arith)

report-invalidate_example :
    (report request false 110
      (run read_once (step "tasks" invalidating (run begun cold)) "tasks")).status
    ≢ fresh
report-invalidate_example =
    report-invalidate "tasks" 1 request false 110 read_once (run begun cold)
      (unfold run step apply enter expire starts start in omega arith)
      ((λ e. tt), ((λ e. omega arith), ((λ e. tt), tt)))

run-IsConsistent_example : IsConsistent (run read_once cold "tasks")
run-IsConsistent_example = run-IsConsistent "tasks" (λ n. none) read_once

abbrev wanted : List (String × ℕ)
wanted = ("tasks", 30) ∷ ("archive", 30) ∷ []

abbrev archive : List String
archive = "archive" ∷ []

read_is_ready : (inspect true wanted archive 110 (λ n. false) read).ready ≡ true
unfolding inspect inspect_held inspect_surface status_of current_status run step apply publish
    publish_current finish enter expire starts start get_field
read_is_ready = refl

inspect-iff-AllReady_example :
    ((inspect true wanted archive 110 (λ n. false) read).ready ≡ true
      → (true ≡ true) × AllReady wanted archive 110 read)
    × ((true ≡ true) × AllReady wanted archive 110 read
        → (inspect true wanted archive 110 (λ n. false) read).ready ≡ true)
inspect-iff-AllReady_example = inspect-iff-AllReady true wanted archive 110 (λ n. false) read

abbrev kept : String → Option Snapshot
kept n = some (record { payload = clean; last_valid_at = 90 })

-- the surface that is wanted is the second one
inspect-restart_example :
    (inspect true
      (("archive", 30) ∷ ("tasks", 30) ∷ [])
      archive
      110
      (λ n. false)
      (run begun (λ n. loaded (kept n)))).ready
    ≡ false
inspect-restart_example =
    inspect-restart kept begun "tasks" 30 (("archive", 30) ∷ []) [] archive true 110 (λ n. false)
      ((λ e. tt), tt) refl
