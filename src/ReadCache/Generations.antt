-- ===== src/ReadCache/Generations.antt =====
-- A refresh that started before an invalidation (gtasks/read_cache.py) has no effect after it.
use gtasks.Prelude.{
  ℕ, ◌≤◌, ◌<◌, ◌≡◌, ◌≢◌, refl, arith, String, Bool, true, false, Option, none, some, List, [], ◌∷◌,
  ==_refl, ap, ◌∙◌,
}
use gtasks.Prelude.Exec.{Error, Result, ok, err, deadline_exceeded, capacity_exceeded}
use gtasks.EventQueue.Json.{Fields}
use gtasks.ReadCache.{
  Surface, Snapshot, Request, Encounter, fresh, get_or_zero, is_current, fail, expire, invalidate,
  begin, after_submit, start, enter, report, report_of, publish, refresh_failed, finish,
}
use gtasks.ReadCache.Surfaces.{
  Block, entering, expiring, invalidating, publishing, failing, finishing, apply, Cache, step, run,
  Allowed, run-keeps,
}

-- an action leaves the generation at least as it is
abbrev Grows : Surface → Surface → Type 0
Grows s s' = get_or_zero s.generation ≤ get_or_zero s'.generation

expire-Grows : (x : Bool) (now : ℕ) (s : Surface) → Grows s (expire x now s)
unfolding expire fail
expire-Grows x now s = ground arith

after_submit-Grows :
    (now : ℕ) (r : Result (Unit {0})) (s : Surface) → Grows s (after_submit now r s).1
unfolding fail
after_submit-Grows now (ok a) s = omega arith
after_submit-Grows now (err capacity_exceeded) s = omega arith
after_submit-Grows now (err deadline_exceeded) s = omega arith
after_submit-Grows now (err e) s = omega arith

enter-Grows : (q : Request) (e : Encounter) (s : Surface) → Grows s (enter q e s).1
unfolding enter start
enter-Grows q e s = ground (
  arith,
  expire-Grows e.expired e.expired_at s,
  after_submit-Grows e.failed_at e.submitted (begin (expire e.expired e.expired_at s)),
)

apply-Grows : (b : Block) (s : Surface) → Grows s (apply b s)
unfolding apply invalidate publish refresh_failed finish fail
apply-Grows (entering q e) s = enter-Grows q e s
apply-Grows (expiring x now) s = expire-Grows x now s
apply-Grows invalidating s = omega arith
apply-Grows (publishing g payload at late) s = ground arith
apply-Grows (failing g e now) s = ground arith
apply-Grows (finishing g) s = ground arith

-- the surface is past the generation
abbrev IsPast : ℕ → Surface → Type 0
IsPast g s = g < get_or_zero s.generation

not_current : (g : ℕ) (current : Option ℕ) → g < get_or_zero current → is_current current g ≡ false
not_current g none h = refl
not_current g (some n) h = ground arith

invalidated-IsPast : (g : ℕ) (s : Surface) → g ≤ get_or_zero s.generation → IsPast g (invalidate s)
unfolding invalidate
invalidated-IsPast g s h = omega arith

module _ (name : String) (g : ℕ) where
  allowed : (bs : List (String × Block)) → Allowed (λ b. Unit) name bs
  allowed [] = tt
  allowed ((n, b) ∷ bs) = ((λ e. tt), allowed bs)

  run-IsPast :
      (bs : List (String × Block)) (c : Cache) → IsPast g (c name) → IsPast g (run bs c name)
  run-IsPast bs c h =
      run-keeps (IsPast g) (λ b. Unit) (λ b s q h. omega (arith, apply-Grows b s)) name bs c
        (allowed bs) h

stepped-IsPast :
    (name : String) (g : ℕ) (c : Cache)
    → g ≤ get_or_zero (c name).generation
    → IsPast g (step name invalidating c name)
unfolding step apply
stepped-IsPast name g c h = rw (==_refl name) (invalidated-IsPast g (c name) h)

-- A refresh that started before an invalidation of its surface changes nothing after it, whatever blocks run
-- between, for this surface and others: it publishes nothing, reports no failure, and does not end the
-- loading of a later refresh.
pub publish-invalidate :
    (name : String) (g : ℕ) (payload : Fields) (at : ℕ) (late : Bool) (e : Error) (now : ℕ)
    (bs : List (String × Block)) (c : Cache)
    → g ≤ get_or_zero (c name).generation
    → (publish g payload at late (run bs (step name invalidating c) name)
        ≡ (ok false, run bs (step name invalidating c) name))
      × (refresh_failed g e now (run bs (step name invalidating c) name)
          ≡ run bs (step name invalidating c) name)
      × (finish g (run bs (step name invalidating c) name) ≡ run bs (step name invalidating c) name)
unfolding publish refresh_failed finish
publish-invalidate name g payload at late e now bs c h =
    let s : Surface = run bs (step name invalidating c) name in
    let past : IsPast g s =
      run-IsPast name g bs (step name invalidating c) (stepped-IsPast name g c h) in
    let old : is_current s.generation g ≡ false = not_current g s.generation past in
    (rw old refl, rw old refl, rw old refl)

-- the surface has not been published anew since it was past the generation
abbrev IsDirty : ℕ → Surface → Type 0
IsDirty g s = (s.dirty ≡ true) × IsPast g s

-- a publication, if the block is one, of a refresh of at most the generation
abbrev pub IsOld : ℕ → Block → Type 0
IsOld g (publishing h payload at late) = h ≤ g
IsOld g _ = Unit

expire-dirty : (x : Bool) (now : ℕ) (s : Surface) → (expire x now s).dirty ≡ s.dirty
unfolding expire fail
expire-dirty x now s = ground arith

after_submit-dirty :
    (now : ℕ) (r : Result (Unit {0})) (s : Surface) → (after_submit now r s).1.dirty ≡ s.dirty
unfolding fail
after_submit-dirty now (ok a) s = refl
after_submit-dirty now (err capacity_exceeded) s = refl
after_submit-dirty now (err deadline_exceeded) s = refl
after_submit-dirty now (err e) s = refl

enter-dirty : (q : Request) (e : Encounter) (s : Surface) → (enter q e s).1.dirty ≡ s.dirty
unfolding enter start
enter-dirty q e s = ground (
  arith,
  expire-dirty e.expired e.expired_at s,
  after_submit-dirty e.failed_at e.submitted (begin (expire e.expired e.expired_at s)),
)

old_publish :
    (g h : ℕ) (payload : Fields) (at : ℕ) (late : Bool) (s : Surface)
    → h ≤ g
    → IsPast g s
    → (publish h payload at late s).1 ≡ s
unfolding publish
old_publish g h payload at late s old past =
    let stale : is_current s.generation h ≡ false = not_current h s.generation (omega arith) in
    rw stale refl

apply-IsDirty : (g : ℕ) (b : Block) (s : Surface) → IsOld g b → IsDirty g s → IsDirty g (apply b s)
apply-IsDirty g b s q d = (kept b q, omega (arith, apply-Grows b s, d.1))
  where
    kept : (b : Block) → IsOld g b → (apply b s).dirty ≡ true
    kept (entering r e) q = unfold apply in (enter-dirty r e s ∙ d.0)
    kept (expiring x now) q = unfold apply in (expire-dirty x now s ∙ d.0)
    kept invalidating q = unfold apply invalidate in refl
    kept (publishing h payload at late) q =
        unfold apply in (ap (λ z. z.dirty) (old_publish g h payload at late s q d.1) ∙ d.0)
    kept (failing h e now) q = unfold apply refresh_failed fail in ground arith
    kept (finishing h) q = unfold apply finish in ground arith

stepped-IsDirty :
    (name : String) (g : ℕ) (c : Cache)
    → g ≤ get_or_zero (c name).generation
    → IsDirty g (step name invalidating c name)
unfolding step apply invalidate
stepped-IsDirty name g c h = rw (==_refl name) (refl, omega arith)

dirty_report :
    (q : Request) (w : Bool) (now : ℕ) (s : Surface)
    → s.dirty ≡ true
    → (report q w now s).status ≢ fresh
unfolding report report_of
dirty_report q w now s d = by_snapshot s.snapshot
  where
    by_snapshot : (found : Option Snapshot) → (report_of q w now found s).status ≢ fresh
    by_snapshot none = λ e. absurd (ground arith)
    by_snapshot (some r) = λ e. absurd (ground arith)

-- After an invalidation of a surface no `read` reports it as fresh, whatever blocks run in between, as long
-- as no refresh publishes that is of a later generation than the surface had before.
pub report-invalidate :
    (name : String) (g : ℕ) (q : Request) (deferred : Bool) (now : ℕ) (bs : List (String × Block))
    (c : Cache)
    → g ≤ get_or_zero (c name).generation
    → Allowed (IsOld g) name bs
    → (report q deferred now (run bs (step name invalidating c) name)).status ≢ fresh
report-invalidate name g q deferred now bs c h old =
    dirty_report q deferred now (run bs (step name invalidating c) name)
      (run-keeps (IsDirty g) (IsOld g) (apply-IsDirty g) name bs (step name invalidating c) old
        (stepped-IsDirty name g c h)).0
