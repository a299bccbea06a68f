-- ===== src/ReadCache/Consistent.antt =====
-- The invariant of a surface's entries (gtasks/read_cache.py).
use gtasks.Prelude.{
  ℕ, ◌≡◌, refl, arith, inl, inr, String, Bool, true, false, not, ◌&&◌, Option, List, [], ◌∷◌,
  is_some, Bool-cases,
}
use gtasks.Prelude.Exec.{Result, ok, err, deadline_exceeded, capacity_exceeded}
use gtasks.EventQueue.Json.{Fields}
use gtasks.ReadCache.{
  Surface, Snapshot, Request, Encounter, is_current, loaded, fail, expire, invalidate, begin,
  after_submit, start, starts, enter, publish_current, publish, refresh_failed, finish,
}
use gtasks.ReadCache.Surfaces.{
  Block, entering, expiring, invalidating, publishing, failing, finishing, apply, run, Allowed,
  run-keeps,
}

-- An error comes with its code and its time; a surface that is being loaded has a generation and no error,
-- and one that this process has verified has a snapshot.
pub record IsConsistent (s : Surface) : Type 0 where
  pub coded : is_some s.error ≡ is_some s.error_code
  pub timed : (is_some s.error && not (is_some s.error_at)) ≡ false
  pub numbered : (s.loading && not (is_some s.generation)) ≡ false
  pub loading_clear : (s.loading && is_some s.error) ≡ false
  pub verified : (s.verified_here && not (is_some s.snapshot)) ≡ false

fail-IsConsistent :
    (code : String) (now : ℕ) (s : Surface) → IsConsistent s → IsConsistent (fail code now s)
unfolding fail
fail-IsConsistent code now s v = record {
  coded = refl;
  timed = refl;
  numbered = refl;
  loading_clear = refl;
  verified = v.verified;
}

expire-IsConsistent :
    (x : Bool) (now : ℕ) (s : Surface) → IsConsistent s → IsConsistent (expire x now s)
unfolding expire
expire-IsConsistent x now s v = elim (Bool-cases (s.loading && x)) [
  | inl late ↦ rw late (fail-IsConsistent "refresh_deadline" now s v)
  | inr early ↦ rw early v
]

begin-IsConsistent : (s : Surface) → IsConsistent s → IsConsistent (begin s)
begin-IsConsistent s v = record {
  coded = refl;
  timed = refl;
  numbered = refl;
  loading_clear = refl;
  verified = v.verified;
}

after_submit-IsConsistent :
    (now : ℕ) (r : Result (Unit {0})) (s : Surface)
    → IsConsistent s
    → IsConsistent (after_submit now r s).1
after_submit-IsConsistent now (ok a) s v = v
after_submit-IsConsistent now (err capacity_exceeded) s v =
    fail-IsConsistent "refresh_capacity" now s v
after_submit-IsConsistent now (err deadline_exceeded) s v =
    fail-IsConsistent "refresh_deadline" now s v
after_submit-IsConsistent now (err e) s v = v

start-IsConsistent : (e : Encounter) (s : Surface) → IsConsistent s → IsConsistent (start e s).1
unfolding start
start-IsConsistent e s v = elim (Bool-cases e.too_late) [
  | inl late ↦ rw late v
  | inr early ↦
      rw early
        (after_submit-IsConsistent e.failed_at e.submitted (begin s) (begin-IsConsistent s v))
]

enter-IsConsistent :
    (q : Request) (e : Encounter) (s : Surface) → IsConsistent s → IsConsistent (enter q e s).1
unfolding enter starts start
enter-IsConsistent q e s v = elim (Bool-cases e.caller_expired) [
  | inl late ↦ rw late v
  | inr early ↦
      let s' : Surface = expire e.expired e.expired_at s in
      let v' : IsConsistent s' = expire-IsConsistent e.expired e.expired_at s v in
      elim (Bool-cases (starts q e s')) [
        | inl yes_start ↦ rw (early, yes_start) (start-IsConsistent e s' v')
        | inr no_start ↦ rw (early, no_start) v'
      ]
]

publish_current-IsConsistent :
    (payload : Fields) (at : ℕ) (late : Bool) (s : Surface)
    → IsConsistent s
    → IsConsistent (publish_current payload at late s).1
unfolding publish_current
publish_current-IsConsistent payload at true s v = v
publish_current-IsConsistent payload at false s v = record {
  coded = refl;
  timed = refl;
  numbered = v.numbered;
  loading_clear = ground arith;
  verified = refl;
}

publish-IsConsistent :
    (g : ℕ) (payload : Fields) (at : ℕ) (late : Bool) (s : Surface)
    → IsConsistent s
    → IsConsistent (publish g payload at late s).1
unfolding publish
publish-IsConsistent g payload at late s v = elim (Bool-cases (is_current s.generation g)) [
  | inl current ↦ rw current (publish_current-IsConsistent payload at late s v)
  | inr old ↦ rw old v
]

apply-IsConsistent :
    (b : Block) (s : Surface) → Unit {0} → IsConsistent s → IsConsistent (apply b s)
unfolding apply invalidate refresh_failed finish
apply-IsConsistent (entering q e) s h v = enter-IsConsistent q e s v
apply-IsConsistent (expiring x now) s h v = expire-IsConsistent x now s v
apply-IsConsistent invalidating s h v = record {
  coded = v.coded;
  timed = v.timed;
  numbered = refl;
  loading_clear = refl;
  verified = v.verified;
}
apply-IsConsistent (publishing g payload at late) s h v = publish-IsConsistent g payload at late s v
apply-IsConsistent (failing g e now) s h v = elim (Bool-cases (is_current s.generation g)) [
  | inl current ↦ rw current (fail-IsConsistent _ now s v)
  | inr old ↦ rw old v
]
apply-IsConsistent (finishing g) s h v = elim (Bool-cases (is_current s.generation g)) [
  | inl current ↦ rw current (record {
    coded = v.coded;
    timed = v.timed;
    numbered = refl;
    loading_clear = refl;
    verified = v.verified;
  })
  | inr old ↦ rw old v
]

everything : (name : String) (bs : List (String × Block)) → Allowed (λ b. Unit) name bs
everything name [] = tt
everything name ((n, b) ∷ bs) = ((λ e. tt), everything name bs)

-- Every surface stays consistent through any run of the blocks, for it and for others, from what the store had
-- for it: an error comes with its code and its time, and excludes a refresh under way; a surface that is being
-- loaded has a generation; and one that this process has verified has a snapshot.
pub run-IsConsistent :
    (name : String) (found : String → Option Snapshot) (bs : List (String × Block))
    → IsConsistent (run bs (λ n. loaded (found n)) name)
run-IsConsistent name found bs =
    run-keeps IsConsistent (λ b. Unit) apply-IsConsistent name bs (λ n. loaded (found n))
      (everything name bs)
      (record {
        coded = refl;
        timed = refl;
        numbered = refl;
        loading_clear = refl;
        verified = refl;
      })
