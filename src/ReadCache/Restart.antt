-- ===== src/ReadCache/Restart.antt =====
-- Readiness after a restart (gtasks/read_cache.py): the snapshots of the store alone do not make it.
use gtasks.Prelude.{
  ℕ, ◌≡◌, refl, ◌∙◌, arith, inl, inr, String, Bool, true, false, Option, List, [], ◌∷◌, ◌++◌,
  Bool-cases,
}
use gtasks.Prelude.Exec.{Result, ok, err, deadline_exceeded, capacity_exceeded}
use gtasks.Prelude.Sets.{member}
use gtasks.ReadCache.{
  Surface, Snapshot, Request, Encounter, fail, expire, begin, after_submit, start, enter,
  invalidate, publish, publish_current, refresh_failed, finish, loaded,
}
use gtasks.ReadCache.Surfaces.{
  Block, entering, expiring, invalidating, publishing, failing, finishing, apply, Cache, run,
  Allowed, run-keeps,
}
use gtasks.ReadCache.Readiness.{inspect}
use gtasks.ReadCache.Ready.{IsReady, AllReady, inspect-iff-AllReady}

-- a block that publishes nothing
abbrev pub IsSilent : Block → Type 0
IsSilent (publishing h payload at late) = late ≡ true
IsSilent _ = Unit

abbrev IsUnverified : Surface → Type 0
IsUnverified s = s.verified_here ≡ false

after_submit-verified :
    (now : ℕ) (r : Result (Unit {0})) (s : Surface)
    → (after_submit now r s).1.verified_here ≡ s.verified_here
unfolding fail
after_submit-verified now (ok a) s = refl
after_submit-verified now (err capacity_exceeded) s = refl
after_submit-verified now (err deadline_exceeded) s = refl
after_submit-verified now (err e) s = refl

expire-verified :
    (x : Bool) (now : ℕ) (s : Surface) → (expire x now s).verified_here ≡ s.verified_here
unfolding expire fail
expire-verified x now s = ground arith

enter-verified :
    (q : Request) (e : Encounter) (s : Surface) → (enter q e s).1.verified_here ≡ s.verified_here
unfolding enter start
enter-verified q e s = ground (
  arith,
  expire-verified e.expired e.expired_at s,
  after_submit-verified e.failed_at e.submitted (begin (expire e.expired e.expired_at s)),
)

apply-IsUnverified :
    (b : Block) (s : Surface) → IsSilent b → IsUnverified s → IsUnverified (apply b s)
unfolding apply invalidate publish publish_current refresh_failed finish fail
apply-IsUnverified (entering q e) s h v = enter-verified q e s ∙ v
apply-IsUnverified (expiring x now) s h v = expire-verified x now s ∙ v
apply-IsUnverified invalidating s h v = v
apply-IsUnverified (publishing g payload at true) s h v = ground arith
apply-IsUnverified (publishing g payload at false) s h v = cc
apply-IsUnverified (failing g e now) s h v = ground arith
apply-IsUnverified (finishing g) s h v = ground arith

-- a surface that is listed and not optional is ready where all are
listed-IsReady :
    (before rest : List (String × ℕ)) (name : String) (ttl : ℕ) (optional : List String) (now : ℕ)
    (c : Cache)
    → AllReady (before ++ (name, ttl) ∷ rest) optional now c
    → member name optional ≡ false
    → IsReady ttl now (c name)
listed-IsReady [] rest name ttl optional now c v required = v.0 required
listed-IsReady (x ∷ before) rest name ttl optional now c v required =
    listed-IsReady before rest name ttl optional now c v.1 required

-- After a restart `inspect` does not call the surfaces ready from the snapshots of the store alone: whatever they
-- are and whatever blocks have run, it says that it is not ready as long as some surface of those that it is
-- asked for, wherever it is listed, is not optional and none of the blocks published it.
pub inspect-restart :
    (found : String → Option Snapshot) (bs : List (String × Block)) (name : String) (ttl : ℕ)
    (before rest : List (String × ℕ)) (optional : List String) (acquired : Bool) (now : ℕ)
    (expired : String → Bool)
    → Allowed IsSilent name bs
    → member name optional ≡ false
    → (inspect acquired
        (before ++ (name, ttl) ∷ rest)
        optional
        now
        expired
        (run bs (λ n. loaded (found n)))).ready
      ≡ false
inspect-restart found bs name ttl before rest optional acquired now expired silent required =
    let c : Cache = run bs (λ n. loaded (found n)) in
    let surfaces : List (String × ℕ) = before ++ (name, ttl) ∷ rest in
    let u : IsUnverified (c name) =
      run-keeps IsUnverified IsSilent apply-IsUnverified name bs (λ n. loaded (found n)) silent
        refl in
    elim (Bool-cases (inspect acquired surfaces optional now expired c).ready) [
      | inl ready ↦
          let all = ((inspect-iff-AllReady acquired surfaces optional now expired c).0 ready).1 in
          let v = listed-IsReady before rest name ttl optional now c all required in
          absurd (not_both (c name).verified_here v.verified u)
      | inr unready ↦ unready
    ]
  where
    not_both : (b : Bool) → b ≡ true → b ≡ false → ⊥
    not_both true h k = cc
    not_both false h k = cc
