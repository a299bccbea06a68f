-- ===== src/ReadCache/Ready.antt =====
-- What readiness (gtasks/read_cache.py, `inspect`) vouches for.
use gtasks.Prelude.{
  ℕ, ◌-◌, ◌≤◌, ◌<◌, ◌≡◌, refl, sym, ap, ◌∙◌, subst, arith, String, Bool, true, false, not, ◌&&◌,
  ◌||◌, Option, none, some, List, [], ◌∷◌, is_some, if◌then◌else◌,
}
use mathlib.Core.Option.{some_inj}
use gtasks.Prelude.Sets.{member}
use gtasks.EventQueue.Json.{Value, null, bool, int, float, str, arr, obj, nil, cons, get_field}
use gtasks.ReadCache.{Surface, Snapshot}
use gtasks.ReadCache.Surfaces.{Cache}
use gtasks.ReadCache.Readiness.{
  Readiness, is_fresh, length_of, valid_time, since, count, code_of, current_status, record_status,
  snapshot_status, status_of, inspect_surface, inspect_held, inspect, busy,
}

-- the record shows a clean read within the limit
pub record IsClean (ttl now : ℕ) (r : Snapshot) : Type 0 where
  pub positive : 0 < r.last_valid_at
  pub past : r.last_valid_at ≤ now
  pub recent : now - r.last_valid_at ≤ ttl
  pub without_issues : get_field "issues" r.payload ≡ some (arr nil)

pub record IsReady (ttl now : ℕ) (s : Surface) : Type 0 where
  pub clean : (r : Snapshot) × (s.snapshot ≡ some r) × IsClean ttl now r
  pub verified : s.verified_here ≡ true
  pub clear : s.dirty ≡ false
  pub settled : s.loading ≡ false
  pub without_code : s.error_code ≡ none

-- every required surface is ready
abbrev pub AllReady : List (String × ℕ) → List String → ℕ → Cache → Type 0
AllReady [] optional now c = Unit
AllReady ((n, ttl) ∷ rest) optional now c =
    (member n optional ≡ false → IsReady ttl now (c n)) × AllReady rest optional now c

empty_issues : (v : Option Value) → length_of v ≡ some 0 → v ≡ some (arr nil)
empty_issues none h = cc
empty_issues (some (arr nil)) h = refl
empty_issues (some (arr (cons v vs))) h = absurd (ground arith)
empty_issues (some (obj x)) h = cc
empty_issues (some (str x)) h = cc
empty_issues (some (float x)) h = cc
empty_issues (some (int x)) h = cc
empty_issues (some (bool x)) h = cc
empty_issues (some null) h = cc

current-IsReady :
    (ttl now : ℕ) (r : Snapshot) (s : Surface) (old issues : ℕ)
    → since now (valid_time now (some r)) ≡ some old
    → count (some r) ≡ some issues
    → is_fresh (current_status ttl old issues s).0 ≡ true
    → IsClean ttl now r × (s.verified_here ≡ true) × (s.dirty ≡ false)
unfolding current_status
current-IsReady ttl now r s old issues to ti h = (
  record {
    positive = ground arith;
    past = ground arith;
    recent = ground arith;
    without_issues = empty_issues (get_field "issues" r.payload) (ground arith);
  },
  ground arith,
  ground arith,
)

record-IsReady :
    (ttl now : ℕ) (r : Snapshot) (s : Surface) (old issues : Option ℕ)
    → since now (valid_time now (some r)) ≡ old
    → count (some r) ≡ issues
    → is_fresh (record_status ttl old issues s).0 ≡ true
    → IsClean ttl now r × (s.verified_here ≡ true) × (s.dirty ≡ false)
record-IsReady ttl now r s (some old) (some issues) to ti h =
    current-IsReady ttl now r s old issues to ti h
record-IsReady ttl now r s (some old) none to ti h = cc
record-IsReady ttl now r s none _ to ti h = cc

snapshot-IsReady :
    (ttl now : ℕ) (found : Option Snapshot) (s : Surface)
    → is_fresh (snapshot_status ttl now found s).0 ≡ true
    → ((r : Snapshot) × (found ≡ some r) × IsClean ttl now r)
      × (s.verified_here ≡ true)
      × (s.dirty ≡ false)
snapshot-IsReady ttl now none s h = cc
snapshot-IsReady ttl now (some r) s h =
    let k = record-IsReady ttl now r s _ _ refl refl h in ((r, refl, k.0), k.1, k.2)

no_code : (c : Option String) → is_some c ≡ false → c ≡ none
no_code none h = refl
no_code (some c) h = cc

settled_code : (expired : Bool) (s : Surface) → s.loading ≡ false → code_of expired s ≡ s.error_code
settled_code expired s h = rw h refl

chain :
    (coded loading : Bool) (code : Option String) (z : Readiness × Option String)
    → is_fresh
        (if coded
          then (Readiness.error, code)
          else if loading
          then (Readiness.refreshing, none)
          else z).0
      ≡ true
    → (coded ≡ false) × (loading ≡ false) × (is_fresh z.0 ≡ true)
chain true loading code z h = cc
chain false true code z h = cc
chain false false code z h = (refl, refl, h)

status-IsReady :
    (ttl now : ℕ) (expired : Bool) (s : Surface)
    → is_fresh (status_of ttl now expired s).0 ≡ true
    → IsReady ttl now s
unfolding status_of
status-IsReady ttl now expired s h =
    let k =
      chain (is_some (code_of expired s)) s.loading (code_of expired s)
        (snapshot_status ttl now s.snapshot s) h in
    let f = snapshot-IsReady ttl now s.snapshot s k.2 in
    record {
      clean = f.0;
      verified = f.1;
      clear = f.2;
      settled = k.1;
      without_code = sym (settled_code expired s k.1) ∙ no_code (code_of expired s) k.0;
    }

clean-time :
    (ttl now : ℕ) (r : Snapshot)
    → IsClean ttl now r
    → since now (valid_time now (some r)) ≡ some (now - r.last_valid_at)
clean-time ttl now r v = let l = v.positive in let u = v.past in ground arith

clean-count : (ttl now : ℕ) (r : Snapshot) → IsClean ttl now r → count (some r) ≡ some 0
clean-count ttl now r v = rw v.without_issues refl

ready_record :
    (ttl : ℕ) (old issues : Option ℕ) (s : Surface) (n : ℕ)
    → old ≡ some n
    → n ≤ ttl
    → issues ≡ some 0
    → s.verified_here ≡ true
    → s.dirty ≡ false
    → is_fresh (record_status ttl old issues s).0 ≡ true
unfolding current_status
ready_record ttl none issues s n o h i v d = cc
ready_record ttl (some m) none s n o h i v d = cc
ready_record ttl (some m) (some k) s n o h i v d = ground arith

ready_snapshot :
    (ttl now : ℕ) (found : Option Snapshot) (r : Snapshot) (s : Surface)
    → found ≡ some r
    → IsClean ttl now r
    → s.verified_here ≡ true
    → s.dirty ≡ false
    → is_fresh (snapshot_status ttl now found s).0 ≡ true
ready_snapshot ttl now none r s e v h d = cc
ready_snapshot ttl now (some q) r s e v h d =
    let w : IsClean ttl now q = subst (IsClean ttl now) (sym (some_inj.0 e)) v in
    ready_record ttl _ _ s (now - q.last_valid_at) (clean-time ttl now q w) w.recent
      (clean-count ttl now q w) h d

unchain :
    (coded loading : Bool) (code : Option String) (z : Readiness × Option String)
    → coded ≡ false
    → loading ≡ false
    → is_fresh z.0 ≡ true
    → is_fresh
        (if coded
          then (Readiness.error, code)
          else if loading
          then (Readiness.refreshing, none)
          else z).0
      ≡ true
unchain true loading code z c l h = cc
unchain false true code z c l h = cc
unchain false false code z c l h = h

ready_status :
    (ttl now : ℕ) (expired : Bool) (s : Surface)
    → IsReady ttl now s
    → is_fresh (status_of ttl now expired s).0 ≡ true
unfolding status_of
ready_status ttl now expired s v =
    unchain (is_some (code_of expired s)) s.loading (code_of expired s)
      (snapshot_status ttl now s.snapshot s)
      (ap is_some (settled_code expired s v.settled ∙ v.without_code)) v.settled
      (ready_snapshot ttl now s.snapshot v.clean.0 s v.clean.1 v.clean.2 v.verified v.clear)

head_fresh :
    (optional fresh rest : Bool)
    → ((not (not optional) || fresh) && rest) ≡ true
    → (optional ≡ false → fresh ≡ true) × (rest ≡ true)
head_fresh true fresh true h = ((λ e. cc), refl)
head_fresh false true true h = ((λ e. refl), refl)
head_fresh optional fresh false h = absurd (ground arith)
head_fresh false false rest h = absurd (ground arith)

fresh_head :
    (optional fresh rest : Bool)
    → (optional ≡ false → fresh ≡ true)
    → rest ≡ true
    → ((not (not optional) || fresh) && rest) ≡ true
fresh_head true fresh rest h r = r
fresh_head false fresh rest h r = rw (h refl) r

held-iff-AllReady :
    (surfaces : List (String × ℕ)) (optional : List String) (now : ℕ) (expired : String → Bool)
    (c : Cache)
    → ((inspect_held surfaces optional now expired c).ready ≡ true
        → AllReady surfaces optional now c)
      × (AllReady surfaces optional now c
          → (inspect_held surfaces optional now expired c).ready ≡ true)
unfolding inspect_held inspect_surface
held-iff-AllReady [] optional now expired c = ((λ h. tt), (λ h. refl))
held-iff-AllReady ((n, ttl) ∷ rest) optional now expired c =
    let below = held-iff-AllReady rest optional now expired c in
    (
      (λ h.
          let k = head_fresh (member n optional) _ _ h in
          ((λ e. status-IsReady ttl now (expired n) (c n) (k.0 e)), below.0 k.1)),
      (λ v.
          fresh_head (member n optional) _ _ (λ e. ready_status ttl now (expired n) (c n) (v.0 e))
            (below.1 v.1)),
    )

-- `inspect` says that it is ready exactly where it had the lock in time and every surface that is not optional
-- has a snapshot that this process verified, of a time that is past and at most `ttl` ago, with an empty list of
-- issues, and is neither dirty nor being loaded nor in error; whatever it finds of the budgets.
pub inspect-iff-AllReady :
    (acquired : Bool) (surfaces : List (String × ℕ)) (optional : List String) (now : ℕ)
    (expired : String → Bool) (c : Cache)
    → ((inspect acquired surfaces optional now expired c).ready ≡ true
        → (acquired ≡ true) × AllReady surfaces optional now c)
      × ((acquired ≡ true) × AllReady surfaces optional now c
          → (inspect acquired surfaces optional now expired c).ready ≡ true)
unfolding inspect busy
inspect-iff-AllReady true surfaces optional now expired c =
    let held = held-iff-AllReady surfaces optional now expired c in
    ((λ h. (refl, held.0 h)), (λ v. held.1 v.1))
inspect-iff-AllReady false surfaces optional now expired c = ((λ h. cc), (λ v. cc v.0))
