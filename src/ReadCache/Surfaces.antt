-- ===== src/ReadCache/Surfaces.antt =====
-- Interleavings of the blocks of `ReadSurfaceCache` (gtasks/read_cache.py), which the condition serialises.
use gtasks.Prelude.{
  ℕ, String, Bool, true, false, List, [], ◌∷◌, ◌≡◌, ◌==◌, if◌then◌else◌, ◌⊎◌, eq_iff, inl, inr,
  Bool-cases,
}
use gtasks.Prelude.Exec.{Error}
use gtasks.EventQueue.Json.{Fields}
use gtasks.ReadCache.{
  Surface, Request, Encounter, expire, invalidate, enter, publish, refresh_failed, finish,
}

pub data Block : Type 0 where
  entering : Request → Encounter → Block
  expiring : Bool → ℕ → Block
  invalidating : Block
  publishing : ℕ → Fields → ℕ → Bool → Block
  failing : ℕ → Error → ℕ → Block
  finishing : ℕ → Block

-- the surface after a block, whether it returned or raised
unfoldable pub apply : Block → Surface → Surface
apply (entering q e) s = (enter q e s).1
apply (expiring expired now) s = expire expired now s
apply invalidating s = invalidate s
apply (publishing g payload at late) s = (publish g payload at late s).1
apply (failing g e now) s = refresh_failed g e now s
apply (finishing g) s = finish g s

-- all surfaces by their names
abbrev pub Cache : Type 0
Cache = String → Surface

-- A block for a name; `invalidate` of several names is that many of them.
unfoldable pub step : String → Block → Cache → Cache
step name b c other = if name == other then apply b (c other) else c other

unfoldable pub run : List (String × Block) → Cache → Cache
run [] c = c
run ((name, b) ∷ bs) c = run bs (step name b c)

-- the blocks for the name satisfy the predicate
abbrev pub Allowed : (Block → Type 0) → String → List (String × Block) → Type 0
Allowed Q name [] = Unit
Allowed Q name ((n, b) ∷ bs) = (n ≡ name → Q b) × Allowed Q name bs

-- What every block keeps of a surface is kept by a run; `Q` is what is asked of the blocks.
module _ (P : Surface → Type 0) (Q : Block → Type 0)
    (keeps : (b : Block) (s : Surface) → Q b → P s → P (apply b s)) (name : String) where
  pub run-keeps :
      (bs : List (String × Block)) (c : Cache) → Allowed Q name bs → P (c name) → P (run bs c name)
  unfolding run step
  run-keeps [] c q h = h
  run-keeps ((n, b) ∷ bs) c q h = run-keeps bs (step n b c) q.1 (stepped (Bool-cases (n == name)))
    where
      stepped : (((n == name) ≡ true) ⊎ ((n == name) ≡ false)) → P (step n b c name)
      stepped (inl same) = rw same (keeps b (c name) (q.0 ((eq_iff n name).0 same)) h)
      stepped (inr other) = rw other h
