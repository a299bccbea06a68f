-- ===== src/ReadBudget/Within.antt =====
-- What the budgets of gtasks/read_budget.py grant.
use gtasks.Prelude.{ℕ, subst, zero, ◌+◌, ◌-◌, ◌≤◌, ◌<◌, ◌≡◌, suc, arith, Bool, false}
use gtasks.Prelude.Exec.{ok, returned, after_step}
use gtasks.ReadBudget.{Budget, single, child, both, min, own_remaining, remaining}

-- every budget that counts is uncancelled and reaches to the time
abbrev pub Within : Budget → ℕ → Type 0
Within (single deadline cancelled) t = (cancelled ≡ false) × (t ≤ deadline)
Within (child deadline cancelled parent) t = (cancelled ≡ false) × (t ≤ deadline) × Within parent t
Within (both supplied active) t = Within supplied t × Within active t

Within-le : (b : Budget) (t u : ℕ) → t ≤ u → Within b u → Within b t
Within-le (single d c) t u h w = (w.0, omega arith)
Within-le (child d c p) t u h w = (w.0, omega arith, Within-le p t u h w.2)
Within-le (both s a) t u h w = (Within-le s t u h w.0, Within-le a t u h w.1)

min-le : (a b : ℕ) → (min a b ≤ a) × (min a b ≤ b)
min-le a b = ground arith

min_pos : (a b : ℕ) → 0 < a → 0 < b → 0 < min a b
min_pos a b p q = ground arith

≤_refl : (a : ℕ) → a ≤ a
≤_refl a = omega arith

≤_trans : (a b c : ℕ) → a ≤ b → b ≤ c → a ≤ c
≤_trans a b c p q = omega arith

module _ (clock : ℕ → ℕ) (forward : (k : ℕ) → clock k ≤ clock (k + 1)) where
  own_granted :
      (d : ℕ) (c : Bool) (k r : ℕ)
      → (own_remaining clock d c k).0 ≡ ok r
      → (c ≡ false) × (0 < r) × (clock k + r ≤ d) × ((own_remaining clock d c k).1 ≡ k + 1)
  unfolding own_remaining
  own_granted d c k r h = ground arith

  later : (j k : ℕ) → clock k ≤ clock (j + k)
  later zero k =
      let e : k ≡ 0 + k = omega arith in subst (λ i. clock k ≤ clock i) e (≤_refl (clock k))
  later (suc j) k =
      let e : (j + k) + 1 ≡ suc j + k = omega arith in
      subst (λ i. clock k ≤ clock i) e (≤_trans _ _ _ (later j k) (forward (j + k)))

  later-le : (k k' : ℕ) → k ≤ k' → clock k ≤ clock k'
  later-le k k' h =
      let e : (k' - k) + k ≡ k' = omega arith in subst (λ i. clock k ≤ clock i) e (later (k' - k) k)

  reads-own : (d : ℕ) (c : Bool) (k : ℕ) → k ≤ (own_remaining clock d c k).1
  unfolding own_remaining
  reads-own d c k = ground arith

  reads-remaining : (b : Budget) (k : ℕ) → k ≤ (remaining clock b k).1
  unfolding remaining
  reads-remaining (single d c) k = reads-own d c k
  reads-remaining (child d c p) k =
      after_step (λ j. k ≤ j) (own_remaining clock d c k).0 _ (own_remaining clock d c k).1
        (reads-own d c k)
        (λ left. ground (arith, reads-own d c k, reads-remaining p (own_remaining clock d c k).1))
  reads-remaining (both s a) k =
      after_step (λ j. k ≤ j) (remaining clock s k).0 _ (remaining clock s k).1
        (reads-remaining s k)
        (λ left. ground (arith, reads-remaining s k, reads-remaining a (remaining clock s k).1))

  -- What a budget grants is positive, and reaches no further than the deadline of any budget that counts, of its
  -- parents and of the parts of an intersection, all of them uncancelled, from the first reading of the clock
  -- on, if the clock never goes back.
  pub remaining-Within :
      (b : Budget) (k r : ℕ) → (remaining clock b k).0 ≡ ok r → (0 < r) × Within b (clock k + r)
  unfolding remaining
  remaining-Within (single d c) k r h =
      let (live, pos, bound, next) = own_granted d c k r h in (pos, (live, bound))
  remaining-Within (child d c p) k r h =
      let (left, own, h1) = returned (own_remaining clock d c) _ k h in
      let (live, pos, bound, next) = own_granted d c k left own in
      let (above, rest, h2) = returned (remaining clock p) _ (own_remaining clock d c k).1 h1 in
      let (pos', within) = remaining-Within p (own_remaining clock d c k).1 above rest in
      let same : r ≡ min left above = ground arith in
      let start : clock k ≤ clock (own_remaining clock d c k).1 = later-le k _ (reads-own d c k) in
      (
        omega (arith, same, min_pos left above pos pos'),
        (
          live,
          omega (arith, same, min-le left above, bound),
          Within-le p (clock k + r) (clock (own_remaining clock d c k).1 + above)
              (omega (arith, same, min-le left above, start)) within,
        ),
      )
  remaining-Within (both s a) k r h =
      let (left, own, h1) = returned (remaining clock s) _ k h in
      let (right, rest, h2) = returned (remaining clock a) _ (remaining clock s k).1 h1 in
      let (pos, within) = remaining-Within s k left own in
      let (pos', within') = remaining-Within a (remaining clock s k).1 right rest in
      let same : r ≡ min left right = ground arith in
      let start : clock k ≤ clock (remaining clock s k).1 = later-le k _ (reads-remaining s k) in
      (
        omega (arith, same, min_pos left right pos pos'),
        (
          Within-le s (clock k + r) (clock k + left) (omega (arith, same, min-le left right))
              within,
          Within-le a (clock k + r) (clock (remaining clock s k).1 + right)
              (omega (arith, same, min-le left right, start)) within',
        ),
      )
