-- ===== src/ReadBudget.antt =====
-- gtasks/read_budget.py, `ReadBudget`: deadlines that nest. `clock k` is the k-th reading of the clock, and all
-- budgets read one clock, `monotonic` by default. The state is the number of readings so far.
pub mod Within
mod Tests
use gtasks.Prelude.{ℕ, ◌+◌, ◌-◌, Bool, true, false, ◌||◌, Option, none, some, leb, if◌then◌else◌}
use gtasks.Prelude.Exec.{Exec, Result, ok, err, deadline_exceeded, pure, raise_if, ◌>>=◌, ◌>>◌}

-- A `ReadBudget` without a parent, one with the parent that was current at its start, and a
-- `_ReadBudgetIntersection`. The Boolean says whether it is cancelled.
pub data Budget : Type 0 where
  single : ℕ → Bool → Budget
  child : ℕ → Bool → Budget → Budget
  both : Budget → Budget → Budget

abbrev pub min : ℕ → ℕ → ℕ
min a b = if leb a b then a else b

module _ (clock : ℕ → ℕ) where
  abbrev pub tick : Exec ℕ ℕ
  tick k = (ok (clock k), k + 1)

  -- the check that a budget makes of itself
  unfoldable pub own_remaining : ℕ → Bool → Exec ℕ ℕ
  own_remaining deadline cancelled = do
    now ← tick
    raise_if (cancelled || leb deadline now) deadline_exceeded
    pure (deadline - now)

  unfoldable pub remaining : Budget → Exec ℕ ℕ
  remaining (single deadline cancelled) = own_remaining deadline cancelled
  remaining (child deadline cancelled parent) = do
    left ← own_remaining deadline cancelled
    above ← remaining parent
    pure (min left above)
  remaining (both supplied active) = do
    left ← remaining supplied
    right ← remaining active
    pure (min left right)

  -- `ReadBudget(seconds)` under the budget that is current
  unfoldable pub new_budget : ℕ → Option Budget → Exec ℕ Budget
  new_budget seconds none = do now ← tick; pure (single (now + seconds) false)
  new_budget seconds (some current) = do now ← tick; pure (child (now + seconds) false current)

  -- the arguments are the current budget and the default
  unfoldable pub remaining_seconds : Option Budget → Option ℕ → Exec ℕ (Option ℕ)
  remaining_seconds none fallback = pure fallback
  remaining_seconds (some budget) none = do left ← remaining budget; pure (some left)
  remaining_seconds (some budget) (some fallback) = do
    left ← remaining budget
    pure (some (min fallback left))

-- what `use_budget` makes current; the Boolean says whether the budget is the current one
abbrev pub effective : Budget → Option Budget → Bool → Budget
effective budget none same = budget
effective budget (some parent) same = if same then budget else both budget parent
