-- ===== src/ReadBudget/Tests.antt =====
-- Runs of the budgets of gtasks/read_budget.py.
use gtasks.Prelude.{◌+◌, ◌<◌, refl, arith, false}
use gtasks.ReadBudget.{Budget, single, child, both, own_remaining, remaining}
use gtasks.ReadBudget.Within.{Within, remaining-Within}

abbrev nested : Budget
nested = both (single 20 false) (child 9 false (single 30 false))

remaining-Within_example : (0 < 8) × Within nested (0 + 8)
unfolding remaining own_remaining
remaining-Within_example = remaining-Within (λ k. k) (λ k. omega arith) nested 0 8 refl
