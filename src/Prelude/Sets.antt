-- ===== src/Prelude/Sets.antt =====
-- A Python set of texts: a list in the order of insertion, compared by its members.
use Prim.Native.String.{String}
use mathlib.Core.Path.{◌≡◌}
use mathlib.Core.Logic.{inl, inr}
use mathlib.Core.Bool.{Bool, true, false, ◌&&◌, ◌||◌}
use mathlib.Core.List.{List, [], ◌∷◌}
use native.Mathlib.Omega.{arith}
use text.Mathlib.Text.{◌==◌}
use gtasks.Prelude.Tests.{if◌then◌else◌, ==_refl, Bool-cases}

abbrev pub member : String → List String → Bool
member a [] = false
member a (x ∷ xs) = (x == a) || member a xs

-- `frozenset((*xs, a))`
abbrev pub add : String → List String → List String
add a xs = if member a xs then xs else a ∷ xs

abbrev pub subset : List String → List String → Bool
subset [] ys = true
subset (x ∷ xs) ys = member x ys && subset xs ys

abbrev pub set_eq : List String → List String → Bool
set_eq xs ys = subset xs ys && subset ys xs

pub member-add : (a : String) (xs : List String) → member a (add a xs) ≡ true
member-add a xs = elim (Bool-cases (member a xs)) [
  | inl m ↦ ground arith
  | inr m ↦ ground (arith, ==_refl a)
]
