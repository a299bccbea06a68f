-- ===== src/Prelude/Tables.antt =====
-- Tables of a database as lists of rows in the order of insertion, with the queries that the
-- programs use, and predicates on all rows and on all pairs of rows.
use Prim.Native.Nat.{ℕ, zero, suc, ◌+◌}
use mathlib.Core.Path.{◌≡◌, refl, subst}
use mathlib.Core.Logic.{inl, inr}
use mathlib.Core.Bool.{Bool, true, false, ◌||◌}
use mathlib.Core.Option.{Option, none, some, some_inj}
use mathlib.Core.List.{List, [], ◌∷◌, ◌++◌}
use native.Mathlib.Omega.{arith}
use gtasks.Prelude.Tests.{if◌then◌else◌, is_some, Bool-cases}

module _ {A : Type 0} where
  abbrev pub length : List A → ℕ
  length [] = 0
  length (x ∷ xs) = suc (length xs)

  -- SELECT … WHERE p, first row
  abbrev pub find_row : (A → Bool) → List A → Option A
  find_row p [] = none
  find_row p (x ∷ xs) = if p x then some x else find_row p xs

  -- SELECT count(*) … WHERE p
  abbrev pub count_rows : (A → Bool) → List A → ℕ
  count_rows p [] = 0
  count_rows p (x ∷ xs) = (if p x then 1 else 0) + count_rows p xs

  -- UPDATE … SET f WHERE p
  abbrev pub update_rows : (A → Bool) → (A → A) → List A → List A
  update_rows p f [] = []
  update_rows p f (x ∷ xs) = (if p x then f x else x) ∷ update_rows p f xs

  -- DELETE … WHERE p
  abbrev pub delete_rows : (A → Bool) → List A → List A
  delete_rows p [] = []
  delete_rows p (x ∷ xs) = let rest = delete_rows p xs in if p x then rest else x ∷ rest

  -- the first `n` rows, LIMIT n
  abbrev pub take : ℕ → List A → List A
  take zero xs = []
  take (suc n) [] = []
  take (suc n) (x ∷ xs) = x ∷ take n xs

  abbrev pub any_row : (A → Bool) → List A → Bool
  any_row p [] = false
  any_row p (x ∷ xs) = p x || any_row p xs

  abbrev pub All : (A → Type 0) → List A → Type 0
  All P [] = Unit
  All P (x ∷ xs) = P x × All P xs

  -- every row stands in `R` to each later row
  abbrev pub Pairs : (A → A → Type 0) → List A → Type 0
  Pairs R [] = Unit
  Pairs R (x ∷ xs) = All (R x) xs × Pairs R xs

  pub All-map : (P Q : A → Type 0) (f : (x : A) → P x → Q x) (xs : List A) → All P xs → All Q xs
  All-map P Q f [] h = tt
  All-map P Q f (x ∷ xs) h = (f x h.0, All-map P Q f xs h.1)

  pub All-zip : (P Q : A → Type 0) (xs : List A) → All P xs → All Q xs → All (λ x. P x × Q x) xs
  All-zip P Q [] h k = tt
  All-zip P Q (x ∷ xs) h k = ((h.0, k.0), All-zip P Q xs h.1 k.1)

  pub All-append : (P : A → Type 0) (xs ys : List A) → All P xs → All P ys → All P (xs ++ ys)
  All-append P [] ys h k = k
  All-append P (x ∷ xs) ys h k = (h.0, All-append P xs ys h.1 k)

  -- a new last row that every row stands in `R` to
  pub Pairs-append :
      (R : A → A → Type 0) (xs : List A) (y : A)
      → Pairs R xs
      → All (λ x. R x y) xs
      → Pairs R (xs ++ y ∷ [])
  Pairs-append R [] y h k = (tt, tt)
  Pairs-append R (x ∷ xs) y h k =
      (All-append (R x) xs (y ∷ []) h.0 (k.0, tt), Pairs-append R xs y h.1 k.1)

  pub All-find :
      (P : A → Type 0) (p : A → Bool) (xs : List A) {x : A}
      → All P xs
      → find_row p xs ≡ some x
      → P x
  All-find P p [] h e = cc
  All-find P p (y ∷ ys) {x} h e = elim (Bool-cases (p y)) [
    | inl t ↦ subst P (some_inj.0 (rw t at e)) h.0
    | inr f ↦ All-find P p ys h.1 (rw f at e)
  ]

  pub find-test : (p : A → Bool) (xs : List A) {x : A} → find_row p xs ≡ some x → p x ≡ true
  find-test p [] e = cc
  find-test p (y ∷ ys) {x} e = elim (Bool-cases (p y)) [
    | inl t ↦ subst (λ z. p z ≡ true) (some_inj.0 (rw t at e)) t
    | inr f ↦ find-test p ys (rw f at e)
  ]

  -- no row passes the test that a query without result made
  pub All-find_none :
      (p : A → Bool) (xs : List A) → find_row p xs ≡ none → All (λ x. p x ≡ false) xs
  All-find_none p [] e = tt
  All-find_none p (y ∷ ys) e = elim (Bool-cases (p y)) [
    | inl t ↦ cc (rw t at e)
    | inr f ↦ (f, All-find_none p ys (rw f at e))
  ]

  -- an update that turns `P` into `Q` on the rows that it changes, and `P` gives `Q` on the others
  pub All-update :
      (P Q : A → Type 0) (p : A → Bool) (f : A → A)
      → ((x : A) → P x → p x ≡ true → Q (f x))
      → ((x : A) → P x → p x ≡ false → Q x)
      → (xs : List A) → All P xs
      → All Q (update_rows p f xs)
  All-update P Q p f hit miss [] h = tt
  All-update P Q p f hit miss (x ∷ xs) h = (
    elim (Bool-cases (p x)) [ inl t ↦ rw t (hit x h.0 t) | inr e ↦ rw e (miss x h.0 e) ],
    All-update P Q p f hit miss xs h.1,
  )

  -- an update that keeps what `R` reads
  pub Pairs-update :
      (R : A → A → Type 0) (p : A → Bool) (f : A → A)
      → ((x y : A) → R x y → R (f x) y)
      → ((x y : A) → R x y → R x (f y))
      → (xs : List A) → Pairs R xs
      → Pairs R (update_rows p f xs)
  Pairs-update R p f left right [] h = tt
  Pairs-update R p f left right (x ∷ xs) h =
      let after : All (R x) (update_rows p f xs) =
        All-update (R x) (R x) p f (λ y r _. right x y r) (λ y r _. r) xs h.0 in
      (
        elim (Bool-cases (p x)) [
          | inl t ↦ rw t (All-map (R x) (R (f x)) (λ y r. left x y r) (update_rows p f xs) after)
          | inr e ↦ rw e after
        ],
        Pairs-update R p f left right xs h.1,
      )

  pub All-delete :
      (P : A → Type 0) (p : A → Bool) (xs : List A) → All P xs → All P (delete_rows p xs)
  All-delete P p [] h = tt
  All-delete P p (x ∷ xs) h = elim (Bool-cases (p x)) [
    | inl t ↦ rw t (All-delete P p xs h.1)
    | inr e ↦ rw e (h.0, All-delete P p xs h.1)
  ]

  pub Pairs-delete :
      (R : A → A → Type 0) (p : A → Bool) (xs : List A) → Pairs R xs → Pairs R (delete_rows p xs)
  Pairs-delete R p [] h = tt
  Pairs-delete R p (x ∷ xs) h = elim (Bool-cases (p x)) [
    | inl t ↦ rw t (Pairs-delete R p xs h.1)
    | inr e ↦ rw e (All-delete (R x) p xs h.0, Pairs-delete R p xs h.1)
  ]

  -- a row that an update reaches is there updated, and any other unchanged
  pub find-update :
      (q p : A → Bool) (f : A → A)
      → ((x : A) → q (f x) ≡ q x)
      → (xs : List A)
      → find_row q (update_rows p f xs)
        ≡ elim (find_row q xs) [ none ↦ none | some x ↦ some (if p x then f x else x) ]
  find-update q p f same [] = refl
  find-update q p f same (x ∷ xs) = ground (arith, same x, find-update q p f same xs)

  pub find-append_new :
      (q : A → Bool) (xs : List A) (y : A)
      → find_row q xs ≡ none
      → q y ≡ true
      → find_row q (xs ++ y ∷ []) ≡ some y
  find-append_new q [] y e t = rw t
  find-append_new q (x ∷ xs) y e t = ground (arith, find-append_new q xs y)

  pub any-update :
      (q p : A → Bool) (f : A → A)
      → ((x : A) → q (f x) ≡ q x)
      → (xs : List A) → any_row q (update_rows p f xs) ≡ any_row q xs
  any-update q p f same [] = refl
  any-update q p f same (x ∷ xs) = ground (arith, same x, any-update q p f same xs)

  pub any-append :
      (q : A → Bool) (xs : List A) (y : A) → any_row q (xs ++ y ∷ []) ≡ (any_row q xs || q y)
  any-append q [] y = ground arith
  any-append q (x ∷ xs) y = ground (arith, any-append q xs y)

  pub All-any_false :
      (p : A → Bool) (xs : List A) → any_row p xs ≡ false → All (λ x. p x ≡ false) xs
  All-any_false p [] e = tt
  All-any_false p (y ∷ ys) e = (ground arith, All-any_false p ys (ground arith))

  pub any-find : (p : A → Bool) (xs : List A) → any_row p xs ≡ is_some (find_row p xs)
  any-find p [] = refl
  any-find p (x ∷ xs) = ground (arith, any-find p xs)

  pub find-append_old :
      (q : A → Bool) (xs ys : List A) (x : A)
      → find_row q xs ≡ some x
      → find_row q (xs ++ ys) ≡ some x
  find-append_old q [] ys z e = cc
  find-append_old q (x ∷ xs) ys z e = ground (arith, find-append_old q xs ys z)

  pub count-snoc :
      (p : A → Bool) (xs : List A) (y : A)
      → count_rows p (xs ++ y ∷ []) ≡ count_rows p xs + (if p y then 1 else 0)
  count-snoc p [] y = omega arith
  count-snoc p (x ∷ xs) y = omega (arith, count-snoc p xs y)
