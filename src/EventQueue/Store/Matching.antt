-- ===== src/EventQueue/Store/Matching.antt =====
-- The query of `EventStore.claim` (gtasks/event_queue/store.py): which receipts match an identity, and
-- what a closed store answers.
use gtasks.Prelude.{
  ◌≡◌, ◌⊎◌, refl, inl, inr, Bool, true, false, not, none, some, List, [], ◌∷◌, ◌==◌, eq_iff, arith,
  sym, ap, ◌∙◌, subst, Bool-cases, Option-cases,
}
use gtasks.Prelude.Exec.{Exec, err, runtime_error, ◌>>◌, guard_passes, guard_fails}
use gtasks.Prelude.Tables.{
  All, Pairs, any_row, find_row, All-map, All-find, All-find_none, find-test,
}
use gtasks.EventQueue.Store.{Receipt, EventStore, Identity, matches, same_identity, con}
use gtasks.EventQueue.Store.Invariant.{Separate}
use mathlib.Core.Option.{some_inj}

pub con_open :
    {A : Type 0} (m : Exec EventStore A) (s : EventStore) → s.connected ≡ true → (con >> m) s ≡ m s
unfolding con
con_open m s up = guard_passes (not s.connected) runtime_error m s (rw up refl)

pub con_closed :
    {A : Type 0} (m : Exec EventStore A) (s : EventStore)
    → s.connected ≡ false
    → (con >> m) s ≡ (err runtime_error, s)
unfolding con
con_closed m s down = guard_fails (not s.connected) runtime_error m s (rw down refl)

pub same_identity-matches :
    (c : Identity) (r : Receipt) → same_identity c r ≡ true → matches c r ≡ true
same_identity-matches c r h = ground arith

-- What a row of the same identity shares with the identity, and what a matching row does.
pub same_identity-eq :
    (c : Identity) (x : Receipt)
    → same_identity c x ≡ true
    → (x.event_id ≡ c.event_id)
      × (x.source_client_id ≡ c.source_client_id)
      × (x.idempotency_key ≡ c.idempotency_key)
same_identity-eq c x h = ground (
  arith,
  eq_iff x.event_id c.event_id,
  eq_iff x.source_client_id c.source_client_id,
  eq_iff x.idempotency_key c.idempotency_key,
)

pub matches-eq :
    (c : Identity) (q : Receipt)
    → matches c q ≡ true
    → (q.event_id ≡ c.event_id)
      ⊎ ((q.source_client_id ≡ c.source_client_id) × (q.idempotency_key ≡ c.idempotency_key))
matches-eq c q h = elim (Bool-cases (q.event_id == c.event_id)) [
  | inl e ↦ inl ((eq_iff q.event_id c.event_id).0 e)
  | inr e ↦ inr (
      ground (
        arith,
        eq_iff q.source_client_id c.source_client_id,
        eq_iff q.idempotency_key c.idempotency_key,
      ))
]

-- Two rows that match, one of them of the same identity, break a uniqueness constraint.
pub not-Separate :
    (c : Identity) (x q : Receipt)
    → same_identity c x ≡ true
    → matches c q ≡ true
    → (¬ Separate x q) × (¬ Separate q x)
not-Separate c x q h k =
    let (e, s, i) = same_identity-eq c x h in
    elim (matches-eq c q k) [
      | inl e' ↦ (λ d. d.0 (e ∙ sym e'), λ d. d.0 (e' ∙ sym e))
      | inr o ↦ (λ d. d.1 (s ∙ sym o.0) (i ∙ sym o.1), λ d. d.1 (o.0 ∙ sym s) (o.1 ∙ sym i))
    ]

-- A row of the same identity is the only one that the query of `claim` matches.
pub unique_match :
    (p : Receipt → Bool) (c : Identity) (rs : List Receipt) {r : Receipt}
    → Pairs Separate rs
    → find_row p rs ≡ some r
    → same_identity c r ≡ true
    → All (λ q. matches c q ≡ true → q ≡ r) rs
unique_match p c [] d h k = tt
unique_match p c (x ∷ xs) {r} d h k = elim (Bool-cases (p x)) [
  | inl t ↦
      let same : x ≡ r = some_inj.0 (rw t at h) in
      (
        λ _. same,
        All-map (Separate x) (λ q. matches c q ≡ true → q ≡ r)
            (λ q apart found. absurd (
              (not-Separate c x q (subst (λ z. same_identity c z ≡ true) (sym same) k) found).0
                apart))
            xs d.0,
      )
  | inr f ↦
      let h' : find_row p xs ≡ some r = rw f at h in
      (
        λ found. absurd ((not-Separate c r x k found).1 (All-find (Separate x) p xs d.0 h')),
        unique_match p c xs d.1 h' k,
      )
]

-- The row that the query of `claim` returns, by whether there is a receipt of the same identity.
pub match_cases :
    (c : Identity) (rs : List Receipt)
    → Pairs Separate rs
    → ((r : Receipt) × (find_row (same_identity c) rs ≡ some r)
        × All (λ q. matches c q ≡ true → q ≡ r) rs)
      ⊎ ((find_row (same_identity c) rs ≡ none) × All (λ q. same_identity c q ≡ false) rs)
match_cases c rs d = elim (Option-cases (find_row (same_identity c) rs)) [
  | inl e ↦ inr (e, All-find_none (same_identity c) rs e)
  | inr (r, e) ↦
      inl (r, e, unique_match (same_identity c) c rs d e (find-test (same_identity c) rs e))
]

-- A query whose matches are all one row that is there finds that row.
pub find_only :
    (p q : Receipt → Bool) (rs : List Receipt) {r : Receipt}
    → find_row q rs ≡ some r
    → p r ≡ true
    → All (λ x. p x ≡ true → x ≡ r) rs
    → find_row p rs ≡ some r
find_only p q [] e t h = cc
find_only p q (x ∷ xs) {r} e t h = elim (Bool-cases (p x)) [
  | inl f ↦ rw f (ap some (h.0 f))
  | inr f ↦ rw f (elim (Bool-cases (q x)) [
    | inl g ↦ cc (sym f ∙ ap p (some_inj.0 (rw g at e)) ∙ t)
    | inr g ↦ find_only p q xs (rw g at e) t h.1
  ])
]

pub any_found :
    (p q : Receipt → Bool) (rs : List Receipt) {r : Receipt}
    → find_row q rs ≡ some r
    → p r ≡ true
    → any_row p rs ≡ true
any_found p q [] e t = cc
any_found p q (x ∷ xs) {r} e t = elim (Bool-cases (q x)) [
  | inl g ↦ rw (subst (λ z. p z ≡ true) (sym (some_inj.0 (rw g at e))) t) refl
  | inr g ↦ let rest : any_row p xs ≡ true = any_found p q xs (rw g at e) t in ground arith
]
