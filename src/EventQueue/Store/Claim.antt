-- ===== src/EventQueue/Store/Claim.antt =====
-- `EventStore.claim` (gtasks/event_queue/store.py) against a specification that asks for the one receipt
-- of the same identity, and for any receipt that collides with it.
use gtasks.Prelude.{
  ℕ, ◌≡◌, ◌≢◌, refl, inl, inr, String, Bool, true, false, Option, none, some, List, arith, ap, ◌∙◌,
  ltb, if◌then◌else◌, Bool-cases, Option-cases,
}
use gtasks.Prelude.Exec.{
  Result, ok, err, claim_conflict, transaction, transaction-answer, transaction_unchanged,
}
use gtasks.Prelude.Tables.{Pairs, any_row, find_row, All-find, find-test, any-find}
use gtasks.EventQueue.Time.{Datetime, aware, naive, after_seconds}
use gtasks.EventQueue.Store.{
  Status, processing, accepted, terminal, Disposition, process, duplicate, busy, Receipt,
  EventStore, Identity, matches, same_identity, claim_status, claim_row, claim_body, claim,
}
use gtasks.EventQueue.Store.Invariant.{Separate, IsValid, ReceiptIsValid, StatusIsValid}
use gtasks.EventQueue.Store.Frame.{renewable}
use gtasks.EventQueue.Store.Matching.{
  con_open, con_closed, same_identity-matches, match_cases, find_only, any_found,
}

-- the answer for a receipt of the same identity
abbrev pub answer_status : Status → Option ℕ → ℕ → Disposition
answer_status accepted lease t = duplicate
answer_status terminal lease t = busy
answer_status processing lease t = if renewable processing lease t then process else busy

-- the answer by the receipt of the same identity and by whether some receipt collides
abbrev pub answer_for : ℕ → Option Receipt → Bool → Result Disposition
answer_for t (some r) collides = ok (answer_status r.status r.lease_expires_at t)
answer_for t none true = err claim_conflict
answer_for t none false = ok process

-- The specification of the answer of `claim`: it picks no row among those that collide.
abbrev pub answer : Identity → ℕ → List Receipt → Result Disposition
answer c t rs = answer_for t (find_row (same_identity c) rs) (any_row (matches c) rs)

claim_status-answer :
    (c : Identity) (t u : ℕ) (st : Status) (lease : Option ℕ) (v : Option String) (dead : Bool)
    (s : EventStore)
    → StatusIsValid st lease v dead
    → (claim_status c t u st lease s).0 ≡ ok (answer_status st lease t)
unfolding claim_status
claim_status-answer c t u accepted lease v dead s h = refl
claim_status-answer c t u terminal lease v dead s h = refl
claim_status-answer c t u processing none v dead s h = cc
claim_status-answer c t u processing (some l) v dead s h = ground arith

claim_row-answer :
    (c : Identity) (t u : ℕ) (r : Receipt) (s : EventStore)
    → same_identity c r ≡ true
    → ReceiptIsValid s.terminals r
    → (claim_row c t u (some r) s).0 ≡ ok (answer_status r.status r.lease_expires_at t)
unfolding claim_row
claim_row-answer c t u r s same h =
    rw same (claim_status-answer c t u r.status r.lease_expires_at r.handler_version _ s h)

claim_row-conflict :
    (c : Identity) (t u : ℕ) (r : Receipt) (s : EventStore)
    → same_identity c r ≡ false
    → (claim_row c t u (some r) s).0 ≡ err claim_conflict
unfolding claim_row
claim_row-conflict c t u r s other = rw other refl

claim_body-answer :
    (c : Identity) (t u : ℕ) (s : EventStore)
    → IsValid s
    → (claim_body c t u s).0 ≡ answer c t s.receipts
unfolding claim_body
claim_body-answer c t u s v = elim (match_cases c s.receipts v.distinct) [
  | inl (r, e, only) ↦
      let same : same_identity c r ≡ true = find-test (same_identity c) s.receipts e in
      let here : find_row (matches c) s.receipts ≡ some r =
        find_only (matches c) (same_identity c) s.receipts e (same_identity-matches c r same)
          only in
      rw (here, e)
        (claim_row-answer c t u r s same
          (All-find (ReceiptIsValid s.terminals) (same_identity c) s.receipts v.rows e))
  | inr (e, differ) ↦ elim (Option-cases (find_row (matches c) s.receipts)) [
    | inl f ↦ rw (f, e, any-find (matches c) s.receipts, f) refl
    | inr (q, f) ↦
        rw (f, e, any-find (matches c) s.receipts, f)
          (claim_row-conflict c t u q s
            (All-find (λ z. same_identity c z ≡ false) (matches c) s.receipts differ f))
  ]
]

-- Of an open store with valid tables, `claim` answers by the receipt of the same identity, if there is
-- one: DUPLICATE if it is accepted, BUSY if it is terminal or holds a lease that has not expired, and
-- PROCESS if its lease has expired. If there is none, it raises ClaimConflict if some receipt has the
-- event id, or the source and the idempotency key, and answers PROCESS otherwise.
pub claim-eq-answer :
    (c : Identity) (t n : ℕ) (s : EventStore)
    → IsValid s
    → s.connected ≡ true
    → (claim c (aware t) n s).0 ≡ answer c t s.receipts
unfolding claim
claim-eq-answer c t n s v up =
    ap (λ x. x.0) (con_open (transaction (claim_body c t (after_seconds t n))) s up)
    ∙ transaction-answer (claim_body c t (after_seconds t n)) s
    ∙ claim_body-answer c t (after_seconds t n) s v

claim_status_unchanged :
    (c : Identity) (t u : ℕ) (st : Status) (lease : Option ℕ) (s : EventStore)
    → (claim_status c t u st lease s).0 ≢ ok process
    → (claim_status c t u st lease s).1 ≡ s
unfolding claim_status
claim_status_unchanged c t u accepted lease s h = refl
claim_status_unchanged c t u terminal lease s h = refl
claim_status_unchanged c t u processing none s h = refl
claim_status_unchanged c t u processing (some l) s h = elim (Bool-cases (ltb t l)) [
  | inl early ↦ rw early refl
  | inr late ↦ absurd (h (rw late refl))
]

claim_row_unchanged :
    (c : Identity) (t u : ℕ) (row : Option Receipt) (s : EventStore)
    → (claim_row c t u row s).0 ≢ ok process
    → (claim_row c t u row s).1 ≡ s
unfolding claim_row
claim_row_unchanged c t u none s h = absurd (h refl)
claim_row_unchanged c t u (some r) s h = elim (Bool-cases (same_identity c r)) [
  | inl same ↦ rw same (claim_status_unchanged c t u r.status r.lease_expires_at s (rw same at h))
  | inr other ↦ rw other refl
]

-- Unless it answers PROCESS, `claim` leaves the store as it was, at any time and of any store.
pub claim_unchanged :
    (c : Identity) (now : Datetime) (n : ℕ) (s : EventStore)
    → (claim c now n s).0 ≢ ok process
    → (claim c now n s).1 ≡ s
unfolding claim
claim_unchanged c (naive w) n s h = refl
claim_unchanged c (aware t) n s h = elim (Bool-cases s.connected) [
  | inl up ↦
      let open_claim : claim c (aware t) n s ≡ transaction (claim_body c t (after_seconds t n)) s =
        con_open (transaction (claim_body c t (after_seconds t n))) s up in
      ap (λ x. x.1) open_claim
      ∙ transaction_unchanged (λ r. r ≢ ok process) (claim_body c t (after_seconds t n)) s
          (claim_row_unchanged c t (after_seconds t n) (find_row (matches c) s.receipts) s)
          (λ e. h (ap (λ x. x.0) open_claim ∙ e))
  | inr down ↦ ap (λ x. x.1) (con_closed (transaction (claim_body c t (after_seconds t n))) s down)
]

-- Where a receipt collides with an identity, the answer is that receipt's if it is of the same identity,
-- and a conflict if not.
pub answer_at_row :
    (p : Receipt → Bool) (c : Identity) (t : ℕ) (rs : List Receipt) (r : Receipt)
    → Pairs Separate rs
    → find_row p rs ≡ some r
    → matches c r ≡ true
    → answer c t rs ≡ (
        if same_identity c r
        then ok (answer_status r.status r.lease_expires_at t)
        else err claim_conflict)
answer_at_row p c t rs r d f m = elim (match_cases c rs d) [
  | inl (q, e, only) ↦
      let is_q : r ≡ q = All-find (λ z. matches c z ≡ true → z ≡ q) p rs only f m in
      rw (e, is_q, find-test (same_identity c) rs e) refl
  | inr (e, differ) ↦
      rw
        (e, any_found (matches c) p rs f m, All-find (λ z. same_identity c z ≡ false) p rs differ f)
        refl
]
