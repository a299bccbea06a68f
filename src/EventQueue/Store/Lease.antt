-- ===== src/EventQueue/Store/Lease.antt =====
-- Leases over sequences of calls (gtasks/event_queue/store.py): while one lasts, no colliding claim is
-- answered PROCESS, and what was accepted stays a duplicate.
use gtasks.Prelude.{
  ℕ, ◌<◌, ◌≡◌, ◌≢◌, ◌⊎◌, refl, inl, inr, String, Bool, true, false, ◌||◌, Option, none, some, List,
  eq_iff, arith, sym, ap, ◌∙◌, if◌then◌else◌, Bool-cases, ==_refl,
}
use gtasks.Prelude.Exec.{ok, err, claim_conflict, transaction, runtime_error}
use gtasks.Prelude.Tables.{All, All-map}
use gtasks.EventQueue.Time.{Datetime, aware, naive, after_seconds}
use gtasks.EventQueue.Store.{
  Status, processing, accepted, terminal, process, duplicate, busy, Receipt, EventStore, Identity,
  has_id, matches, is_processing, is_terminal, same_identity, claim_body, claim,
}
use gtasks.EventQueue.Store.Invariant.{IsValid, same_identity-has_id}
use gtasks.EventQueue.Store.Keeps.{claim-IsValid}
use gtasks.EventQueue.Store.Calls.{Call, run, run-IsValid}
use gtasks.EventQueue.Store.Frame.{row, renewable, Spares, run-row}
use gtasks.EventQueue.Store.Matching.{con_closed, same_identity-eq}
use gtasks.EventQueue.Store.Claim.{answer_status, answer_at_row, claim-eq-answer}
use gtasks.EventQueue.Store.Held.{Held, claim-Held}

-- The calls that neither end nor outlive a lease until `u`: other events may be claimed, released,
-- accepted or made terminal, and the event itself may be claimed before `u`.
abbrev pub Before : Datetime → ℕ → Type 0
Before (aware t) u = t < u
Before (naive w) u = Unit

abbrev pub SparesLease : Identity → ℕ → Call → Type 0
SparesLease c u (Call.claim c' now n) = c'.event_id ≡ c.event_id → Before now u
SparesLease c u (Call.release e now) = e ≢ c.event_id
SparesLease c u (Call.accept e w now) = e ≢ c.event_id
SparesLease c u (Call.record_terminal t) = t.event_id ≢ c.event_id
SparesLease c u _ = Unit

not_renewable : (st : Status) (t u : ℕ) → t < u → renewable st (some u) t ≡ false
not_renewable processing t u h = ground arith
not_renewable accepted t u h = refl
not_renewable terminal t u h = refl

same_identity-id : (c : Identity) (r : Receipt) → same_identity c r ≡ true → r.event_id ≡ c.event_id
same_identity-id c r h = (eq_iff r.event_id c.event_id).0 (same_identity-has_id c r h)

SparesLease-Spares :
    (c : Identity) (u : ℕ) (r : Receipt) → Held c u r → (k : Call) → SparesLease c u k → Spares k r
SparesLease-Spares c u r h (Call.claim c' (aware t) n) q =
    λ e. rw (h.1, h.2) (not_renewable processing t u (q (sym e ∙ same_identity-id c r h.0)))
SparesLease-Spares c u r h (Call.claim c' (naive w) n) q = tt
SparesLease-Spares c u r h (Call.release e now) q =
    λ k. absurd (q (sym k ∙ same_identity-id c r h.0))
SparesLease-Spares c u r h (Call.accept e w now) q =
    λ k. absurd (q (sym k ∙ same_identity-id c r h.0))
SparesLease-Spares c u r h (Call.record_terminal t) q = λ k. q (sym k ∙ same_identity-id c r h.0)
SparesLease-Spares c u r h (Call.reopen_terminal e now n) q = λ k. rw h.1 refl
SparesLease-Spares c u r h (Call.record_activity a now) q = tt
SparesLease-Spares c u r h Call.close q = tt

-- two identities that a uniqueness constraint of the receipts holds apart
abbrev pub Collides : Identity → Identity → Type 0
Collides c' c =
    (c'.event_id ≡ c.event_id)
    ⊎ ((c'.source_client_id ≡ c.source_client_id) × (c'.idempotency_key ≡ c.idempotency_key))

or_true : (b : Bool) → (b || true) ≡ true
or_true true = refl
or_true false = refl

Collides-matches :
    (c c' : Identity) (r : Receipt) → same_identity c r ≡ true → Collides c' c → matches c' r ≡ true
Collides-matches c c' r h (inl e) = rw (same_identity-id c r h ∙ sym e, ==_refl c'.event_id) refl
Collides-matches c c' r h (inr o) =
    let (_, src, key) = same_identity-eq c r h in
    rw (src ∙ sym o.0, key ∙ sym o.1, ==_refl c'.source_client_id, ==_refl c'.idempotency_key)
      (or_true _)

-- What a receipt that is there answers to a claim that collides with it.
pub colliding_answer :
    (e : String) (c' : Identity) (t n : ℕ) (r : Receipt) (s : EventStore)
    → IsValid s
    → s.connected ≡ true
    → row s e ≡ some r
    → matches c' r ≡ true
    → (claim c' (aware t) n s).0 ≡ (
        if same_identity c' r
        then ok (answer_status r.status r.lease_expires_at t)
        else err claim_conflict)
colliding_answer e c' t n r s v up h m =
    claim-eq-answer c' t n s v up ∙ answer_at_row (has_id e) c' t s.receipts r v.distinct h m

held_busy :
    (st : Status) (lease : Option ℕ) (t u : ℕ)
    → st ≡ processing
    → lease ≡ some u
    → t < u
    → answer_status st lease t ≡ busy
held_busy st lease t u p l h = rw (p, l) (ground arith)

closed_answer :
    (c : Identity) (t n : ℕ) (s : EventStore)
    → s.connected ≡ false
    → (claim c (aware t) n s).0 ≡ err runtime_error
unfolding claim
closed_answer c t n s down =
    ap (λ x. x.0) (con_closed (transaction (claim_body c t (after_seconds t n))) s down)

held_answer :
    (b : Bool) (st : Status) (lease : Option ℕ) (t u : ℕ)
    → st ≡ processing
    → lease ≡ some u
    → t < u
    → (if b then ok (answer_status st lease t) else err claim_conflict) ≢ ok process
held_answer true st lease t u p l h e = cc (held_busy st lease t u p l h)
held_answer false st lease t u p l h e = cc

-- Mutual exclusion of leases. After a claim that was answered PROCESS, and any sequence of calls that
-- neither release, accept nor record the event as terminal, nor claim it from the lease's end on, every
-- claim before the lease's end that has the event id, or the source and the idempotency key, is
-- answered otherwise than by PROCESS, whatever its fingerprint.
pub claim-exclusive :
    (c c' : Identity) (t n t' n' : ℕ) (s : EventStore) (ks : List Call)
    → IsValid s
    → (claim c (aware t) n s).0 ≡ ok process
    → All (SparesLease c (after_seconds t n)) ks
    → Collides c' c
    → t' < after_seconds t n
    → (claim c' (aware t') n' (run ks (claim c (aware t) n s).1)).0 ≢ ok process
claim-exclusive c c' t n t' n' s ks v e spared clash early =
    let u : ℕ = after_seconds t n in
    let s1 : EventStore = (claim c (aware t) n s).1 in
    let v1 : IsValid s1 = claim-IsValid c (aware t) n s v in
    let (r, here, held) = claim-Held c t n s v e in
    let there : row (run ks s1) c.event_id ≡ some r =
      run-row c.event_id r ks s1 v1
        (All-map (SparesLease c u) (λ k. Spares k r) (SparesLease-Spares c u r held) ks spared)
        here in
    elim (Bool-cases (run ks s1).connected) [
      | inl up ↦ λ p.
          held_answer (same_identity c' r) r.status r.lease_expires_at t' u held.1 held.2 early (
            sym (
              colliding_answer c.event_id c' t' n' r (run ks s1) (run-IsValid ks s1 v1) up there
                (Collides-matches c c' r held.0 clash))
            ∙ p)
      | inr down ↦ λ p. cc (closed_answer c' t' n' (run ks s1) down)
    ]

-- The calls that an accepted receipt outlives as it is: all but those that accept its event again or
-- record it as terminal.
abbrev pub SparesAccepted : String → Call → Type 0
SparesAccepted j (Call.accept e w now) = e ≢ j
SparesAccepted j (Call.record_terminal t) = t.event_id ≢ j
SparesAccepted j _ = Unit

accepted_tests :
    (st : Status) (lease : Option ℕ) (t : ℕ)
    → st ≡ accepted
    → (renewable st lease t ≡ false) × (is_processing st ≡ false) × (is_terminal st ≡ false)
accepted_tests st lease t h = rw h (refl, refl, refl)

SparesAccepted-Spares :
    (j : String) (r : Receipt)
    → r.event_id ≡ j
    → r.status ≡ accepted
    → (k : Call) → SparesAccepted j k
    → Spares k r
SparesAccepted-Spares j r i h (Call.claim c' (aware t) n) q =
    λ e. (accepted_tests r.status r.lease_expires_at t h).0
SparesAccepted-Spares j r i h (Call.claim c' (naive w) n) q = tt
SparesAccepted-Spares j r i h (Call.release e now) q = λ k. (accepted_tests r.status none 0 h).1
SparesAccepted-Spares j r i h (Call.accept e w now) q = λ k. absurd (q (sym k ∙ i))
SparesAccepted-Spares j r i h (Call.record_terminal t) q = λ k. q (sym k ∙ i)
SparesAccepted-Spares j r i h (Call.reopen_terminal e now n) q =
    λ k. (accepted_tests r.status none 0 h).2
SparesAccepted-Spares j r i h (Call.record_activity a now) q = tt
SparesAccepted-Spares j r i h Call.close q = tt

-- Exactly-once acceptance. Once the receipt of an event is accepted, then after any sequence of calls
-- that do not accept the event again or record it as terminal and that leave the store open, a claim by
-- the same identity is answered DUPLICATE, and a claim by another identity that has the event id, or the
-- source and the idempotency key, raises ClaimConflict.
pub claim-accepted :
    (c' : Identity) (t n : ℕ) (r : Receipt) (s : EventStore) (ks : List Call)
    → IsValid s
    → row s r.event_id ≡ some r
    → r.status ≡ accepted
    → All (SparesAccepted r.event_id) ks
    → (run ks s).connected ≡ true
    → matches c' r ≡ true
    → (claim c' (aware t) n (run ks s)).0
      ≡ (if same_identity c' r then ok duplicate else err claim_conflict)
claim-accepted c' t n r s ks v h st spared up m =
    colliding_answer r.event_id c' t n r (run ks s) (run-IsValid ks s v) up
      (run-row r.event_id r ks s v
        (All-map (SparesAccepted r.event_id) (λ k. Spares k r)
          (SparesAccepted-Spares r.event_id r refl st) ks spared)
        h)
      m
    ∙ rw st refl
