-- ===== src/EventQueue/Store/Held.antt =====
-- The receipt that `EventStore.claim` (gtasks/event_queue/store.py) leaves when it answers PROCESS.
use gtasks.Prelude.{
  ℕ, ◌≡◌, refl, inl, inr, Bool, true, false, Option, none, some, List, [], ◌∷◌, arith, sym, ap, ◌∙◌,
  subst, ltb, Bool-cases, ==_refl,
}
use gtasks.Prelude.Exec.{Exec, ok, transaction, transaction-answer, transaction_kept}
use gtasks.Prelude.Tables.{All, find_row, All-find_none, find-test, find-update, find-append_new}
use gtasks.EventQueue.Time.{aware, after_seconds}
use gtasks.EventQueue.Store.{
  Status, processing, accepted, terminal, Disposition, process, Receipt, EventStore, Identity,
  has_id, matches, same_identity, new_receipt, renew, claim_status, claim_row, claim_body, claim,
}
use gtasks.EventQueue.Store.Invariant.{IsValid, unique_row, same_identity-has_id}
use gtasks.EventQueue.Store.Frame.{row}
use gtasks.EventQueue.Store.Matching.{con_open, con_closed, find_only}

-- a receipt that an identity holds until `u`
abbrev pub Held : Identity → ℕ → Receipt → Type 0
Held c u r = (same_identity c r ≡ true) × (r.status ≡ processing) × (r.lease_expires_at ≡ some u)

abbrev pub HeldIn : Identity → ℕ → EventStore → Type 0
HeldIn c u s = (r : Receipt) × (row s c.event_id ≡ some r) × Held c u r

find_none_of :
    (p q : Receipt → Bool) (rs : List Receipt)
    → ((x : Receipt) → p x ≡ false → q x ≡ false)
    → All (λ x. p x ≡ false) rs
    → find_row q rs ≡ none
find_none_of p q [] f h = refl
find_none_of p q (x ∷ xs) f h = rw (f x h.0) (find_none_of p q xs f h.1)

same_identity_new : (c : Identity) (t u : ℕ) → same_identity c (new_receipt c t u) ≡ true
same_identity_new c t u =
    rw
      (
        ==_refl c.event_id,
        ==_refl c.source_client_id,
        ==_refl c.idempotency_key,
        ==_refl c.fingerprint,
      )
      refl

-- What a claim that is answered PROCESS leaves behind.
claim_status-held :
    (c : Identity) (t u : ℕ) (st : Status) (lease : Option ℕ) (r : Receipt) (s : EventStore)
    → r.status ≡ st
    → same_identity c r ≡ true
    → row s c.event_id ≡ some r
    → (claim_status c t u st lease s).0 ≡ ok process
    → HeldIn c u (claim_status c t u st lease s).1
unfolding claim_status
claim_status-held c t u accepted lease r s st same h e = cc
claim_status-held c t u terminal lease r s st same h e = cc
claim_status-held c t u processing none r s st same h e = cc
claim_status-held c t u processing (some l) r s st same h e = elim (Bool-cases (ltb t l)) [
  | inl early ↦ cc (rw early at e)
  | inr late ↦ rw late (
    renew t u r,
    rw
        (
          find-update (has_id c.event_id) (has_id c.event_id) (renew t u) (λ x. refl) s.receipts,
          h,
          find-test (has_id c.event_id) s.receipts h,
        )
        refl,
    (same, st, refl),
  )
]

claim_row-held :
    (c : Identity) (t u : ℕ) (found : Option Receipt) (s : EventStore)
    → IsValid s
    → find_row (matches c) s.receipts ≡ found
    → (claim_row c t u found s).0 ≡ ok process
    → HeldIn c u (claim_row c t u found s).1
unfolding claim_row
claim_row-held c t u none s v f e = (
  new_receipt c t u,
  find-append_new (has_id c.event_id) s.receipts (new_receipt c t u)
      (find_none_of (matches c) (has_id c.event_id) s.receipts (λ x h. ground arith)
        (All-find_none (matches c) s.receipts f))
      (==_refl c.event_id),
  (same_identity_new c t u, refl, refl),
)
claim_row-held c t u (some r) s v f e = elim (Bool-cases (same_identity c r)) [
  | inl same ↦ rw same (
      claim_status-held c t u r.status r.lease_expires_at r s refl same
        (find_only (has_id c.event_id) (matches c) s.receipts f (same_identity-has_id c r same) (
          unique_row (matches c) c.event_id s.receipts v.distinct f
            (same_identity-has_id c r same)))
        (rw same at e))
  | inr other ↦ cc (rw other at e)
]

-- A claim that is answered PROCESS leaves a processing receipt of its identity with the lease asked for.
pub claim-Held :
    (c : Identity) (t n : ℕ) (s : EventStore)
    → IsValid s
    → (claim c (aware t) n s).0 ≡ ok process
    → HeldIn c (after_seconds t n) (claim c (aware t) n s).1
unfolding claim
claim-Held c t n s v e =
    let body : Exec EventStore Disposition = claim_body c t (after_seconds t n) in
    elim (Bool-cases s.connected) [
      | inl up ↦
          let opened : claim c (aware t) n s ≡ transaction body s =
            con_open (transaction body) s up in
          let ran : (body s).0 ≡ ok process =
            sym (transaction-answer body s) ∙ sym (ap (λ x. x.0) opened) ∙ e in
          subst (λ z. HeldIn c (after_seconds t n) z.1)
            (sym (opened ∙ transaction_kept body s process ran))
            (claim_row-held c t (after_seconds t n) (find_row (matches c) s.receipts) s v refl ran)
      | inr down ↦ cc (con_closed (transaction body) s down)
    ]
