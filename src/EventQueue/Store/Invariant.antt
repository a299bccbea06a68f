-- ===== src/EventQueue/Store/Invariant.antt =====
-- The invariant of the event store's tables (gtasks/event_queue/store.py), and that each method
-- keeps it.
use gtasks.Prelude.{
  ℕ, ◌<◌, ◌≡◌, ◌≢◌, refl, inl, inr, String, Bool, true, false, Option, none, some, List, [], ◌∷◌,
  ◌++◌, eq_iff, arith, is_some, sym, subst, ◌∙◌, Bool-cases,
}
use gtasks.Prelude.Tables.{
  All, Pairs, any_row, find_row, All-find, update_rows, All-map, All-append, Pairs-append,
  All-find_none, All-update, Pairs-update,
}
use mathlib.Core.Option.{some_inj}
use gtasks.EventQueue.Store.{
  Status, processing, accepted, terminal, Receipt, TerminalRecord, EventStore, Identity,
  empty_store, has_id, terminal_has_id, matches, same_identity, new_receipt,
}

-- the two uniqueness constraints of `receipts`
abbrev pub Separate : Receipt → Receipt → Type 0
Separate r q =
    (r.event_id ≢ q.event_id)
    × (r.source_client_id ≡ q.source_client_id → r.idempotency_key ≢ q.idempotency_key)

-- What a status promises of the other columns; the last argument says whether the event has a row
-- in `terminals`.
abbrev pub StatusIsValid : Status → Option ℕ → Option String → Bool → Type 0
StatusIsValid processing lease version dead = is_some lease ≡ true
StatusIsValid accepted lease version dead = (lease ≡ none) × (is_some version ≡ true)
StatusIsValid terminal lease version dead = (lease ≡ none) × (dead ≡ true)

abbrev pub ReceiptIsValid : List TerminalRecord → Receipt → Type 0
ReceiptIsValid ts r =
    StatusIsValid r.status r.lease_expires_at r.handler_version
      (any_row (terminal_has_id r.event_id) ts)

pub record IsValid (s : EventStore) : Type 0 where
  pub rows : All (ReceiptIsValid s.terminals) s.receipts
  pub distinct : Pairs Separate s.receipts
  pub terminals_distinct : Pairs (λ t u. t.event_id ≢ u.event_id) s.terminals
  pub ids_below : All (λ a. a.id < s.next_id) s.activity
  pub ids_rise : Pairs (λ a b. a.id < b.id) s.activity

pub empty_store-IsValid : IsValid empty_store
empty_store-IsValid = record {
  rows = tt;
  distinct = tt;
  terminals_distinct = tt;
  ids_below = tt;
  ids_rise = tt;
}

-- A change of the receipts by an update that keeps every identity.
module _ (p : Receipt → Bool) (f : Receipt → Receipt)
    (keeps_id : (r : Receipt) → (f r).event_id ≡ r.event_id)
    (keeps_source : (r : Receipt) → (f r).source_client_id ≡ r.source_client_id)
    (keeps_key : (r : Receipt) → (f r).idempotency_key ≡ r.idempotency_key) where
  pub update-distinct :
      (rs : List Receipt) → Pairs Separate rs → Pairs Separate (update_rows p f rs)
  update-distinct =
      Pairs-update Separate p f (λ x y d. rw (keeps_id x, keeps_source x, keeps_key x) d)
        (λ x y d. rw (keeps_id y, keeps_source y, keeps_key y) d)

  pub update-IsValid :
      (s : EventStore)
      → ((r : Receipt)
          → ReceiptIsValid s.terminals r
          → p r ≡ true
          → ReceiptIsValid s.terminals (f r))
      → IsValid s
      → IsValid (record s { receipts = update_rows p f s.receipts })
  update-IsValid s good v = record {
    rows =
        All-update (ReceiptIsValid s.terminals) (ReceiptIsValid s.terminals) p f good (λ r h _. h)
          s.receipts v.rows;
    distinct = update-distinct s.receipts v.distinct;
    terminals_distinct = v.terminals_distinct;
    ids_below = v.ids_below;
    ids_rise = v.ids_rise;
  }

pub matches-Separate :
    (c : Identity) (t u : ℕ) (r : Receipt) → matches c r ≡ false → Separate r (new_receipt c t u)
matches-Separate c t u r h = ground (
  arith,
  eq_iff r.event_id c.event_id,
  eq_iff r.source_client_id c.source_client_id,
  eq_iff r.idempotency_key c.idempotency_key,
)

pub insert-IsValid :
    (c : Identity) (t u : ℕ) (s : EventStore)
    → find_row (matches c) s.receipts ≡ none
    → IsValid s
    → IsValid (record s { receipts = s.receipts ++ new_receipt c t u ∷ [] })
insert-IsValid c t u s e v = record {
  rows =
      All-append (ReceiptIsValid s.terminals) s.receipts (new_receipt c t u ∷ []) v.rows (refl, tt);
  distinct = Pairs-append Separate s.receipts (new_receipt c t u) v.distinct (
      All-map (λ r. matches c r ≡ false) (λ r. Separate r (new_receipt c t u))
        (matches-Separate c t u) s.receipts (All-find_none (matches c) s.receipts e));
  terminals_distinct = v.terminals_distinct;
  ids_below = v.ids_below;
  ids_rise = v.ids_rise;
}

-- At most one row has a given event id.
pub unique_row :
    (p : Receipt → Bool) (e : String) (rs : List Receipt) {r : Receipt}
    → Pairs Separate rs
    → find_row p rs ≡ some r
    → has_id e r ≡ true
    → All (λ q. has_id e q ≡ true → q ≡ r) rs
unique_row p e [] d h k = tt
unique_row p e (x ∷ xs) {r} d h k = elim (Bool-cases (p x)) [
  | inl t ↦
      let same : x ≡ r = some_inj.0 (rw t at h) in
      (
        λ _. same,
        All-map (Separate x) (λ q. has_id e q ≡ true → q ≡ r)
            (λ q apart found.
              absurd (apart.0 (same_id x q (subst (λ z. has_id e z ≡ true) (sym same) k) found)))
            xs d.0,
      )
  | inr f ↦
      let h' : find_row p xs ≡ some r = rw f at h in
      (
        λ found. absurd ((All-find (Separate x) p xs d.0 h').0 (same_id x r found k)),
        unique_row p e xs d.1 h' k,
      )
]
  where
    same_id : (x q : Receipt) → has_id e x ≡ true → has_id e q ≡ true → x.event_id ≡ q.event_id
    same_id x q h k = (eq_iff x.event_id e).0 h ∙ sym ((eq_iff q.event_id e).0 k)

-- Two queries that find rows with the same event id find the same row.
pub same_row :
    (p p' : Receipt → Bool) (e : String) (rs : List Receipt) {q r : Receipt}
    → Pairs Separate rs
    → find_row p rs ≡ some q
    → has_id e q ≡ true
    → find_row p' rs ≡ some r
    → has_id e r ≡ true
    → r ≡ q
same_row p p' e rs {q} d f k g =
    All-find (λ z. has_id e z ≡ true → z ≡ q) p' rs (unique_row p e rs d f k) g

pub same_identity-has_id :
    (c : Identity) (r : Receipt) → same_identity c r ≡ true → has_id c.event_id r ≡ true
same_identity-has_id c r h = ground arith
