-- ===== src/EventQueue/Store/Terminals.antt =====
-- The rows of the `terminals` table (gtasks/event_queue/store.py) after an upsert and a deletion.
use gtasks.Prelude.{
  ◌≡◌, ◌≢◌, refl, inl, inr, String, true, false, ◌∙◌, List, [], ◌∷◌, ◌==◌, eq_iff, arith,
  Bool-cases, ==_refl,
}
use gtasks.Prelude.Tables.{
  Pairs, any_row, delete_rows, All-map, Pairs-append, Pairs-update, any-update, any-append,
  All-any_false,
}
use gtasks.EventQueue.Store.{TerminalRecord, terminal_has_id, upsert_terminal}

pub any-upsert_mono :
    (e : String) (t : TerminalRecord) (ts : List TerminalRecord)
    → any_row (terminal_has_id e) ts ≡ true
    → any_row (terminal_has_id e) (upsert_terminal t ts) ≡ true
any-upsert_mono e t ts h = elim (Bool-cases (any_row (terminal_has_id t.event_id) ts)) [
  | inl old ↦
      rw old (any-update (terminal_has_id e) (terminal_has_id t.event_id) _ (λ x. refl) ts ∙ h)
  | inr new ↦ rw (new, any-append (terminal_has_id e) ts t, h) refl
]

pub any-upsert_self :
    (t : TerminalRecord) (ts : List TerminalRecord)
    → any_row (terminal_has_id t.event_id) (upsert_terminal t ts) ≡ true
any-upsert_self t ts = elim (Bool-cases (any_row (terminal_has_id t.event_id) ts)) [
  | inl old ↦
      rw old (
        any-update (terminal_has_id t.event_id) (terminal_has_id t.event_id) _ (λ x. refl) ts ∙ old)
  | inr new ↦ rw (new, any-append (terminal_has_id t.event_id) ts t, new, ==_refl t.event_id) refl
]

pub any-upsert_hit :
    (e : String) (t : TerminalRecord) (ts : List TerminalRecord)
    → (e == t.event_id) ≡ true
    → any_row (terminal_has_id e) (upsert_terminal t ts) ≡ true
any-upsert_hit e t ts h = rw ((eq_iff e t.event_id).0 h) (any-upsert_self t ts)

pub upsert-distinct :
    (t : TerminalRecord) (ts : List TerminalRecord)
    → Pairs (λ x y. x.event_id ≢ y.event_id) ts
    → Pairs (λ x y. x.event_id ≢ y.event_id) (upsert_terminal t ts)
upsert-distinct t ts d = elim (Bool-cases (any_row (terminal_has_id t.event_id) ts)) [
  | inl old ↦ rw old (Pairs-update _ (terminal_has_id t.event_id) _ (λ x y k. k) (λ x y k. k) ts d)
  | inr new ↦ rw new (
      Pairs-append (λ x y. x.event_id ≢ y.event_id) ts t d
        (All-map (λ x. terminal_has_id t.event_id x ≡ false) (λ x. x.event_id ≢ t.event_id)
          (λ x k. ground (arith, eq_iff x.event_id t.event_id)) ts (All-any_false _ ts new)))
]

pub any-delete_ne :
    (e j : String) (ts : List TerminalRecord)
    → (j == e) ≡ false
    → any_row (terminal_has_id j) (delete_rows (terminal_has_id e) ts)
      ≡ any_row (terminal_has_id j) ts
any-delete_ne e j [] h = refl
any-delete_ne e j (t ∷ ts) h =
    ground (arith, any-delete_ne e j ts h, eq_iff t.event_id e, eq_iff t.event_id j, eq_iff j e)
