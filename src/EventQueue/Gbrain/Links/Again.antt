-- ===== src/EventQueue/Gbrain/Links/Again.antt =====
-- A link that `ensure_link` (gtasks/event_queue/gbrain_adapter.py) has ensured is not written again.
use gtasks.Prelude.{
  ◌≡◌, refl, sym, subst, ap, ◌∙◌, arith, String, Bool, true, false, not, Option, none, some, List,
  [], ◌∷◌,
}
use gtasks.Prelude.Exec.{
  Error, Result, ok, err, continue, returned, goes_on, after_step, raise_if, lift, handler_failure,
}
use gtasks.EventQueue.Json.{Value}
use gtasks.EventQueue.Gbrain.Calls.{Runner, get_links, add_link}
use gtasks.EventQueue.Gbrain.Links.{
  LinkRecord, link_records, matching, is_own, is_own_or_unsourced, is_single, links_from,
  write_link, ensure_matching, ensure_link,
}

-- `get_links` only reads
abbrev pub ReadsLinks : {State : Type 0} → Runner State → Type 0
ReadsLinks {State} runner = (slug : String) (s : State) → (runner.run (get_links slug) s).1 ≡ s

own-IsAccepted : (source : Option String) → is_own source ≡ true → is_own_or_unsourced source ≡ true
own-IsAccepted none h = cc
own-IsAccepted (some s) h = ground arith

raise_if-ok :
    {S : Type 0} (b : Bool) (e : Error) (s : S) {a : Unit {0}}
    → (raise_if b e s).0 ≡ ok a
    → b ≡ false
raise_if-ok true e s h = cc
raise_if-ok false e s h = refl

raise_if-state : {S : Type 0} (b : Bool) (e : Error) (s : S) → (raise_if b e s).1 ≡ s
raise_if-state true e s = refl
raise_if-state false e s = refl

own_single :
    (ls : List LinkRecord) → is_single is_own ls ≡ true → is_single is_own_or_unsourced ls ≡ true
own_single [] h = cc
own_single (l ∷ []) h = own-IsAccepted l.link_source h
own_single (l ∷ l' ∷ ls) h = cc

module _ {State : Type 0} (runner : Runner State) (reads : ReadsLinks runner) where
  links-state : (slug : String) (s : State) → (links_from runner slug s).1 ≡ s
  unfolding links_from
  links-state slug s =
      let r = (runner.run (get_links slug) s).0 in
      after_step (λ z. z ≡ s) r (λ raw. lift (link_records raw)) (runner.run (get_links slug) s).1
        (reads slug s) (λ raw. reads slug s)

  -- what the links of a page hold after the link is ensured
  abbrev Holds : String → String → String → State → Type 0
  Holds a b k s =
      (ls : List LinkRecord) × (links_from runner a s ≡ (ok ls, s))
      × (is_single is_own_or_unsourced (matching a b k ls) ≡ true)

  read_links :
      (a : String) (s : State) (ls : List LinkRecord)
      → (links_from runner a s).0 ≡ ok ls
      → links_from runner a s ≡ (ok ls, s)
  read_links a s ls h = pair (links_from runner a s) h (links-state a s)
    where
      pair : (p : Result (List LinkRecord) × State) → p.0 ≡ ok ls → p.1 ≡ s → p ≡ (ok ls, s)
      pair p h k = cc

  write-Holds :
      (a b k : String) (s : State) {u : Unit {0}}
      → (write_link runner a b k s).0 ≡ ok u
      → Holds a b k (write_link runner a b k s).1
  unfolding write_link
  write-Holds a b k s h =
      let add = runner.run (add_link a b k) in
      let (v, e1, h1) = returned add _ s h in
      let s1 : State = (add s).1 in
      let (ls, e2, h2) = returned (links_from runner a) _ s1 h1 in
      let s2 : State = (links_from runner a s1).1 in
      let bad : Bool = not (is_single is_own (matching a b k ls)) in
      let mismatch = handler_failure "gbrain_relationship_readback_mismatch" true in
      let single =
        own_single (matching a b k ls) (ground (arith, raise_if-ok bad mismatch s2 h2)) in
      let last : (write_link runner a b k s).1 ≡ s1 =
        ap (λ z. z.1) (goes_on add _ s v e1)
        ∙ (ap (λ z. z.1) (goes_on (links_from runner a) _ s1 ls e2)
            ∙ (raise_if-state bad mismatch s2 ∙ links-state a s1)) in
      subst (Holds a b k) (sym last) (ls, read_links a s1 ls e2, single)

  matching-Holds :
      (a b k : String) (s : State) (ls ms : List LinkRecord) {u : Unit {0}}
      → links_from runner a s ≡ (ok ls, s)
      → matching a b k ls ≡ ms
      → (ensure_matching runner a b k ms s).0 ≡ ok u
      → Holds a b k (ensure_matching runner a b k ms s).1
  matching-Holds a b k s ls [] e m h = write-Holds a b k s h
  matching-Holds a b k s ls (l ∷ []) e m h =
      let bad : Bool = not (is_own_or_unsourced l.link_source) in
      let refused = handler_failure "gbrain_relationship_provenance_invalid" false in
      let good = raise_if-ok bad refused s h in
      subst (Holds a b k) (sym (raise_if-state bad refused s))
        (ls, e, ap (is_single is_own_or_unsourced) m ∙ ground arith)
  matching-Holds a b k s ls (l ∷ l' ∷ ms) e m h = cc

  ensure-Holds :
      (a b k : String) (s : State) {u : Unit {0}}
      → (ensure_link runner a b k s).0 ≡ ok u
      → Holds a b k (ensure_link runner a b k s).1
  unfolding ensure_link
  ensure-Holds a b k s h =
      let (ls, e1, h1) = returned (links_from runner a) _ s h in
      let e : links_from runner a s ≡ (ok ls, s) = read_links a s ls e1 in
      let held =
        matching-Holds a b k s ls (matching a b k ls) e refl (rw (links-state a s) at h1) in
      subst (λ z. Holds a b k z.1) (sym (goes_on (links_from runner a) _ s ls e1))
        (subst (λ z. Holds a b k (ensure_matching runner a b k (matching a b k ls) z).1)
          (sym (links-state a s)) held)

  accepted :
      (a b k : String) (s : State) (ms : List LinkRecord)
      → is_single is_own_or_unsourced ms ≡ true
      → ensure_matching runner a b k ms s ≡ (ok tt, s)
  accepted a b k s [] h = cc
  accepted a b k s (l ∷ []) h = rw h refl
  accepted a b k s (l ∷ l' ∷ ms) h = cc

  held_again :
      (a b k : String) (s : State) → Holds a b k s → ensure_link runner a b k s ≡ (ok tt, s)
  unfolding ensure_link
  held_again a b k s (ls, e, single) = rw e (accepted a b k s (matching a b k ls) single)

  abbrev decoded : Result Value → Result (List LinkRecord)
  decoded (ok raw) = link_records raw
  decoded (err e) = err e

  continue-answer :
      (r : Result Value) (s : State) → (continue r (λ raw. lift (link_records raw)) s).0 ≡ decoded r
  continue-answer (ok raw) s = refl
  continue-answer (err e) s = refl

  links_from-answer :
      (a : String) (s : State) → (links_from runner a s).0 ≡ decoded (runner.run (get_links a) s).0
  unfolding links_from
  links_from-answer a s = let r = runner.run (get_links a) s in continue-answer r.0 r.1

  -- `Holds` is about what `get_links` answers
  Holds-same :
      (a b k : String) (s s' : State)
      → (runner.run (get_links a) s').0 ≡ (runner.run (get_links a) s).0
      → Holds a b k s
      → Holds a b k s'
  Holds-same a b k s s' same (ls, e, single) =
      let answered : (links_from runner a s').0 ≡ ok ls =
        links_from-answer a s'
        ∙ (ap decoded same ∙ (sym (links_from-answer a s) ∙ ap (λ z. z.0) e)) in
      (ls, read_links a s' ls answered, single)

-- Where `get_links` only reads, a link that `ensure_link` has ensured is not written again: in any state in which
-- `get_links` answers for its page as it did right after that call, another call returns and changes nothing.
pub ensure_link-again :
    {State : Type 0} (runner : Runner State) (a b k : String) (s s' : State)
    → ReadsLinks runner
    → (ensure_link runner a b k s).0 ≡ ok tt
    → (runner.run (get_links a) s').0 ≡ (runner.run (get_links a) (ensure_link runner a b k s).1).0
    → ensure_link runner a b k s' ≡ (ok tt, s')
ensure_link-again runner a b k s s' reads h same = held_again runner reads a b k s' (
    Holds-same runner reads a b k (ensure_link runner a b k s).1 s' same
      (ensure-Holds runner reads a b k s h))
