-- ===== src/EventQueue/Registry.antt =====
-- `HandlerRegistry` (gtasks/event_queue/contract.py): handlers by event type and schema version.
use gtasks.Prelude.{
  ◌≡◌, ◌⊎◌, refl, ap, ◌∙◌, inl, inr, arith, String, Bool, true, false, ◌&&◌, Option, none, some,
  List, [], ◌∷◌, ◌++◌, ◌==◌, eq_iff, nat_eq, is_some, if◌then◌else◌, Bool-cases, ==_refl,
}
use gtasks.Prelude.Exec.{Exec, Result, ok, err, contract_error, value_error}
use gtasks.EventQueue.Store.{Version, pos, negsuc}

abbrev pub same_version : Version → Version → Bool
same_version (pos a) (pos b) = nat_eq a b
same_version (negsuc a) (negsuc b) = nat_eq a b
same_version _ _ = false

-- `_handlers`, in the order of registration
pub record Entry (Handler : Type 0) : Type 0 where
  pub event_type : String
  pub schema_version : Version
  pub handler : Handler

module _ {Handler : Type 0} where
  unfoldable pub find_handler : String → Version → List (Entry Handler) → Option Handler
  find_handler t v [] = none
  find_handler t v (e ∷ es) =
      if (e.event_type == t) && same_version e.schema_version v
      then some e.handler
      else find_handler t v es

  unfoldable pub register : String → Version → Handler → Exec (List (Entry Handler)) (Unit {0})
  unfolding find_handler
  register t v h es =
      if is_some (find_handler t v es)
      then (err value_error, es)
      else (ok tt, es ++ record { event_type = t; schema_version = v; handler = h } ∷ [])

  abbrev pub or_unsupported : Option Handler → Result Handler
  or_unsupported none = err contract_error
  or_unsupported (some h) = ok h

  unfoldable pub resolve : String → Version → List (Entry Handler) → Result Handler
  unfolding find_handler
  resolve t v es = or_unsupported (find_handler t v es)

same_version-eq : (v w : Version) → same_version v w ≡ true → v ≡ w
same_version-eq (pos a) (pos b) h = ground arith
same_version-eq (pos a) (negsuc b) h = cc
same_version-eq (negsuc a) (pos b) h = cc
same_version-eq (negsuc a) (negsuc b) h = ground arith

pub same_version_refl : (v : Version) → same_version v v ≡ true
same_version_refl (pos a) = ground arith
same_version_refl (negsuc a) = ground arith

abbrev pub same_key : String → Version → String → Version → Bool
same_key t v t' v' = (t == t') && same_version v v'

module _ {Handler : Type 0} where
  find-append_entry :
      (t t' : String) (v v' : Version) (h : Handler) (es : List (Entry Handler))
      → find_handler t v es ≡ none
      → find_handler t' v' (es ++ record { event_type = t; schema_version = v; handler = h } ∷ [])
        ≡ (if same_key t v t' v' then some h else find_handler t' v' es)
  unfolding find_handler
  find-append_entry t t' v v' h [] e = refl
  find-append_entry t t' v v' h (x ∷ xs) e = ground (
    arith,
    find-append_entry t t' v v' h xs,
    eq_iff x.event_type t',
    eq_iff x.event_type t,
    eq_iff t t',
    same_version-eq x.schema_version v',
    same_version-eq v v',
    same_version_refl x.schema_version,
    ==_refl t,
  )

  is_some-none : (x : Option Handler) → is_some x ≡ false → x ≡ none
  is_some-none none e = refl
  is_some-none (some h) e = cc

  or_unsupported-if :
      (b : Bool) (h : Handler) (x : Option Handler)
      → or_unsupported (if b then some h else x) ≡ (if b then ok h else or_unsupported x)
  or_unsupported-if true h x = refl
  or_unsupported-if false h x = refl

  -- Registration: under a key that has a handler it raises ValueError and changes nothing; under any other
  -- key it returns, that key then resolves to the new handler, and every other key as before.
  pub resolve-register :
      (t t' : String) (v v' : Version) (h : Handler) (es : List (Entry Handler))
      → ((is_some (find_handler t v es) ≡ true) × (register t v h es ≡ (err value_error, es)))
        ⊎ ((is_some (find_handler t v es) ≡ false)
            × ((register t v h es).0 ≡ ok tt)
            × (resolve t' v' (register t v h es).1
                ≡ (if same_key t v t' v' then ok h else resolve t' v' es)))
  unfolding register resolve
  resolve-register t t' v v' h es = elim (Bool-cases (is_some (find_handler t v es))) [
    | inl taken ↦ inl (taken, rw taken refl)
    | inr free ↦
        let none_there : find_handler t v es ≡ none = is_some-none (find_handler t v es) free in
        inr (
          free,
          rw free refl,
          rw free (
              ap or_unsupported (find-append_entry t t' v v' h es none_there)
              ∙ or_unsupported-if (same_key t v t' v') h (find_handler t' v' es)),
        )
  ]
