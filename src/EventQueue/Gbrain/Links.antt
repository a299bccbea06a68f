-- ===== src/EventQueue/Gbrain/Links.antt =====
-- gtasks/event_queue/gbrain_adapter.py: the answers of `get_links`, and `ensure_link`.
pub mod Again
use gtasks.Prelude.{
  String, Bool, true, false, not, ◌&&◌, ◌||◌, Option, none, some, List, [], ◌∷◌, ◌==◌, ltb, nat_eq,
  if◌then◌else◌,
}
use gtasks.Prelude.Exec.{
  Exec, Result, ok, err, protocol_error, handler_failure, pure, raise, raise_if, lift, ◌>>=◌, ◌>>◌,
}
use gtasks.Prelude.Tables.{length, any_row}
use gtasks.EventQueue.Json.{
  Value, Fields, Items, null, bool, int, float, str, arr, obj, nil, cons, get_field,
}
use gtasks.EventQueue.Gbrain.Calls.{Runner, get_links, add_link}

-- an element of the result of `_link_records`
pub record LinkRecord : Type 0 where
  pub from_slug : String
  pub to_slug : String
  pub link_type : String
  pub link_source : Option String

abbrev source_of : Option Value → Option String
source_of (some (str s)) = some s
source_of _ = none

-- the record of an item, where its three entries are texts
abbrev record_of : Fields → Option Value → Option Value → Option Value → Option LinkRecord
record_of item (some (str source)) (some (str target)) (some (str link_type)) = some (record {
  from_slug = source;
  to_slug = target;
  link_type = link_type;
  link_source = source_of (get_field "link_source" item);
})
record_of item _ _ _ = none

abbrev link_of : Value → Option LinkRecord
link_of (obj item) =
    record_of item (get_field "from_slug" item) (get_field "to_slug" item)
      (get_field "link_type" item)
link_of _ = none

abbrev with_link : Option LinkRecord → List LinkRecord → List LinkRecord
with_link none ls = ls
with_link (some l) ls = l ∷ ls

abbrev links_in : Items → List LinkRecord
links_in nil = []
links_in (cons v vs) = with_link (link_of v) (links_in vs)

-- `_link_records`
unfoldable pub link_records : Value → Result (List LinkRecord)
link_records (arr vs) = ok (links_in vs)
link_records _ = err protocol_error

abbrev pub is_link : String → String → String → LinkRecord → Bool
is_link from_slug to_slug link_type l =
    (l.from_slug == from_slug) && (l.to_slug == to_slug) && (l.link_type == link_type)

-- `[item for item in records if …]`
abbrev pub matching : String → String → String → List LinkRecord → List LinkRecord
matching from_slug to_slug link_type [] = []
matching from_slug to_slug link_type (l ∷ ls) =
    let rest = matching from_slug to_slug link_type ls in
    if is_link from_slug to_slug link_type l then l ∷ rest else rest

-- `link_source in {None, "", "gtasks"}`
abbrev pub is_own_or_unsourced : Option String → Bool
is_own_or_unsourced none = true
is_own_or_unsourced (some s) = (s == "") || (s == "gtasks")

abbrev pub is_own : Option String → Bool
is_own none = false
is_own (some s) = s == "gtasks"

-- `len(links) == 1 and test(links[0]["link_source"])`
abbrev pub is_single : (Option String → Bool) → List LinkRecord → Bool
is_single test (l ∷ []) = test l.link_source
is_single test _ = false

module _ {State : Type 0} (runner : Runner State) where
  -- `_link_records(self.runner.run("get_links", {"slug": slug}))`
  unfoldable pub links_from : String → Exec State (List LinkRecord)
  unfolding link_records
  links_from slug = do raw ← runner.run (get_links slug); lift (link_records raw)

  -- the write of a missing link, and its readback
  unfoldable pub write_link : String → String → String → Exec State (Unit {0})
  unfolding links_from
  write_link from_slug to_slug link_type = do
    runner.run (add_link from_slug to_slug link_type)
    readback ← links_from from_slug
    raise_if (not (is_single is_own (matching from_slug to_slug link_type readback)))
        (handler_failure "gbrain_relationship_readback_mismatch" true)

  abbrev pub ensure_matching : String → String → String → List LinkRecord → Exec State (Unit {0})
  ensure_matching from_slug to_slug link_type [] = write_link from_slug to_slug link_type
  ensure_matching from_slug to_slug link_type (l ∷ []) =
      raise_if (not (is_own_or_unsourced l.link_source))
        (handler_failure "gbrain_relationship_provenance_invalid" false)
  ensure_matching from_slug to_slug link_type _ =
      raise (handler_failure "gbrain_relationship_ambiguous" false)

  unfoldable pub ensure_link : String → String → String → Exec State (Unit {0})
  unfolding links_from write_link
  ensure_link from_slug to_slug link_type = do
    records ← links_from from_slug
    ensure_matching from_slug to_slug link_type (matching from_slug to_slug link_type records)
