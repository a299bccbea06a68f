-- ===== src/EventQueue/Json.antt =====
-- Decoded JSON values, as `json.loads` gives them to gtasks/event_queue/contract.py and worker.py: the
-- keys of an object are distinct, since a later entry replaces an earlier one.
use gtasks.Prelude.{String, Bool, Option, none, some, List, [], ◌∷◌, ◌==◌, if◌then◌else◌}
use gtasks.EventQueue.Store.{Version}

mutual
  -- the entries of an object
  pub data Fields : Type 0 where
    field : String → Value → Fields → Fields
    end : Fields

  -- the elements of an array
  pub data Items : Type 0 where
    cons : Value → Items → Items
    nil : Items

  pub data Value : Type 0 where
    obj : Fields → Value
    arr : Items → Value
    str float : String → Value
    int : Version → Value
    bool : Bool → Value
    null : Value

-- value.keys()
unfoldable pub keys : Fields → List String
keys end = []
keys (field k v fs) = k ∷ keys fs

-- value.get(k)
unfoldable pub get_field : String → Fields → Option Value
get_field k end = none
get_field k (field j v fs) = if j == k then some v else get_field k fs
