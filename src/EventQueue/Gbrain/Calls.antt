-- ===== src/EventQueue/Gbrain/Calls.antt =====
-- What gtasks/event_queue/gbrain_adapter.py calls: the `gbrain` command, the two operations of gtasks/gbrain.py
-- on a task, and Python's strings and dates.
use gtasks.Prelude.{String, Option, some}
use gtasks.Prelude.Exec.{Exec, Result, Error, ok, err}
use gtasks.EventQueue.Time.{Datetime}
use gtasks.EventQueue.Json.{Value, Fields, str, obj}

-- the tools with their parameters; a link has the constant context and the source "gtasks"
pub data Call : Type 0 where
  get_page get_links : String → Call
  put_page : String → String → Call
  add_link : String → String → String → Call

-- `run` of a `CommandRunner`, and of `CanonicalTaskAdapter` over it `apply_task_progress_event` (of a slug, an
-- evidence slug, a receipt id and a time) and `set_task_status`: each may change the state and may raise.
pub record Runner (State : Type 0) : Type 0 where
  pub run : Call → Exec State Value
  pub apply_task_progress_event : String → String → String → Datetime → Exec State (Unit {0})
  pub set_task_status : String → String → Datetime → Exec State (Unit {0})

pub record PageLibrary : Type 0 where
  -- str.strip, str.rstrip, and str.rstrip("\n")
  pub strip : String → String
  pub rstrip : String → String
  pub rstrip_newlines : String → String
  -- str of a JSON value that is no text
  pub show : Value → String
  -- json.dumps(value, ensure_ascii=False)
  pub dumps : Value → String
  -- date.fromisoformat (to the canonical text), datetime.fromisoformat, datetime.isoformat
  pub date_of : String → Option String
  pub datetime_of : String → Option Datetime
  pub isoformat : Datetime → String

-- a value that has to be an object
abbrev pub object_or : Error → Option Value → Result Fields
object_or e (some (obj fs)) = ok fs
object_or e _ = err e

-- a value that has to be a text
abbrev pub text_or : Error → Option Value → Result String
text_or e (some (str s)) = ok s
text_or e _ = err e
