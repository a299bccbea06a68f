-- ===== src/EventQueue/Gbrain/ApplicationPage.antt =====
-- gtasks/event_queue/gbrain_adapter.py: the page of an application, and `upsert_application`.
use gtasks.Prelude.{
  String, Bool, true, false, not, ◌&&◌, ◌||◌, Option, none, some, List, [], ◌∷◌, ◌==◌, is_some,
  if◌then◌else◌,
}
use gtasks.Prelude.Exec.{
  Exec, Error, handler_failure, page_not_found, pure, raise, raise_if, catch, ◌>>=◌, ◌>>◌,
}
use gtasks.EventQueue.Json.{Value, Fields, null, str, obj, field, end, get_field}
use gtasks.EventQueue.Slug.{◌+++◌}
use gtasks.EventQueue.Handler.{ApplicationRecord}
use gtasks.EventQueue.Gbrain.Calls.{Runner, PageLibrary, get_page, put_page}
use gtasks.EventQueue.Gbrain.QuotaPage.{is_text}

abbrev pub identity_conflict : Error
identity_conflict = handler_failure "application_identity_conflict" false

abbrev pub application_mismatch : Error
application_mismatch = handler_failure "gbrain_application_readback_mismatch" true

-- d[k] = v
abbrev pub put_field : String → Value → Fields → Fields
put_field k v end = field k v end
put_field k v (field j w fs) =
    let rest = put_field k v fs in if j == k then field j v fs else field j w rest

-- value or None
abbrev pub or_null : Option Value → Value
or_null none = null
or_null (some v) = v

-- d.setdefault(k, page.get(k))
abbrev pub set_default : String → Fields → Fields → Fields
set_default k page fs =
    if is_some (get_field k fs) then fs else put_field k (or_null (get_field k page)) fs

-- `dict(frontmatter)` with the two defaults
abbrev pub with_defaults : Fields → Fields → Fields
with_defaults page frontmatter = set_default "title" page (set_default "type" page frontmatter)

-- the entries of `_application_frontmatter`, which are all texts
abbrev pub Entries : Type 0
Entries = List (String × String)

abbrev pub fields_of : Entries → Fields
fields_of [] = end
fields_of ((k, s) ∷ es) = field k (str s) (fields_of es)

-- {**fields, **entries}
abbrev pub updated : Entries → Fields → Fields
updated [] fs = fs
updated ((k, s) ∷ es) fs = updated es (put_field k (str s) fs)

-- all(actual.get(key) == value for key, value in expected.items())
abbrev pub agrees : Entries → Fields → Bool
agrees [] fs = true
agrees ((k, s) ∷ es) fs = is_text s (get_field k fs) && agrees es fs

abbrev pub title_of : ApplicationRecord → String
title_of r = r.title +++ (" at " +++ r.company)

-- `_application_body`
abbrev pub application_body : ApplicationRecord → String
application_body r =
    "# " +++ (title_of r +++ "\n\nCanonical job-application evidence ingested by GTasks.")

module _ (lib : PageLibrary) where
  open lib use {rstrip, rstrip_newlines, dumps, isoformat}

  -- the lines of `_render_page` for the entries, each with a line break
  abbrev pub entry_lines : Fields → String
  entry_lines end = ""
  entry_lines (field k v fs) = dumps (str k) +++ (": " +++ (dumps v +++ ("\n" +++ entry_lines fs)))

  -- `_render_page`
  unfoldable pub render_page : Fields → String → String
  render_page frontmatter body =
      "---\n" +++ (entry_lines frontmatter +++ ("---\n\n" +++ (rstrip body +++ "\n")))

  -- `_application_frontmatter`
  unfoldable pub application_frontmatter : ApplicationRecord → Entries
  application_frontmatter r =
      ("type", "job_application")
      ∷ ("title", title_of r)
      ∷ ("status", r.status)
      ∷ ("event_id", r.event_id)
      ∷ ("source_client_id", r.source_client_id)
      ∷ ("job_source", r.job_source)
      ∷ ("job_id", r.job_id)
      ∷ ("job_title", r.title)
      ∷ ("company", r.company)
      ∷ ("location", r.location)
      ∷ ("url", r.url)
      ∷ ("applied_local_date", r.applied_local_date)
      ∷ ("committed_at", isoformat r.committed_at)
      ∷ ("evidence_source", r.evidence_source)
      ∷ []

  abbrev pub frontmatter_matches : Fields → ApplicationRecord → Option Value → Bool
  frontmatter_matches page r (some (obj fs)) =
      agrees (application_frontmatter r) (with_defaults page fs)
  frontmatter_matches page r _ = false

  -- `_application_page_matches`, false also for an answer that is no object
  unfoldable pub application_page_matches : Value → ApplicationRecord → Bool
  unfolding application_frontmatter
  application_page_matches (obj page) r = frontmatter_matches page r (get_field "frontmatter" page)
  application_page_matches _ r = false

  -- whether a page's text is the body, up to newlines at the end
  abbrev pub keeps_text : String → Option Value → Bool
  keeps_text body (some (str s)) = rstrip_newlines s == rstrip_newlines body
  keeps_text body _ = false

  abbrev pub keeps_body : String → Value → Bool
  keeps_body body (obj page) = keeps_text body (get_field "compiled_truth" page)
  keeps_body body _ = false

  module _ {State : Type 0} (runner : Runner State) where
    -- the write and its readback; the Boolean says whether a page was there
    unfoldable pub write_application :
        ApplicationRecord → Bool → Fields → String → Exec State (Unit {0})
    unfolding render_page application_page_matches
    write_application r existing frontmatter body = do
      runner.run (put_page r.slug (render_page frontmatter body))
      readback ← runner.run (get_page r.slug)
      raise_if (not (application_page_matches readback r)) application_mismatch
      raise_if (existing && not (keeps_body body readback)) application_mismatch

    -- the checks of the body of a page that is there, and the write where it does not match
    abbrev pub update_body :
        ApplicationRecord → Fields → Fields → Option Value → Exec State (Unit {0})
    update_body r page frontmatter (some (str body)) =
        if application_page_matches (obj page) r
        then pure tt
        else write_application r true (updated (application_frontmatter r) frontmatter) body
    update_body r page frontmatter _ = raise identity_conflict

    abbrev pub is_foreign : ApplicationRecord → Fields → Bool
    is_foreign r fs =
        not (is_text "job_application" (get_field "type" fs))
        || not (is_text r.job_source (get_field "job_source" fs))
        || not (is_text r.job_id (get_field "job_id" fs))

    abbrev pub update_page : ApplicationRecord → Fields → Option Value → Exec State (Unit {0})
    update_page r page (some (obj fs)) = do
      raise_if (is_foreign r (with_defaults page fs)) identity_conflict
      update_body r page (with_defaults page fs) (get_field "compiled_truth" page)
    update_page r page _ = raise identity_conflict

    -- an answer that is no object is treated as no page
    abbrev pub upsert_existing : ApplicationRecord → Option Value → Exec State (Unit {0})
    upsert_existing r (some (obj page)) = update_page r page (get_field "frontmatter" page)
    upsert_existing r _ =
        write_application r false (fields_of (application_frontmatter r)) (application_body r)

    -- `except GBrainPageNotFound: existing = None`
    abbrev pub no_page : Error → Exec State (Option Value)
    no_page page_not_found = pure none
    no_page e = raise e

    unfoldable pub upsert_application : ApplicationRecord → Exec State (Unit {0})
    unfolding application_frontmatter application_page_matches write_application
    upsert_application r = do
      existing ← catch (do page ← runner.run (get_page r.slug); pure (some page)) no_page
      upsert_existing r existing
