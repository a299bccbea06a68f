-- ===== src/Releases/Tests.antt =====
-- Runs of the release catalog (gtasks/releases.py).
use gtasks.Prelude.{refl, String, none, some, [], ◌∷◌, ◌==◌, if◌then◌else◌}
use gtasks.EventQueue.Json.{Value, Fields, str, arr, obj, nil, cons, field, end, get_field}
use gtasks.Releases.{
  VersionLibrary, Release, filled_text, version_parts, normalize_entry, normalize, check_steps,
  load_catalog,
}
use gtasks.Releases.Numbering.{Numbered, load_catalog-Numbered}

abbrev library : VersionLibrary
library = record {
  strip = λ s. s;
  parts_of =
      λ s. if s == "V0.0.1" then some (0, 0, 1) else if s == "V0.0.2" then some (0, 0, 2) else none;
}

abbrev entry : String → Value
entry version = obj (
    field "version" (str version) (
      field "date" (str "2026-08-01")
        (field "title" (str "Lists") (field "summary" (str "More lists") end))))

abbrev catalog : Fields
catalog =
    field "current_version" (str "V0.0.2")
      (field "releases" (arr (cons (entry "V0.0.1") (cons (entry "V0.0.2") nil))) end)

abbrev release : String → Release
release version = record {
  version = version;
  date = "2026-08-01";
  title = "Lists";
  summary = "More lists";
}

load_catalog-Numbered_example : Numbered library 1 (release "V0.0.1" ∷ release "V0.0.2" ∷ [])
unfolding get_field filled_text version_parts normalize_entry normalize check_steps load_catalog
load_catalog-Numbered_example =
    load_catalog-Numbered library catalog (release "V0.0.1" ∷ release "V0.0.2" ∷ []) refl refl
