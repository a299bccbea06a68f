-- ===== src/Releases.antt =====
-- gtasks/releases.py: the checks that `_load_catalog` makes of the release catalog, once it is decoded.
pub mod Numbering
mod Tests
use gtasks.Prelude.{
  ℕ, ◌+◌, String, Bool, true, false, not, ◌&&◌, Option, none, some, List, [], ◌∷◌, ◌==◌, nat_eq,
  if◌then◌else◌,
}
use gtasks.Prelude.Exec.{Result, ok, err, runtime_error}
use gtasks.Prelude.Checked.{◌>>=◌, ◌>>◌, fail_if}
use gtasks.Prelude.Sets.{member}
use gtasks.EventQueue.Json.{
  Value, Items, Fields, null, bool, int, float, str, arr, obj, nil, cons, get_field,
}

-- What the checks use of Python's standard library: `str.strip`, and the three numbers of a text that
-- `re.fullmatch` finds to be of the form V\d+\.\d+\.\d+.
pub record VersionLibrary : Type 0 where
  pub strip : String → String
  pub parts_of : String → Option (ℕ × ℕ × ℕ)

pub record Release : Type 0 where
  pub version : String
  pub date : String
  pub title : String
  pub summary : String

abbrev pub or_refuse : {A : Type 0} → Option A → Result A
or_refuse none = err runtime_error
or_refuse (some x) = ok x

-- isinstance(release, dict), isinstance(v, str)
abbrev pub entry_of : Value → Result Fields
entry_of (obj fs) = ok fs
entry_of _ = err runtime_error

abbrev pub str_of : Option Value → Result String
str_of (some (str s)) = ok s
str_of _ = err runtime_error

-- a list that is not empty
abbrev pub entries_of : Option Value → Result Items
entries_of (some (arr (cons v vs))) = ok (cons v vs)
entries_of _ = err runtime_error

abbrev pub last_version : Release → List Release → String
last_version r [] = r.version
last_version r (q ∷ qs) = last_version q qs

-- the next release keeps the first two numbers and adds one to the third
abbrev pub follows : ℕ × ℕ × ℕ → ℕ × ℕ × ℕ → Bool
follows (a, b, c) (a', b', c') = nat_eq a' a && nat_eq b' b && nat_eq c' (c + 1)

module _ (lib : VersionLibrary) where
  open lib use {strip, parts_of}

  unfoldable pub version_parts : String → Result (ℕ × ℕ × ℕ)
  version_parts version = or_refuse (parts_of version)

  -- one of the fields date, title and summary
  unfoldable pub filled_text : Fields → String → Result String
  filled_text release field = do
    s ← str_of (get_field field release)
    fail_if (strip s == "") runtime_error
    ok s

  unfoldable pub normalize_entry : Value → List String → Result Release
  normalize_entry v seen = do
    release ← entry_of v
    version ← str_of (get_field "version" release)
    version_parts version >>= λ parts. fail_if (member version seen) runtime_error
    date ← filled_text release "date"
    title ← filled_text release "title"
    summary ← filled_text release "summary"
    ok (record { version = version; date = date; title = title; summary = summary })

  -- the loop over the entries
  unfoldable pub normalize : Items → List String → Result (List Release)
  normalize nil seen = ok []
  normalize (cons v vs) seen = do
    r ← normalize_entry v seen
    rest ← normalize vs (r.version ∷ seen)
    ok (r ∷ rest)

  -- the loop over the pairs of neighbours
  unfoldable pub check_steps : Release → List Release → Result (Unit {0})
  check_steps r [] = ok tt
  check_steps r (q ∷ qs) = do
    previous_parts ← version_parts r.version
    current_parts ← version_parts q.version
    fail_if (not (follows previous_parts current_parts)) runtime_error
    check_steps q qs

  abbrev pub check_catalog : Option Value → List Release → Result (List Release)
  check_catalog current [] = err runtime_error
  check_catalog current (r ∷ rs) = do
    version ← str_of current
    fail_if (not (version == last_version r rs)) runtime_error
    fail_if (not (r.version == "V0.0.1")) runtime_error
    check_steps r rs
    ok (r ∷ rs)

  unfoldable pub load_catalog : Fields → Result (List Release)
  load_catalog raw = do
    entries ← entries_of (get_field "releases" raw)
    releases ← normalize entries []
    check_catalog (get_field "current_version" raw) releases
