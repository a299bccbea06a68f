-- ===== src/Warnings/Content.antt =====
-- gtasks/warnings.py: the content of the file of dismissed warnings.
use Prim.Native.Char.{Char, code}
use Prim.Native.String.{count}
use gtasks.Prelude.{
  String, Bool, true, false, not, ◌&&◌, ◌||◌, Option, some, List, [], leb, nat_eq, if◌then◌else◌,
}
use gtasks.Prelude.Exec.{Result, ok, err, runtime_error}
use gtasks.Prelude.Checked.{◌>>=◌, ◌>>◌, fail_if}
use gtasks.EventQueue.Store.{pos}
use gtasks.EventQueue.Json.{
  Value, Fields, Items, bool, int, float, str, arr, obj, nil, cons, field, end, get_field,
}
use gtasks.EventQueue.Memory.{frozen}
use gtasks.EventQueue.Gbrain.QuotaPage.{is_text}
use gtasks.Domain.Metrics.{with_item, items_of}

-- `sorted` on texts, whether a float of JSON equals 1, and the SHA-256 digest of the canonical JSON text of the
-- object that `warning_fingerprint` makes of an issue
pub record WarningLibrary : Type 0 where
  pub sorted : List String → List String
  pub float_is_one : String → Bool
  pub warning_fingerprint : Fields → String

-- what reading the file gives: no file, OSError or JSONDecodeError, or the decoded JSON
pub data File : Type 0 where
  missing unreadable : File
  decoded : Value → File

abbrev pub is_long : String → Bool
is_long s = nat_eq (count s) 64

-- a list of texts of length 64
abbrev pub fingerprints_in : Items → Result (List String)
fingerprints_in nil = ok []
fingerprints_in (cons (str s) vs) =
    let rest = fingerprints_in vs in if is_long s then with_item s rest else err runtime_error
fingerprints_in (cons _ vs) = err runtime_error

abbrev pub fingerprints_of : Option Value → Result (List String)
fingerprints_of (some (arr vs)) = fingerprints_in vs
fingerprints_of _ = err runtime_error

abbrev is_hex : Char → Bool
is_hex c = (leb b'0' (code c) && leb (code c) b'9') || (leb b'a' (code c) && leb (code c) b'f')

unfoldable pub all_hex : String → Bool
all_hex String.[] = true
all_hex (String.◌∷◌ c s) = is_hex c && all_hex s

-- `_validate_fingerprint`, as the condition that it asks for
abbrev pub is_fingerprint : String → Bool
is_fingerprint s = is_long s && all_hex s

module _ (lib : WarningLibrary) where
  open lib use {sorted, float_is_one}

  -- `value == 1`, which True and 1.0 are too
  abbrev pub is_one : Option Value → Bool
  is_one (some (int (pos n))) = nat_eq n 1
  is_one (some (bool b)) = b
  is_one (some (float s)) = float_is_one s
  is_one _ = false

  abbrev pub dismissed_in : String → Fields → Result (List String)
  dismissed_in user raw = do
    fail_if (not (is_one (get_field "version" raw))) runtime_error
    fail_if (not (is_text user (get_field "user" raw))) runtime_error
    fingerprints ← fingerprints_of (get_field "dismissed_fingerprints" raw)
    ok (frozen fingerprints)

  -- `_read_unlocked`
  unfoldable pub read_unlocked : String → File → Result (List String)
  read_unlocked user missing = ok []
  read_unlocked user (decoded (obj raw)) = dismissed_in user raw
  read_unlocked user _ = err runtime_error

  unfoldable pub payload : String → List String → Fields
  payload user fingerprints = field "version" (int (pos 1)) (
      field "user" (str user)
        (field "dismissed_fingerprints" (arr (items_of (sorted fingerprints))) end))
