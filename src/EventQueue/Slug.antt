-- ===== src/EventQueue/Slug.antt =====
-- `application_slug` (gtasks/event_queue/handler.py): the page of an application, named by its job board
-- and job id. The Unicode tables behind `str.strip` and `str.lower`, and SHA-256, are parameters.
use Prim.Native.Char.{Char, code}
use Prim.Native.String
use gtasks.Prelude.{ℕ, String, Bool, false, not, ◌&&◌, ◌||◌, ◌==◌, leb, nat_eq, if◌then◌else◌}

pub record TextLibrary : Type 0 where
  pub strip : String → String
  pub lower : String → String
  pub sha256_hex : String → String

infixr 65 ◌+++◌
abbrev pub ◌+++◌ : String → String → String
s +++ t = String.◌++◌ s t

-- the class [a-z0-9]
abbrev pub is_slug_char : Char → Bool
is_slug_char c =
    (leb b'a' (code c) && leb (code c) b'z') || (leb b'0' (code c) && leb (code c) b'9')

abbrev pub is_dash : Char → Bool
is_dash c = nat_eq (code c) b'-'

-- re.sub(r"[^a-z0-9]+", "-", s); the flag says that the previous character was replaced
unfoldable pub sub_dashes : Bool → String → String
sub_dashes gap String.[] = String.[]
sub_dashes gap (String.◌∷◌ c s) =
    let rest = sub_dashes (not (is_slug_char c)) s in
    if is_slug_char c then String.◌∷◌ c rest else if gap then rest else String.◌∷◌ "-" rest

-- s.lstrip("-"), s.rstrip("-")
unfoldable pub lstrip_dashes : String → String
lstrip_dashes String.[] = String.[]
lstrip_dashes (String.◌∷◌ c s) =
    let rest = lstrip_dashes s in if is_dash c then rest else String.◌∷◌ c s

unfoldable pub rstrip_dashes : String → String
rstrip_dashes String.[] = String.[]
rstrip_dashes (String.◌∷◌ c s) =
    let rest = rstrip_dashes s in
    if is_dash c && (rest == String.[]) then String.[] else String.◌∷◌ c rest

unfoldable pub dashed : String → String
unfolding sub_dashes lstrip_dashes rstrip_dashes
dashed s = rstrip_dashes (lstrip_dashes (sub_dashes false s))

-- `s[:n]`
unfoldable pub prefix : ℕ → String → String
prefix ℕ.zero s = String.[]
prefix (ℕ.suc n) String.[] = String.[]
prefix (ℕ.suc n) (String.◌∷◌ c s) = String.◌∷◌ c (prefix n s)

-- `text or fallback`
abbrev pub or_else : String → String → String
or_else text fallback = if text == String.[] then fallback else text

-- the separator "\0" in the digest's input
abbrev pub nul : String
nul = "\0"

module _ (lib : TextLibrary) where
  open lib use {strip, lower, sha256_hex}

  unfoldable pub application_slug : String → String → String
  unfolding dashed prefix
  application_slug job_source job_id =
      let source = or_else (prefix 48 (dashed (lower (strip job_source)))) "source" in
      let identifier = or_else (prefix 72 (dashed (lower (strip job_id)))) "job" in
      let digest =
        prefix 12 (sha256_hex (lower (strip job_source) +++ nul +++ lower (strip job_id))) in
      "applications/" +++ source +++ "-" +++ identifier +++ "-" +++ digest
