-- ===== src/Warnings/Dismissed.antt =====
-- What `dismiss` and `restore` (gtasks/warnings.py) do to the set that the next call reads.
use gtasks.Prelude.{
  ◌≡◌, refl, ap, ◌∙◌, subst, arith, inl, inr, String, Bool, true, false, not, ◌&&◌, ◌||◌, Option,
  some, List, [], ◌∷◌, ◌==◌, ==_refl, eq_iff, if◌then◌else◌, Bool-cases,
}
use gtasks.Prelude.Exec.{Result, ok, err, runtime_error}
use gtasks.Prelude.Checked.{fail_if, >>=-eq-ok}
use gtasks.Prelude.Tables.{delete_rows}
use gtasks.Prelude.Sets.{member, add}
use gtasks.EventQueue.Json.{Value, Fields, Items, str, arr, obj, nil, cons, get_field}
use gtasks.EventQueue.Memory.{frozen}
use gtasks.EventQueue.Gbrain.QuotaPage.{is_text}
use gtasks.Domain.Metrics.{with_item, items_of}
use gtasks.Warnings.Content.{
  WarningLibrary, File, missing, decoded, is_long, is_fingerprint, fingerprints_in, fingerprints_of,
  is_one, dismissed_in, read_unlocked, payload,
}
use gtasks.Warnings.{dismiss, restore, dismissed, write_unlocked}

abbrev pub all_long : List String → Bool
all_long [] = true
all_long (s ∷ ss) = is_long s && all_long ss

-- `sorted` keeps the members, and so the lengths
pub record SortLaws (lib : WarningLibrary) : Type 0 where
  pub same_members : (a : String) (ss : List String) → member a (lib.sorted ss) ≡ member a ss
  pub same_lengths : (ss : List String) → all_long (lib.sorted ss) ≡ all_long ss

member-frozen : (a : String) (ss : List String) → member a (frozen ss) ≡ member a ss
member-frozen a [] = refl
member-frozen a (s ∷ ss) = elim (Bool-cases (member s (frozen ss))) [
  | inl old ↦ ground (arith, eq_iff s a, member-frozen a ss)
  | inr new ↦ rw (new, member-frozen a ss) refl
]

member-adds : (a b : String) (ss : List String) → member b (add a ss) ≡ ((a == b) || member b ss)
member-adds a b ss = ground (arith, eq_iff a b)

member-deletes :
    (a b : String) (ss : List String)
    → member b (delete_rows (λ x. x == a) ss) ≡ (not (a == b) && member b ss)
member-deletes a b [] = ground arith
member-deletes a b (s ∷ ss) =
    ground (arith, eq_iff s a, eq_iff s b, eq_iff a b, member-deletes a b ss)

all_long-frozen : (ss : List String) → all_long ss ≡ true → all_long (frozen ss) ≡ true
all_long-frozen [] h = refl
all_long-frozen (s ∷ ss) h = ground (arith, all_long-frozen ss)

all_long-deletes :
    (a : String) (ss : List String)
    → all_long ss ≡ true
    → all_long (delete_rows (λ x. x == a) ss) ≡ true
all_long-deletes a [] h = refl
all_long-deletes a (s ∷ ss) h = ground (arith, all_long-deletes a ss)

long_item :
    (s : String) (r : Result (List String)) (ss : List String)
    → (if is_long s then with_item s r else err runtime_error) ≡ ok ss
    → (rest : List String) × (r ≡ ok rest) × (is_long s ≡ true) × (ss ≡ s ∷ rest)
long_item s (ok rest) ss h = (rest, refl, ground arith, ground arith)
long_item s (err e) ss h = absurd (ground arith)

fingerprints_in-long :
    (vs : Items) (ss : List String) → fingerprints_in vs ≡ ok ss → all_long ss ≡ true
fingerprints_in-long nil ss h = let e : ss ≡ [] = ground arith in rw e refl
fingerprints_in-long (cons (str s) vs) ss h =
    let (rest, e, long, same) = long_item s (fingerprints_in vs) ss h in
    rw same (ground (arith, fingerprints_in-long vs rest e))
fingerprints_in-long (cons v vs) ss h = absurd (ground arith)

fingerprints_in-items :
    (ss : List String) → all_long ss ≡ true → fingerprints_in (items_of ss) ≡ ok ss
fingerprints_in-items [] h = refl
fingerprints_in-items (s ∷ ss) h = rw (fingerprints_in-items ss (ground arith)) (ground arith)

module _ (lib : WarningLibrary) (laws : SortLaws lib) where
  read-written :
      (user : String) (ss : List String)
      → all_long ss ≡ true
      → read_unlocked lib user (decoded (obj (payload lib user ss))) ≡ ok (frozen (lib.sorted ss))
  unfolding read_unlocked payload get_field
  read-written user ss h =
      rw (fingerprints_in-items (lib.sorted ss) (laws.same_lengths ss ∙ h), ==_refl user) refl

  abbrev OkLong : Result (List String) → Type 0
  OkLong (ok ss) = all_long ss ≡ true
  OkLong (err e) = Unit

  found-long :
      (v : Option Value) (ss : List String) → fingerprints_of v ≡ ok ss → all_long ss ≡ true
  found-long (some (arr vs)) ss h = fingerprints_in-long vs ss h
  found-long v ss h = absurd (ground arith)

  dismissed_in-long :
      (user : String) (raw : Fields) (ss : List String)
      → dismissed_in lib user raw ≡ ok ss
      → all_long ss ≡ true
  dismissed_in-long user raw ss h =
      let (u, e1, h1) =
        >>=-eq-ok (fail_if (not (is_one lib (get_field "version" raw))) runtime_error) _ h in
      let (u', e2, h2) =
        >>=-eq-ok (fail_if (not (is_text user (get_field "user" raw))) runtime_error) _ h1 in
      let (found, e3, h3) =
        >>=-eq-ok (fingerprints_of (get_field "dismissed_fingerprints" raw)) _ h2 in
      subst OkLong h3
        (all_long-frozen found (found-long (get_field "dismissed_fingerprints" raw) found e3))

  read-long :
      (user : String) (file : File) (ss : List String)
      → read_unlocked lib user file ≡ ok ss
      → all_long ss ≡ true
  unfolding read_unlocked
  read-long user missing ss h = let e : ss ≡ [] = ground arith in rw e refl
  read-long user (decoded (obj raw)) ss h = dismissed_in-long user raw ss h
  read-long user file ss h = absurd (ground arith)

  -- the members that the next call reads after a write
  written-member :
      (user : String) (ss : List String) (g : String)
      → member g (frozen (lib.sorted ss)) ≡ member g ss
  written-member user ss g = member-frozen g (lib.sorted ss) ∙ laws.same_members g ss

  -- Where the file can be read and the write succeeds, `dismiss` and `restore` of a fingerprint return true, and
  -- the file can be read again: it then has that fingerprint, or has it no more, and every other one as before.
  pub dismiss-restore :
      (user fingerprint : String) (file : File) (before : List String)
      → is_fingerprint fingerprint ≡ true
      → read_unlocked lib user file ≡ ok before
      → (((dismiss lib user fingerprint (ok tt) file).0 ≡ ok true)
          × ((after : List String) × (read_unlocked lib user
                  (dismiss lib user fingerprint (ok tt) file).1
                ≡ ok after)
              × ((g : String) → member g after ≡ ((fingerprint == g) || member g before))))
        × (((restore lib user fingerprint (ok tt) file).0 ≡ ok true)
            × ((after : List String) × (read_unlocked lib user
                    (restore lib user fingerprint (ok tt) file).1
                  ≡ ok after)
                × ((g : String) → member g after ≡ (not (fingerprint == g) && member g before))))
  unfolding dismiss restore dismissed write_unlocked
  dismiss-restore user fingerprint file before valid read =
      let long : all_long before ≡ true = read-long user file before read in
      let added : List String = add fingerprint before in
      let left : List String = delete_rows (λ x. x == fingerprint) before in
      let added_read = read-written user added (ground arith) in
      let left_read = read-written user left (all_long-deletes fingerprint before long) in
      let kept = λ (g : String). written-member user added g ∙ member-adds fingerprint g before in
      let gone = λ (g : String). written-member user left g ∙ member-deletes fingerprint g before in
      let absent : member fingerprint (frozen (lib.sorted left)) ≡ false =
        gone fingerprint ∙ ground (arith, ==_refl fingerprint) in
      (
        (
          rw (valid, read, added_read)
              (ap ok (kept fingerprint ∙ ground (arith, ==_refl fingerprint))),
          (frozen (lib.sorted added), rw (valid, read, added_read) added_read, kept),
        ),
        (
          rw (valid, read, left_read) (ap (λ b. ok (not b)) absent),
          (frozen (lib.sorted left), rw (valid, read, left_read) left_read, gone),
        ),
      )
