-- ===== src/Releases/Numbering.antt =====
-- How the releases of a catalog that `_load_catalog` (gtasks/releases.py) accepts are numbered.
use gtasks.Prelude.{ℕ, ◌+◌, ◌≡◌, arith, eq_iff, not, Option, List, [], ◌∷◌, ◌==◌, subst, ap, ◌∙◌}
use gtasks.Prelude.Exec.{Result, ok, err, runtime_error}
use gtasks.Prelude.Checked.{fail_if, >>=-eq-ok}
use gtasks.EventQueue.Json.{Value, Fields, get_field}
use gtasks.Releases.{
  VersionLibrary, Release, follows, version_parts, check_steps, check_catalog, normalize,
  load_catalog, entries_of, str_of, last_version,
}

module _ (lib : VersionLibrary) where
  -- the versions are 0.0.n, 0.0.n+1, and so on
  abbrev pub Numbered : ℕ → List Release → Type 0
  Numbered n [] = Unit
  Numbered n (r ∷ rs) = (version_parts lib r.version ≡ ok (0, 0, n)) × Numbered (n + 1) rs

  next_parts :
      (n : ℕ) (p c : ℕ × ℕ × ℕ) (v w : Result (ℕ × ℕ × ℕ)) {u : Unit {0}}
      → v ≡ ok (0, 0, n)
      → v ≡ ok p
      → fail_if (not (follows p c)) runtime_error ≡ ok u
      → w ≡ ok c
      → w ≡ ok (0, 0, n + 1)
  next_parts n (a, b, d) (a', b', d') v w f e step e' = ground arith

  steps-Numbered :
      (n : ℕ) (r : Release) (rs : List Release) {a : Unit {0}}
      → version_parts lib r.version ≡ ok (0, 0, n)
      → check_steps lib r rs ≡ ok a
      → Numbered n (r ∷ rs)
  unfolding check_steps
  steps-Numbered n r [] first h = (first, tt)
  steps-Numbered n r (q ∷ qs) first h =
      let (p, e1, h1) = >>=-eq-ok (version_parts lib r.version) _ h in
      let (c, e2, h2) = >>=-eq-ok (version_parts lib q.version) _ h1 in
      let (u, e3, h3) = >>=-eq-ok (fail_if (not (follows p c)) runtime_error) _ h2 in
      (
        first,
        steps-Numbered (n + 1) q qs
            (next_parts n p c (version_parts lib r.version) (version_parts lib q.version) first e1
              e3 e2)
            h3,
      )

  abbrev NumberedIn : Result (List Release) → Type 0
  NumberedIn (ok rs) = Numbered 1 rs
  NumberedIn (err e) = Unit

  -- The releases of an accepted catalog, in their order, have the versions 0.0.1, 0.0.2 and so on without a
  -- gap, where the text "V0.0.1" stands for the first of them.
  pub load_catalog-Numbered :
      (raw : Fields) (rs : List Release)
      → version_parts lib "V0.0.1" ≡ ok (0, 0, 1)
      → load_catalog lib raw ≡ ok rs
      → Numbered 1 rs
  unfolding load_catalog
  load_catalog-Numbered raw rs base h =
      let (entries, e1, h1) = >>=-eq-ok (entries_of (get_field "releases" raw)) _ h in
      let (releases, e2, h2) = >>=-eq-ok (normalize lib entries []) _ h1 in
      catalog-Numbered (get_field "current_version" raw) releases rs base h2
    where
      catalog-Numbered :
          (current : Option Value) (releases rs : List Release)
          → version_parts lib "V0.0.1" ≡ ok (0, 0, 1)
          → check_catalog lib current releases ≡ ok rs
          → Numbered 1 rs
      catalog-Numbered current [] rs base h = cc
      catalog-Numbered current (q ∷ qs) rs base h =
          let (version, e1, h1) = >>=-eq-ok (str_of current) _ h in
          let (u, e2, h2) =
            >>=-eq-ok (fail_if (not (version == last_version q qs)) runtime_error) _ h1 in
          let (u', e3, h3) = >>=-eq-ok (fail_if (not (q.version == "V0.0.1")) runtime_error) _ h2 in
          let (u'', e4, h4) = >>=-eq-ok (check_steps lib q qs) _ h3 in
          let same : q.version ≡ "V0.0.1" = ground (arith, e3, eq_iff q.version "V0.0.1") in
          subst NumberedIn h4 (steps-Numbered 1 q qs (ap (version_parts lib) same ∙ base) e4)
