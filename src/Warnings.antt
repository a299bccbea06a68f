-- ===== src/Warnings.antt =====
-- gtasks/warnings.py, `WarningDismissalStore`: the fingerprints of the warnings that a user has dismissed, in a file.
-- A method holds the store's lock. The file is replaced in one step, so a write that fails leaves it as it was.
pub mod Content
pub mod Dismissed
mod Tests
use gtasks.Prelude.{String, Bool, not, List, [], ◌∷◌, ◌==◌}
use gtasks.Prelude.Exec.{Exec, Result, ok, err, value_error, pure, raise_if, ◌>>=◌, ◌>>◌}
use gtasks.Prelude.Tables.{delete_rows}
use gtasks.Prelude.Sets.{member, add}
use gtasks.EventQueue.Json.{Fields, bool, str, obj}
use gtasks.EventQueue.Gbrain.ApplicationPage.{put_field}
use gtasks.Warnings.Content.{WarningLibrary, File, decoded, is_fingerprint, read_unlocked, payload}

module _ (lib : WarningLibrary) where
  -- `_write_unlocked`; the argument says how the write ends
  unfoldable pub write_unlocked :
      String → List String → Result (Unit {0}) → File → Result (Unit {0}) × File
  write_unlocked user fingerprints (ok done) file =
      (ok tt, decoded (obj (payload lib user fingerprints)))
  write_unlocked user fingerprints (err e) file = (err e, file)

  unfoldable pub dismissed : String → Exec File (List String)
  dismissed user file = (read_unlocked lib user file, file)

  unfoldable pub dismiss : String → String → Result (Unit {0}) → Exec File Bool
  unfolding dismissed write_unlocked
  dismiss user fingerprint ends = do
    raise_if (not (is_fingerprint fingerprint)) value_error
    fingerprints ← dismissed user
    write_unlocked user (add fingerprint fingerprints) ends
    readback ← dismissed user
    pure (member fingerprint readback)

  unfoldable pub restore : String → String → Result (Unit {0}) → Exec File Bool
  unfolding dismissed write_unlocked
  restore user fingerprint ends = do
    raise_if (not (is_fingerprint fingerprint)) value_error
    fingerprints ← dismissed user
    write_unlocked user (delete_rows (λ x. x == fingerprint) fingerprints) ends
    readback ← dismissed user
    pure (not (member fingerprint readback))

  abbrev pub decorated : List String → List Fields → List Fields
  decorated known [] = []
  decorated known (issue ∷ issues) =
      let fingerprint = lib.warning_fingerprint issue in
      put_field "dismissed" (bool (member fingerprint known))
        (put_field "fingerprint" (str fingerprint) issue)
      ∷ decorated known issues

  unfoldable pub decorate : String → List Fields → Exec File (List Fields)
  unfolding dismissed
  decorate user issues = do known ← dismissed user; pure (decorated known issues)
