-- ===== src/Warnings/Tests.antt =====
-- Runs of `WarningDismissalStore` (gtasks/warnings.py).
use gtasks.Prelude.{◌≡◌, refl, String, true, not, ◌&&◌, ◌||◌, List, [], ◌==◌}
use gtasks.Prelude.Exec.{ok}
use gtasks.Prelude.Sets.{member}
use gtasks.Warnings.Content.{WarningLibrary, missing, read_unlocked, all_hex, is_fingerprint}
use gtasks.Warnings.Dismissed.{SortLaws, dismiss-restore}
use gtasks.Warnings.{dismiss, restore}

-- one fingerprint at most is written, so that the order does not matter
abbrev library : WarningLibrary
library = record {
  sorted = λ ss. ss;
  float_is_one = λ s. s == "1.0";
  warning_fingerprint = λ issue. first;
}
  where
    first : String
    first = "0000000000000000000000000000000000000000000000000000000000000000"

abbrev fingerprint : String
fingerprint = "0123456789abcdef0123456789abcdef0123456789abcdef0123456789abcdef"

laws : SortLaws library
laws = record { same_members = λ a ss. refl; same_lengths = λ ss. refl }

valid : is_fingerprint fingerprint ≡ true
unfolding all_hex
valid = refl

dismiss-restore_example :
    (((dismiss library "tony" fingerprint (ok tt) missing).0 ≡ ok true)
      × ((after : List String) × (read_unlocked library "tony"
              (dismiss library "tony" fingerprint (ok tt) missing).1
            ≡ ok after)
          × ((g : String) → member g after ≡ ((fingerprint == g) || member g []))))
    × (((restore library "tony" fingerprint (ok tt) missing).0 ≡ ok true)
        × ((after : List String) × (read_unlocked library "tony"
                (restore library "tony" fingerprint (ok tt) missing).1
              ≡ ok after)
            × ((g : String) → member g after ≡ (not (fingerprint == g) && member g []))))
unfolding read_unlocked
dismiss-restore_example = dismiss-restore library laws "tony" fingerprint missing [] valid refl
