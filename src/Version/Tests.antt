-- ===== src/Version/Tests.antt =====
-- internal/version/version.go: runs on concrete versions, as in internal/version/version_test.go.
use mathlib.Core.Path.{◌≡◌, refl}
use mathlib.Core.Logic.{◌↔◌}
use opencom.Base.{arith, true, false, [], ◌∷◌, ◌++◌, Str, str_beq, codes}
use opencom.Version.{split_version, is_newer, compare_version, program}
use opencom.Version.Checker.{
  corrupt, undecodable, tagged, response, Round, run_version_checker, version_check, checker,
}
use opencom.Version.Polled.{Failed, Told, version_check-Polled}
use opencom.Version.Order.{Newer}
use opencom.Version.Written.{version_text, pre_release, build, is_newer-version_text}

abbrev old : Str
old = codes "0.1.2"

abbrev mid : Str
mid = codes "0.1.10"

abbrev new : Str
new = codes "0.2"

segments : split_version (codes "0.1.10-rc1") ≡ 0 ∷ 1 ∷ 10 ∷ []
unfolding program
segments = refl

-- Segments that are not numbers count as 0, so that these two tags are not told apart.
words : is_newer (codes "beta") (codes "alpha") ≡ false
unfolding program
words = refl

padded : is_newer (codes "1.0.0") (codes "1") ≡ false
unfolding program
padded = refl

mid_newer : is_newer mid old ≡ true
unfolding program
mid_newer = refl

upgrade :
    (compare_version
      (codes "v0.1.2")
      (record { latest = mid; fetched_at = 3; repo = [] })).upgrade_available
    ≡ true
unfolding program str_beq
upgrade = refl

dev_build :
    (compare_version
      (codes "dev")
      (record { latest = mid; fetched_at = 3; repo = [] })).upgrade_available
    ≡ false
unfolding program str_beq
dev_build = refl

is_newer-version_text_example :
    (is_newer
        (version_text 0 (1 ∷ 10 ∷ []) (pre_release (codes "rc1")))
        (version_text 0 (1 ∷ 2 ∷ []) (build (codes "7")))
      ≡ true)
    ↔ Newer (0 ∷ 1 ∷ 10 ∷ []) (0 ∷ 1 ∷ 2 ∷ [])
is_newer-version_text_example =
    is_newer-version_text 0 0 (1 ∷ 10 ∷ []) (1 ∷ 2 ∷ []) (pre_release (codes "rc1"))
      (build (codes "7")) (omega arith) (omega arith)

abbrev found_old : Round
found_old = record { reply = response 200 (tagged (codes "v0.1.9")); now = 3; write_ok = true }

abbrev found_new : Round
found_new = record { reply = response 200 (tagged (codes "v0.1.10")); now = 6; write_ok = true }

abbrev limited : Round
limited = record { reply = response 403 undecodable; now = 9; write_ok = true }

limited-Failed : Failed limited
limited-Failed tag f = absurd (refused f.answer)
  where
    refused : ¬ (response 403 undecodable ≡ response 200 (tagged tag))
    refused h = cc

told_of_upgrade :
    (version_check
      (codes "0.1.2")
      (run_version_checker [] (found_old ∷ found_new ∷ limited ∷ []) corrupt)).upgrade_available
    ≡ true
unfolding program checker str_beq
told_of_upgrade = refl

version_check-Polled_example : Told (codes "0.1.2") (codes "v0.1.10") found_new (
    version_check
      (codes "0.1.2")
      (run_version_checker [] ((found_old ∷ []) ++ found_new ∷ limited ∷ []) corrupt))
version_check-Polled_example =
    version_check-Polled [] (codes "0.1.2") (codes "v0.1.10") (found_old ∷ []) (limited ∷ [])
      found_new corrupt (record { answer = refl; written = refl }) (limited-Failed, tt)
