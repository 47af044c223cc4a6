-- ===== src/Invite/Code/Tests.antt =====
-- internal/invite/code.go: runs on concrete codes, as in internal/invite/code_test.go.
use mathlib.Core.Path.{◌≡◌, refl}
use opencom.Base.{ℕ, ◌∷◌, [], List, codes}
use opencom.Invite.Code.{Code, ok, err, bad_length, has_u, parse, pretty, program}
use opencom.Invite.Code.Alphabet.{IsCode}
use opencom.Invite.Code.Parse.{parse-pretty, parse-IsCode}

abbrev wide : ℕ → ℕ
wide r = r

abbrev sample : Code
sample = codes "A7B2X9K4"

sample-IsCode : IsCode sample
unfolding program
sample-IsCode = parse-IsCode wide (codes " open-a7b2-x9k4 ") sample refl

parse_forms : parse wide (codes "A7B2X9K4") ≡ ok sample
unfolding program
parse_forms = refl

parse_aliases : parse wide (codes "oil0-1234") ≡ ok (codes "01101234")
unfolding program
parse_aliases = refl

parse_short : parse wide (codes "OPEN-A7B2") ≡ err (bad_length 4)
unfolding program
parse_short = refl

parse_u : parse wide (codes "A7B2-X9KU") ≡ err has_u
unfolding program
parse_u = refl

pretty-sample : pretty sample ≡ codes "OPEN-A7B2-X9K4"
unfolding program
pretty-sample = refl

parse-pretty_example : parse wide (pretty sample) ≡ ok sample
parse-pretty_example = parse-pretty wide sample sample-IsCode

abbrev drawn : List ℕ
drawn = 1 ∷ 2 ∷ 3 ∷ 4 ∷ 255 ∷ []
