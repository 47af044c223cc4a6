-- ===== src/Base/Query.antt =====
-- net/url: QueryEscape and QueryUnescape, Values.Encode, ParseQuery and Values.Get. A url.Values is the
-- list of its pairs in the order of the query; the keys that are set are all different.
pub mod RoundTrip
use Prim.Native.Nat.{ℕ, ◌+◌, ◌-◌, ◌*◌, ◌/◌, ◌%◌}
use mathlib.Core.Bool.{Bool, true, false, ◌&&◌, ◌||◌}
use mathlib.Core.Option
use mathlib.Core.Option.{Option, none, some}
use mathlib.Core.List.{List, [], ◌∷◌, ◌++◌, map}
use opencom.Base.Tests.{Str, if◌then◌else◌, ltb, leb, ◌==◌, nat_eq, str_eq}
use opencom.Base.Text.{join, split, cut}

abbrev pub Values : Type 0
Values = List (Str × Str)

unfoldable pub unreserved : ℕ → Bool
unreserved c =
    (leb b'a' c && leb c b'z')
    || (leb b'A' c && leb c b'Z')
    || (leb b'0' c && leb c b'9')
    || c == b'-'
    || c == b'_'
    || c == b'.'
    || c == b'~'

abbrev pub hex_digit : ℕ → ℕ
hex_digit n = if ltb n 10 then n + b'0' else n + 55

unfoldable pub escape_byte : ℕ → Str
escape_byte c =
    if unreserved c
    then c ∷ []
    else (if c == b' ' then b'+' ∷ [] else b'%' ∷ hex_digit (c / 16) ∷ hex_digit (c % 16) ∷ [])

unfoldable pub escape : Str → Str
escape [] = []
escape (c ∷ s) = escape_byte c ++ escape s

unfoldable pub unhex : ℕ → Option ℕ
unhex c =
    if leb b'0' c && leb c b'9'
    then some (c - b'0')
    else (if leb b'a' c && leb c b'f'
        then some (c - 87)
        else (if leb b'A' c && leb c b'F' then some (c - 55) else none))

-- Where the reader stands: at a character, behind a '%', or behind its first digit.
pub data Place : Type 0 where
  plain percent : Place
  half : ℕ → Place

unfoldable pub first_half : Option ℕ → Option (Str × Place)
first_half none = none
first_half (some hi) = some ([], half hi)

unfoldable pub second_half : ℕ → Option ℕ → Option (Str × Place)
second_half hi none = none
second_half hi (some lo) = some ((hi * 16 + lo) ∷ [], plain)

unfoldable pub read_byte : Place → ℕ → Option (Str × Place)
read_byte plain c =
    if c == b'%' then some ([], percent) else some ((if c == b'+' then b' ' else c) ∷ [], plain)
read_byte percent c = first_half (unhex c)
read_byte (half hi) c = second_half hi (unhex c)

unfoldable pub put_before : Str → Option Str → Option Str
put_before s none = none
put_before s (some t) = some (s ++ t)

unfoldable pub unescape_from : Place → Str → Option Str
unescape_from plain [] = some []
unescape_from percent [] = none
unescape_from (half hi) [] = none
unescape_from place (c ∷ s) = elim (read_byte place c) [
  | none ↦ none
  | some r ↦ put_before r.0 (unescape_from r.1 s)
]

-- `none` is an EscapeError.
unfoldable pub unescape : Str → Option Str
unescape s = unescape_from plain s

unfoldable pub encode_pair : Str × Str → Str
encode_pair pair = escape pair.0 ++ b'=' ∷ escape pair.1

-- `Encode` of values in the order of their keys.
unfoldable pub encode_values : Values → Str
encode_values values = join b'&' (map encode_pair values)

unfoldable pub has_byte : ℕ → Str → Bool
has_byte b [] = false
has_byte b (c ∷ s) = c == b || has_byte b s

unfoldable pub pair_of : Option Str → Option Str → Option (Str × Str)
pair_of (some k) (some v) = some (k, v)
pair_of _ _ = none

unfoldable pub parse_pair : Str → Option (Str × Str)
parse_pair segment =
    let (k, v) = cut b'=' segment in
    let pair = pair_of (unescape k) (unescape v) in if has_byte b';' segment then none else pair

unfoldable pub add_pair : Option (Str × Str) → Option Values → Option Values
add_pair (some pair) (some values) = some (pair ∷ values)
add_pair _ _ = none

abbrev pub is_empty : Str → Bool
is_empty [] = true
is_empty (c ∷ s) = false

unfoldable pub parse_segments : List Str → Option Values
parse_segments [] = some []
parse_segments (segment ∷ segments) =
    let rest = parse_segments segments in
    if is_empty segment then rest else add_pair (parse_pair segment) rest

-- `ParseQuery`; `none` is an error.
unfoldable pub parse_query : Str → Option Values
parse_query s = parse_segments (split b'&' s)

-- `Get`: the first value, and "" without one.
unfoldable pub get_value : Str → Values → Str
get_value key [] = []
get_value key (pair ∷ values) = if pair.0 == key then pair.1 else get_value key values

unfoldable pub program : Unit {0}
unfolding unreserved escape_byte escape unhex first_half second_half read_byte put_before
    unescape_from unescape encode_pair encode_values has_byte pair_of parse_pair add_pair
    parse_segments parse_query get_value
program = tt
