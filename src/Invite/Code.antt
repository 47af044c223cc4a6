-- ===== src/Invite/Code.antt =====
-- internal/invite/code.go: invite codes. A string is the list of its runes (valid UTF-8); the
-- upper case of a rune above ASCII is Go's Unicode table, the parameter `wide`.
pub mod Alphabet
pub mod Generate
pub mod Parse
mod Tests
use opencom.Base.{
  ℕ, zero, suc, ◌+◌, ◌-◌, ◌*◌, ◌/◌, ◌%◌, ◌^◌, Bool, true, false, not, ◌&&◌, ◌||◌, Option, none,
  some, List, [], ◌∷◌, ◌++◌, map, codes, if◌then◌else◌, ltb, leb, ◌==◌, nat_eq, length, take, drop,
  get_elem?, is_space,
}

abbrev pub Runes : Type 0
Runes = List ℕ

-- A code is its characters.
abbrev pub Code : Type 0
Code = List ℕ

abbrev pub code_length : ℕ
code_length = 8

abbrev pub crockford_alphabet : List ℕ
crockford_alphabet = codes "0123456789ABCDEFGHJKMNPQRSTVWXYZ"

pub data ParseError : Type 0 where
  bad_length : ℕ → ParseError
  has_u : ParseError
  bad_character : ℕ → ParseError

pub data Result : Type 0 where
  ok : Code → Result
  err : ParseError → Result

-- crockfordAlphabet[idx]; the index is below 32.
abbrev pub or_zero : Option ℕ → ℕ
or_zero none = 0
or_zero (some c) = c

-- `Generate` from the five random bytes.
unfoldable pub random_bits : ℕ → ℕ → ℕ → ℕ → ℕ → ℕ
random_bits b0 b1 b2 b3 b4 = b0 * 2 ^ 32 + b1 * 2 ^ 24 + b2 * 2 ^ 16 + b3 * 2 ^ 8 + b4

-- The character at place i: bits >> (35 - 5 * i) & 0x1f.
unfoldable pub code_char : ℕ → ℕ → ℕ
code_char bits i = or_zero (get_elem? crockford_alphabet (bits / 2 ^ (35 - 5 * i) % 32))

unfoldable pub generate : ℕ → ℕ → ℕ → ℕ → ℕ → Code
unfolding code_char random_bits
generate b0 b1 b2 b3 b4 =
    let bits = random_bits b0 b1 b2 b3 b4 in
    map (code_char bits) (0 ∷ 1 ∷ 2 ∷ 3 ∷ 4 ∷ 5 ∷ 6 ∷ 7 ∷ [])

unfoldable pub trim_left : Runes → Runes
trim_left [] = []
trim_left (r ∷ s) = let rest = trim_left s in if is_space r then rest else r ∷ s

-- A rune goes from the right if it is a space and all behind it went.
unfoldable pub trim_right : Runes → Runes
trim_right [] = []
trim_right (r ∷ s) = elim (trim_right s) [
  | [] ↦ if is_space r then [] else r ∷ []
  | ◌∷◌ q t ↦ r ∷ q ∷ t
]

-- strings.TrimSpace.
unfoldable pub trim_space : Runes → Runes
trim_space s = trim_right (trim_left s)

unfoldable pub trim_prefix : Runes → Runes → Runes → Runes
trim_prefix whole [] s = s
trim_prefix whole (p ∷ ps) [] = whole
trim_prefix whole (p ∷ ps) (r ∷ s) =
    let rest = trim_prefix whole ps s in if r == p then rest else whole

-- strings.ReplaceAll(s, "-", "").
unfoldable pub drop_dashes : Runes → Runes
drop_dashes [] = []
drop_dashes (r ∷ s) = let rest = drop_dashes s in if r == b'-' then rest else r ∷ rest

abbrev pub utf8_len : ℕ → ℕ
utf8_len r = if ltb r 128 then 1 else (if ltb r 2048 then 2 else (if ltb r 65536 then 3 else 4))

-- len(s), in bytes.
unfoldable pub byte_len : Runes → ℕ
byte_len [] = 0
byte_len (r ∷ s) = utf8_len r + byte_len s

unfoldable pub contains_rune : List ℕ → ℕ → Bool
contains_rune [] r = false
contains_rune (c ∷ l) r = c == r || contains_rune l r

-- The `switch` of the loop, for runes other than U.
abbrev pub alias : ℕ → ℕ
alias r = if r == b'O' then b'0' else (if r == b'I' || r == b'L' then b'1' else r)

abbrev pub cons_code : ℕ → Result → Result
cons_code r (ok c) = ok (r ∷ c)
cons_code r (err e) = err e

-- The loop of `Parse`. What it accepts is ASCII, so that the byte index counts the characters.
unfoldable pub parse_runes : Runes → Result
parse_runes [] = ok []
parse_runes (r ∷ s) =
    let rest = cons_code (alias r) (parse_runes s) in
    if r == b'U'
    then err has_u
    else (if not (contains_rune crockford_alphabet (alias r))
        then err (bad_character (alias r))
        else rest)

unfoldable pub to_upper : (ℕ → ℕ) → ℕ → ℕ
to_upper wide r = if leb b'a' r && leb r b'z' then r - 32 else (if ltb r 128 then r else wide r)

-- `Parse` after trimming and upper case.
unfoldable pub parse_upper : Runes → Result
parse_upper u =
    let s = drop_dashes (trim_prefix u (codes "OPEN-") u) in
    let n = byte_len s in
    let r = parse_runes s in if not (n == code_length) then err (bad_length n) else r

unfoldable pub parse : (ℕ → ℕ) → Runes → Result
parse wide input = parse_upper (map (to_upper wide) (trim_space input))

-- `Code.Pretty`.
unfoldable pub pretty : Code → Runes
pretty c =
    if not (length c == code_length) then c else codes "OPEN-" ++ (take 4 c ++ (b'-' ∷ drop 4 c))

unfoldable pub program : Unit {0}
unfolding generate is_space trim_left trim_right trim_space trim_prefix drop_dashes byte_len
    contains_rune parse_runes to_upper parse_upper parse pretty
program = tt
