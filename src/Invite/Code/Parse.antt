-- ===== src/Invite/Code/Parse.antt =====
-- internal/invite/code.go: `Parse` reads back what `Generate` and `Pretty` write.
use mathlib.Core.Path.{◌≡◌, refl, sym, ◌∙◌, ap}
use opencom.Base.{
  is_space, ℕ, ◌≤◌, ◌<◌, false, not, ◌&&◌, [], ◌∷◌, ◌++◌, map, codes, if◌then◌else◌, leb, ◌==◌,
  nat_eq, length, take, drop, arith, All, All-append, All-take, All-drop, All-imp, take-append-drop,
  lt→ltb,
}
use opencom.Invite.Code.Alphabet.{InAlphabet, IsCode, Plain-of_InAlphabet, contains_rune-le}
use opencom.Invite.Code.{
  Runes, Code, crockford_alphabet, Result, ok, err, trim_left, trim_right, trim_space, trim_prefix,
  drop_dashes, byte_len, contains_rune, alias, parse_runes, to_upper, parse_upper, parse, pretty,
  cons_code, utf8_len, bad_length, has_u, bad_character,
}

-- The same of a whole string.
abbrev AllNotSpace : Runes → Type 0
AllNotSpace = All (λ r. is_space r ≡ false)

trim_left_none : (s : Runes) → AllNotSpace s → trim_left s ≡ s
unfolding trim_left
trim_left_none [] a = refl
trim_left_none (r ∷ s) a = rw a.0

trim_right_none : (s : Runes) → AllNotSpace s → trim_right s ≡ s
unfolding trim_right
trim_right_none [] a = refl
trim_right_none (r ∷ []) a = rw a.0
trim_right_none (r ∷ q ∷ s) a = rw (trim_right_none (q ∷ s) a.1)

trim_space_none : (s : Runes) → AllNotSpace s → trim_space s ≡ s
unfolding trim_space
trim_space_none s a = rw (trim_left_none s a) (trim_right_none s a)

to_upper_fixed :
    (wide : ℕ → ℕ) (s : Runes)
    → All (λ r. (r < 128) × ((leb b'a' r && leb r b'z') ≡ false)) s
    → map (to_upper wide) s ≡ s
unfolding to_upper
to_upper_fixed wide [] a = refl
to_upper_fixed wide (r ∷ s) a = rw (a.0.1, lt→ltb r 128 a.0.0, to_upper_fixed wide s a.1)

drop_dashes-append : (s t : Runes) → drop_dashes (s ++ t) ≡ drop_dashes s ++ drop_dashes t
unfolding drop_dashes
drop_dashes-append [] t = refl
drop_dashes-append (r ∷ s) t = ground (arith, drop_dashes-append s t)

drop_dashes_none : (s : Runes) → All InAlphabet s → drop_dashes s ≡ s
unfolding drop_dashes
drop_dashes_none [] a = refl
drop_dashes_none (r ∷ s) a = rw ((Plain-of_InAlphabet r a.0).not_dash, drop_dashes_none s a.1)

byte_len-InAlphabet : (s : Runes) → All InAlphabet s → byte_len s ≡ length s
unfolding byte_len
byte_len-InAlphabet [] a = refl
byte_len-InAlphabet (r ∷ s) a =
    ground (arith, (Plain-of_InAlphabet r a.0).ascii, byte_len-InAlphabet s a.1)

parse_runes-InAlphabet : (s : Runes) → All InAlphabet s → parse_runes s ≡ ok s
unfolding parse_runes
parse_runes-InAlphabet [] a = refl
parse_runes-InAlphabet (r ∷ s) a =
    let p = Plain-of_InAlphabet r a.0 in
    rw (p.not_u, p.canonical, a.0, parse_runes-InAlphabet s a.1)

-- A rune of the pretty form passes trimming and upper case unchanged.
abbrev Stable : ℕ → Type 0
Stable r = (is_space r ≡ false) × (r < 128) × ((leb b'a' r && leb r b'z') ≡ false)

Stable-of_InAlphabet : (r : ℕ) → InAlphabet r → Stable r
Stable-of_InAlphabet r h = let p = Plain-of_InAlphabet r h in (p.not_space, p.ascii, p.not_lower)

parse_upper-prefix :
    (s : Runes)
    → parse_upper (codes "OPEN-" ++ s) ≡ (
        let t = drop_dashes s in
        if not (byte_len t == 8) then err (bad_length (byte_len t)) else parse_runes t)
unfolding parse_upper trim_prefix
parse_upper-prefix s = refl

abbrev body : Code → Runes
body c = take 4 c ++ (b'-' ∷ drop 4 c)

pretty_eq : (c : Code) → length c ≡ 8 → pretty c ≡ codes "OPEN-" ++ body c
unfolding pretty
pretty_eq c h = rw h

body-Stable : (c : Code) → All InAlphabet c → All Stable (codes "OPEN-" ++ body c)
unfolding is_space
body-Stable c a =
    let whole = All-imp InAlphabet Stable c Stable-of_InAlphabet a in
    let tail : All Stable (body c) =
      All-append Stable (take 4 c) (b'-' ∷ drop 4 c) (All-take Stable 4 c whole)
        ((refl, omega arith, refl), All-drop Stable 4 c whole) in
    (
      (refl, omega arith, refl),
      (
        (refl, omega arith, refl),
        ((refl, omega arith, refl), ((refl, omega arith, refl), ((refl, omega arith, refl), tail))),
      ),
    )

drop_dashes-body : (c : Code) → All InAlphabet c → drop_dashes (body c) ≡ c
drop_dashes-body c a =
    rw
      (
        drop_dashes-append (take 4 c) (b'-' ∷ drop 4 c),
        drop_dashes_none (take 4 c) (All-take InAlphabet 4 c a),
      )
      (unfold drop_dashes in
        ap (λ t. take 4 c ++ t) (drop_dashes_none (drop 4 c) (All-drop InAlphabet 4 c a))
        ∙ take-append-drop 4 c)

parse-Stable : (wide : ℕ → ℕ) (s : Runes) → All Stable s → parse wide s ≡ parse_upper s
unfolding parse
parse-Stable wide s a = rw (
  trim_space_none s (All-imp Stable (λ r. is_space r ≡ false) s (λ r p. p.0) a),
  to_upper_fixed wide s (
      All-imp Stable (λ r. (r < 128) × ((leb b'a' r && leb r b'z') ≡ false)) s (λ r p. (p.1, p.2))
        a),
)

-- `Parse` reads the pretty form of a canonical code back as that code.
pub parse-pretty : (wide : ℕ → ℕ) (c : Code) → IsCode c → parse wide (pretty c) ≡ ok c
parse-pretty wide c h = rw (
  pretty_eq c h.eight,
  parse-Stable wide (codes "OPEN-" ++ body c) (body-Stable c h.chars),
  parse_upper-prefix (body c),
  drop_dashes-body c h.chars,
  byte_len-InAlphabet c h.chars,
  h.eight,
  parse_runes-InAlphabet c h.chars,
)

not_o : (r : ℕ) → alias r ≡ r → (r == b'O') ≡ false
not_o r h = ground (arith, nat_eq.eqb_iff r b'O')

trim_prefix-InAlphabet : (c : Code) → All InAlphabet c → trim_prefix c (codes "OPEN-") c ≡ c
unfolding trim_prefix
trim_prefix-InAlphabet [] a = refl
trim_prefix-InAlphabet (r ∷ s) a = rw (not_o r (Plain-of_InAlphabet r a.0).canonical) refl

-- `Parse` reads a canonical code itself, without the prefix and the dashes.
pub parse_canonical : (wide : ℕ → ℕ) (c : Code) → IsCode c → parse wide c ≡ ok c
parse_canonical wide c h =
    parse-Stable wide c (All-imp InAlphabet Stable c Stable-of_InAlphabet h.chars)
    ∙ (unfold parse_upper in
        (rw
          (
            trim_prefix-InAlphabet c h.chars,
            drop_dashes_none c h.chars,
            byte_len-InAlphabet c h.chars,
            h.eight,
          )
          (parse_runes-InAlphabet c h.chars)))

-- Every rune that is accepted is one byte long and leaves a character of the alphabet.
record Accepted (r : ℕ) (rest : Result) (c : Code) : Type 0 where
  before : Code
  rest_ok : rest ≡ ok before
  whole : c ≡ alias r ∷ before
  char : InAlphabet (alias r)

accept_of :
    (r : ℕ) (rest : Result) (c : Code)
    → (if r == b'U'
        then err has_u
        else (if not (contains_rune crockford_alphabet (alias r))
            then err (bad_character (alias r))
            else cons_code (alias r) rest))
      ≡ ok c
    → Accepted r rest c
accept_of r (ok d) c h = record {
  before = d;
  rest_ok = refl;
  whole = ground arith;
  char = ground arith;
}
accept_of r (err e) c h = absurd (ground arith)

utf8_len_one : (r : ℕ) → alias r ≤ 90 → utf8_len r ≡ 1
utf8_len_one r h = ground arith

parse_runes-InAlphabet_conv :
    (s : Runes) (c : Code) → parse_runes s ≡ ok c → All InAlphabet c × (length c ≡ byte_len s)
unfolding parse_runes byte_len
parse_runes-InAlphabet_conv [] c h = let e : [] ≡ c = cc in rw (sym e) (tt, refl)
parse_runes-InAlphabet_conv (r ∷ s) c h =
    let a : Accepted r (parse_runes s) c = accept_of r (parse_runes s) c h in
    let rest = parse_runes-InAlphabet_conv s a.before a.rest_ok in
    let small = contains_rune-le crockford_alphabet (alias r) 90 (omega arith) a.char in
    rw a.whole ((a.char, rest.0), omega (arith, utf8_len_one r small, rest.1))

parse_upper-IsCode : (u : Runes) (c : Code) → parse_upper u ≡ ok c → IsCode c
unfolding parse_upper
parse_upper-IsCode u c h =
    let t = drop_dashes (trim_prefix u (codes "OPEN-") u) in
    let parsed : parse_runes t ≡ ok c = ground arith in
    let size : byte_len t ≡ 8 = ground arith in
    let facts = parse_runes-InAlphabet_conv t c parsed in
    record { eight = facts.1 ∙ size; chars = facts.0 }

-- Whatever text `Parse` accepts, the code it returns is canonical: eight characters, all of the
-- alphabet.
pub parse-IsCode : (wide : ℕ → ℕ) (s : Runes) (c : Code) → parse wide s ≡ ok c → IsCode c
unfolding parse
parse-IsCode wide s c h = parse_upper-IsCode (map (to_upper wide) (trim_space s)) c h
