-- ===== src/Base/Decimal.antt =====
-- strconv.FormatInt and strconv.ParseInt in base 10 with 64 bits.
use Prim.Native.Nat.{ℕ, zero, suc, ◌+◌, ◌-◌, ◌*◌, ◌/◌, ◌%◌, ◌^◌, ◌<◌}
use mathlib.Core.Path.{◌≡◌, refl, sym, ◌∙◌, ap}
use mathlib.Core.Bool.{Bool, true, false, ◌&&◌}
use mathlib.Core.Option
use mathlib.Core.Option.{Option, none, some}
use mathlib.Core.List.{[], ◌∷◌, ◌++◌}
use mathlib.Core.Logic.{◌≢◌, inl, inr}
use native.Mathlib.Omega.{arith}
use opencom.Base.Tests.{Str, if◌then◌else◌, ltb, leb, ◌==◌, nat_eq, Bool-cases}
use opencom.Base.Lists.{All, All-append, All-imp}
use opencom.Base.Int.{ℤ, pos, negsuc}
use opencom.Base.Text.{Free}

-- The digits of a number below the fuel.
unfoldable pub digits : ℕ → ℕ → Str
digits zero n = []
digits (suc fuel) n =
    let rest = digits fuel (n / 10) in
    if ltb n 10 then (b'0' + n) ∷ [] else rest ++ (b'0' + n % 10) ∷ []

unfoldable pub format_nat : ℕ → Str
format_nat n = digits (suc n) n

unfoldable pub format_int : ℤ → Str
format_int (pos n) = format_nat n
format_int (negsuc n) = b'-' ∷ format_nat (suc n)

abbrev pub is_digit : ℕ → Bool
is_digit c = leb b'0' c && leb c b'9'

-- The number that digits stand for, behind what was read.
unfoldable pub read_digits : ℕ → Str → Option ℕ
read_digits acc [] = some acc
read_digits acc (c ∷ s) =
    let rest = read_digits (acc * 10 + (c - b'0')) s in if is_digit c then rest else none

unfoldable pub parse_uint : Str → Option ℕ
parse_uint [] = none
parse_uint (c ∷ s) = read_digits 0 (c ∷ s)

abbrev pub limit : ℕ
limit = 2 ^ 63

unfoldable pub in_range : ℕ → ℤ → Option ℕ → Option ℤ
in_range most i none = none
in_range most i (some n) = if leb n most then some i else none

abbrev pub or_zero : Option ℕ → ℕ
or_zero none = 0
or_zero (some n) = n

-- -n.
abbrev pub negate : ℕ → ℤ
negate zero = pos 0
negate (suc n) = negsuc n

unfoldable pub parse_signed : Bool → Str → Option ℤ
parse_signed true s = in_range limit (negate (or_zero (parse_uint s))) (parse_uint s)
parse_signed false s = in_range (limit - 1) (pos (or_zero (parse_uint s))) (parse_uint s)

unfoldable pub parse_int : Str → Option ℤ
parse_int [] = none
parse_int (c ∷ s) =
    if c == b'-'
    then parse_signed true s
    else (if c == b'+' then parse_signed false s else parse_signed false (c ∷ s))

-- An int64.
abbrev pub Int64 : ℤ → Type 0
Int64 (pos n) = n < limit
Int64 (negsuc n) = n < limit

abbrev pub Digits : Str → Type 0
Digits s = All (λ c. is_digit c ≡ true) s

pub digits-Digits : (fuel n : ℕ) → Digits (digits fuel n)
unfolding digits
digits-Digits zero n = tt
digits-Digits (suc fuel) n = elim (Bool-cases (ltb n 10)) [
  | inl small ↦ rw small (ground arith, tt)
  | inr large ↦ rw large (
      All-append (λ c. is_digit c ≡ true) (digits fuel (n / 10)) ((b'0' + n % 10) ∷ [])
        (digits-Digits fuel (n / 10)) (ground arith, tt))
]

read_snoc :
    (s : Str) (acc d v : ℕ)
    → read_digits acc s ≡ some v
    → is_digit d ≡ true
    → read_digits acc (s ++ d ∷ []) ≡ some (v * 10 + (d - b'0'))
unfolding read_digits
read_snoc [] acc d v h e = rw e (ap (λ (o : Option ℕ). Option.map (λ w. w * 10 + (d - b'0')) o) h)
read_snoc (c ∷ s) acc d v h e = elim (Bool-cases (is_digit c)) [
  | inl yes_digit ↦
      rw yes_digit (read_snoc s (acc * 10 + (c - b'0')) d v (sym (rw yes_digit refl) ∙ h) e)
  | inr no_digit ↦ absurd (ground (arith, h, no_digit))
]

digit_value : (d : ℕ) → d < 10 → (is_digit (b'0' + d) ≡ true) × ((b'0' + d) - b'0' ≡ d)
digit_value d h = (ground arith, omega arith)

pub read_digits-digits : (fuel n : ℕ) → n < fuel → read_digits 0 (digits fuel n) ≡ some n
unfolding digits
read_digits-digits zero n h = absurd (omega arith)
read_digits-digits (suc fuel) n h = elim (Bool-cases (ltb n 10)) [
  | inl small ↦ rw small (
      unfold read_digits in
      (rw ((digit_value n (ground arith)).0, (digit_value n (ground arith)).1) (ground arith)))
  | inr large ↦
      let below : n / 10 < fuel = ground (arith, h, large) in
      let (is, value) = digit_value (n % 10) (omega arith) in
      let whole : n / 10 * 10 + n % 10 ≡ n = omega arith in
      rw large (
        read_snoc (digits fuel (n / 10)) 0 (b'0' + n % 10) (n / 10)
          (read_digits-digits fuel (n / 10) below) is
        ∙ rw (value, whole) refl)
]

snoc-nonempty : (s : Str) (d : ℕ) → s ++ d ∷ [] ≢ []
snoc-nonempty [] d e = cc
snoc-nonempty (c ∷ s) d e = cc

pub digits-nonempty : (fuel n : ℕ) → digits (suc fuel) n ≢ []
unfolding digits
digits-nonempty fuel n = elim (Bool-cases (ltb n 10)) [
  | inl small ↦ rw small (λ e. cc)
  | inr large ↦ rw large (snoc-nonempty (digits fuel (n / 10)) (b'0' + n % 10))
]

parse_uint-read : (s : Str) → s ≢ [] → parse_uint s ≡ read_digits 0 s
unfolding parse_uint
parse_uint-read [] h = absurd (h refl)
parse_uint-read (c ∷ s) h = refl

parse_uint-format_nat : (n : ℕ) → parse_uint (format_nat n) ≡ some n
unfolding format_nat
parse_uint-format_nat n =
    parse_uint-read (digits (suc n) n) (digits-nonempty n n)
    ∙ read_digits-digits (suc n) n (omega arith)

-- A text that starts with a digit has no sign.
parse_int-Digits : (s : Str) → Digits s → s ≢ [] → parse_int s ≡ parse_signed false s
unfolding parse_int
parse_int-Digits [] h ne = absurd (ne refl)
parse_int-Digits (c ∷ s) h ne = ground (arith, h.0, nat_eq.eqb_iff c b'-', nat_eq.eqb_iff c b'+')

-- ParseInt reads back what FormatInt writes of an int64.
pub parse_int-format_int : (i : ℤ) → Int64 i → parse_int (format_int i) ≡ some i
unfolding format_int
parse_int-format_int (pos n) h =
    parse_int-Digits (format_nat n) (unfold format_nat in digits-Digits (suc n) n)
      (unfold format_nat in digits-nonempty n n)
    ∙ unfold parse_signed in (rw (parse_uint-format_nat n) (unfold in_range in ground arith))
parse_int-format_int (negsuc n) h =
    unfold parse_int parse_signed in
    (rw (parse_uint-format_nat (suc n)) (unfold in_range in ground arith))

-- A byte that is no digit and no sign does not stand in a number.
pub format_int-Free :
    (sep : ℕ) (i : ℤ) → is_digit sep ≡ false → sep ≢ b'-' → Free sep (format_int i)
unfolding format_int format_nat
format_int-Free sep (pos n) h m =
    All-imp (λ c. is_digit c ≡ true) (λ x. x ≢ sep) (digits (suc n) n)
      (λ x d e. cc (d, h, ap (λ y. is_digit y) e)) (digits-Digits (suc n) n)
format_int-Free sep (negsuc n) h m = (
  λ e. m (sym e),
  All-imp (λ c. is_digit c ≡ true) (λ x. x ≢ sep) (digits (suc (suc n)) (suc n))
      (λ x d e. cc (d, h, ap (λ y. is_digit y) e)) (digits-Digits (suc (suc n)) (suc n)),
)

pub format_int-nonempty : (i : ℤ) → format_int i ≢ []
unfolding format_int format_nat
format_int-nonempty (pos n) e = digits-nonempty n n e
format_int-nonempty (negsuc n) e = cc

pub format_int-Bytes : (i : ℤ) → All (λ b. b < 256) (format_int i)
unfolding format_int format_nat
format_int-Bytes (pos n) =
    All-imp (λ c. is_digit c ≡ true) (λ b. b < 256) (digits (suc n) n) (λ c h. ground (arith, h))
      (digits-Digits (suc n) n)
format_int-Bytes (negsuc n) = (
  omega arith,
  All-imp (λ c. is_digit c ≡ true) (λ b. b < 256) (digits (suc (suc n)) (suc n))
      (λ c h. ground (arith, h)) (digits-Digits (suc (suc n)) (suc n)),
)

unfoldable pub program : Unit {0}
unfolding digits format_nat format_int read_digits parse_uint in_range parse_signed parse_int
program = tt
