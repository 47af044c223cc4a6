-- ===== src/Base/Base64/RoundTrip.antt =====
-- encoding/base64: what is encoded decodes.
use Prim.Native.Nat.{ℕ, ◌+◌, ◌*◌, ◌/◌, ◌%◌, ◌<◌}
use mathlib.Core.Path.{◌≡◌, refl, ◌∙◌}
use mathlib.Core.Logic.{inl, inr}
use mathlib.Core.Bool.{true, false, ◌||◌}
use mathlib.Core.Option.{some}
use mathlib.Core.List.{[], ◌∷◌}
use native.Mathlib.Omega.{arith}
use opencom.Base.Tests.{Str, ◌==◌, nat_eq, Bool-cases}
use opencom.Base.Lists.{All}
use opencom.Base.Base64.{
  Encoding, std_encoding, raw_url_encoding, symbol, value, padding, encode, strip_breaks, bytes1,
  bytes2, bytes3, last_group, decode_raw, decode_padded, decode, Bytes,
}

-- A byte that may stand in a text: no line break.
abbrev Solid : ℕ → Type 0
Solid c = (c == 10 || c == 13) ≡ false

-- The symbols can be told apart, and from the padding and the line breaks.
pub record Lawful (enc : Encoding) : Type 0 where
  pub value-symbol : (n : ℕ) → n < 64 → value enc (symbol enc n) ≡ some n
  pub not_pad : (n : ℕ) → n < 64 → (symbol enc n == b'=') ≡ false
  pub no_break : (n : ℕ) → n < 64 → Solid (symbol enc n)

pub std_encoding-Lawful : Lawful std_encoding
unfolding symbol value
std_encoding-Lawful = record {
  value-symbol = λ n h. ground arith;
  not_pad = λ n h. ground arith;
  no_break = λ n h. ground arith;
}

pub raw_url_encoding-Lawful : Lawful raw_url_encoding
unfolding symbol value
raw_url_encoding-Lawful = record {
  value-symbol = λ n h. ground arith;
  not_pad = λ n h. ground arith;
  no_break = λ n h. ground arith;
}

strip_breaks-Solid : (enc : Encoding) (s : Str) → All Solid s → strip_breaks enc s ≡ s
unfolding strip_breaks
strip_breaks-Solid enc [] h = refl
strip_breaks-Solid enc (c ∷ s) h = rw (h.0, strip_breaks-Solid enc s h.1) refl

-- The symbols that three bytes are written in.
first : (a : ℕ) → a < 256 → a / 4 < 64
first a h = omega arith

second : (a b : ℕ) → a < 256 → b < 256 → a % 4 * 16 + b / 16 < 64
second a b h k = omega arith

third : (b c : ℕ) → b < 256 → c < 256 → b % 16 * 4 + c / 64 < 64
third b c h k = omega arith

-- The bytes that the symbols stand for.
byte1 : (a b : ℕ) → b < 256 → a / 4 * 4 + (a % 4 * 16 + b / 16) / 16 ≡ a
byte1 a b h = omega arith

byte2 :
    (a b c : ℕ)
    → b < 256
    → c < 256
    → (a % 4 * 16 + b / 16) % 16 * 16 + (b % 16 * 4 + c / 64) / 4 ≡ b
byte2 a b c h k = omega arith

byte3 : (b c : ℕ) → c < 256 → (b % 16 * 4 + c / 64) % 4 * 64 + c % 64 ≡ c
byte3 b c k = omega arith

module _ (enc : Encoding) (law : Lawful enc) where
  padding-Solid : (s : Str) → All Solid s → All Solid (padding enc s)
  unfolding padding
  padding-Solid s h = elim (Bool-cases enc.padded) [ inl e ↦ rw e h | inr e ↦ rw e tt ]

  encode-Solid : (s : Str) → Bytes s → All Solid (encode enc s)
  unfolding encode
  encode-Solid [] h = tt
  encode-Solid (a ∷ []) h =
      let end = padding-Solid (b'=' ∷ b'=' ∷ []) (refl, (refl, tt)) in
      (law.no_break (a / 4) (first a h.0), (law.no_break (a % 4 * 16) (omega (arith, h.0)), end))
  encode-Solid (a ∷ b ∷ []) h =
      let end = padding-Solid (b'=' ∷ []) (refl, tt) in
      let y = law.no_break (b % 16 * 4) (omega (arith, h.1.0)) in
      let x = law.no_break (a % 4 * 16 + b / 16) (second a b h.0 h.1.0) in
      (law.no_break (a / 4) (first a h.0), (x, (y, end)))
  encode-Solid (a ∷ b ∷ c ∷ s) h =
      let z = law.no_break (c % 64) (omega arith) in
      let y = law.no_break (b % 16 * 4 + c / 64) (third b c h.1.0 h.1.1.0) in
      let x = law.no_break (a % 4 * 16 + b / 16) (second a b h.0 h.1.0) in
      (law.no_break (a / 4) (first a h.0), (x, (y, (z, encode-Solid s h.1.1.1))))

  -- Three bytes and what follows.
  bytes3-values :
      (a b c : ℕ) (s : Str)
      → a < 256
      → b < 256
      → c < 256
      → bytes3 enc
          (value enc (symbol enc (a / 4)))
          (value enc (symbol enc (a % 4 * 16 + b / 16)))
          (value enc (symbol enc (b % 16 * 4 + c / 64)))
          (value enc (symbol enc (c % 64)))
          (some s)
        ≡ some (a ∷ b ∷ c ∷ s)
  unfolding bytes3
  bytes3-values a b c s ha hb hc =
      rw
        (
          law.value-symbol (a / 4) (first a ha),
          law.value-symbol (a % 4 * 16 + b / 16) (second a b ha hb),
          law.value-symbol (b % 16 * 4 + c / 64) (third b c hb hc),
          law.value-symbol (c % 64) (omega arith),
          byte1 a b hb,
          byte2 a b c hb hc,
          byte3 b c hc,
        )
        refl

  bytes2-values :
      (a b : ℕ)
      → a < 256
      → b < 256
      → bytes2 enc
          (value enc (symbol enc (a / 4)))
          (value enc (symbol enc (a % 4 * 16 + b / 16)))
          (value enc (symbol enc (b % 16 * 4)))
        ≡ some (a ∷ b ∷ [])
  unfolding bytes2
  bytes2-values a b ha hb =
      let e : (a % 4 * 16 + b / 16) % 16 * 16 + b % 16 * 4 / 4 ≡ b = omega arith in
      rw
        (
          law.value-symbol (a / 4) (first a ha),
          law.value-symbol (a % 4 * 16 + b / 16) (second a b ha hb),
          law.value-symbol (b % 16 * 4) (omega arith),
          byte1 a b hb,
          e,
        )
        refl

  bytes1-values :
      (a : ℕ)
      → a < 256
      → bytes1 enc (value enc (symbol enc (a / 4))) (value enc (symbol enc (a % 4 * 16)))
        ≡ some (a ∷ [])
  unfolding bytes1
  bytes1-values a ha =
      let e : a / 4 * 4 + a % 4 * 16 / 16 ≡ a = omega arith in
      rw (law.value-symbol (a / 4) (first a ha), law.value-symbol (a % 4 * 16) (omega arith), e)
        refl

  decode_raw-encode :
      (s : Str) → enc.padded ≡ false → Bytes s → decode_raw enc (encode enc s) ≡ some s
  unfolding encode padding decode_raw
  decode_raw-encode [] p h = refl
  decode_raw-encode (a ∷ []) p h = simp p (bytes1-values a h.0)
  decode_raw-encode (a ∷ b ∷ []) p h = simp p (bytes2-values a b h.0 h.1.0)
  decode_raw-encode (a ∷ b ∷ c ∷ s) p h =
      rw (decode_raw-encode s p h.1.1.1) (bytes3-values a b c s h.0 h.1.0 h.1.1.0)

  last_one :
      (a : ℕ)
      → a < 256
      → last_group enc (symbol enc (a / 4)) (symbol enc (a % 4 * 16)) b'=' b'=' ≡ some (a ∷ [])
  unfolding last_group
  last_one a h = bytes1-values a h

  last_two :
      (a b : ℕ)
      → a < 256
      → b < 256
      → last_group enc
          (symbol enc (a / 4))
          (symbol enc (a % 4 * 16 + b / 16))
          (symbol enc (b % 16 * 4))
          b'='
        ≡ some (a ∷ b ∷ [])
  unfolding last_group
  last_two a b ha hb = rw (law.not_pad (b % 16 * 4) (omega arith)) (bytes2-values a b ha hb)

  last_three :
      (a b c : ℕ)
      → a < 256
      → b < 256
      → c < 256
      → last_group enc
          (symbol enc (a / 4))
          (symbol enc (a % 4 * 16 + b / 16))
          (symbol enc (b % 16 * 4 + c / 64))
          (symbol enc (c % 64))
        ≡ some (a ∷ b ∷ c ∷ [])
  unfolding last_group
  last_three a b c ha hb hc =
      rw (law.not_pad (b % 16 * 4 + c / 64) (third b c hb hc), law.not_pad (c % 64) (omega arith))
        (bytes3-values a b c [] ha hb hc)

  -- The text of a rest that is not empty.
  encode-cons : (x : ℕ) (s : Str) → (d : ℕ) × (t : Str) × (encode enc (x ∷ s) ≡ d ∷ t)
  unfolding encode
  encode-cons x [] =
      (symbol enc (x / 4), symbol enc (x % 4 * 16) ∷ padding enc (b'=' ∷ b'=' ∷ []), refl)
  encode-cons x (y ∷ []) = (
    symbol enc (x / 4),
    symbol enc (x % 4 * 16 + y / 16) ∷ symbol enc (y % 16 * 4) ∷ padding enc (b'=' ∷ []),
    refl,
  )
  encode-cons x (y ∷ z ∷ s) = (
    symbol enc (x / 4),
    symbol enc (x % 4 * 16 + y / 16)
        ∷ symbol enc (y % 16 * 4 + z / 64)
        ∷ symbol enc (z % 64)
        ∷ encode enc s,
    refl,
  )

  more_groups :
      (w x y z : ℕ) (t : Str) (d : ℕ) (u : Str)
      → t ≡ d ∷ u
      → decode_padded enc (w ∷ x ∷ y ∷ z ∷ t)
        ≡ bytes3 enc (value enc w) (value enc x) (value enc y) (value enc z) (decode_padded enc t)
  unfolding decode_padded
  more_groups w x y z t d u e = rw e refl

  decode_padded-encode :
      (s : Str) → enc.padded ≡ true → Bytes s → decode_padded enc (encode enc s) ≡ some s
  unfolding encode padding decode_padded
  decode_padded-encode [] p h = refl
  decode_padded-encode (a ∷ []) p h = simp p (last_one a h.0)
  decode_padded-encode (a ∷ b ∷ []) p h = simp p (last_two a b h.0 h.1.0)
  decode_padded-encode (a ∷ b ∷ c ∷ []) p h = last_three a b c h.0 h.1.0 h.1.1.0
  decode_padded-encode (a ∷ b ∷ c ∷ d ∷ s) p h =
      let (e, t, starts) = encode-cons d s in
      more_groups (symbol enc (a / 4)) (symbol enc (a % 4 * 16 + b / 16))
        (symbol enc (b % 16 * 4 + c / 64)) (symbol enc (c % 64)) (encode enc (d ∷ s)) e t starts
      ∙ rw (decode_padded-encode (d ∷ s) p h.1.1.1) (bytes3-values a b c (d ∷ s) h.0 h.1.0 h.1.1.0)

  -- What is encoded decodes to the bytes that it was.
  pub decode-encode_base64 : (s : Str) → Bytes s → decode enc (encode enc s) ≡ some s
  unfolding decode
  decode-encode_base64 s h =
      let solid = strip_breaks-Solid enc (encode enc s) (encode-Solid s h) in
      elim (Bool-cases enc.padded) [
        | inl p ↦ rw solid (simp p (decode_padded-encode s p h))
        | inr p ↦ rw solid (simp p (decode_raw-encode s p h))
      ]
