-- ===== src/Base/Base64.antt =====
-- encoding/base64: StdEncoding, with padding, and RawURLEncoding, without. A decoder skips line breaks,
-- and does not look at the bits that are left over in the last symbol.
pub mod RoundTrip
pub mod Symbols
use Prim.Native.Nat.{ℕ, suc, ◌+◌, ◌-◌, ◌*◌, ◌/◌, ◌%◌, ◌<◌, ◌≤◌}
use mathlib.Core.Path.{◌≡◌, refl, sym, ◌∙◌, ap}
use mathlib.Core.Logic.{◌≢◌, inl, inr}
use mathlib.Core.Bool.{Bool, true, false, ◌&&◌, ◌||◌}
use mathlib.Core.Option
use mathlib.Core.Option.{Option, none, some}
use mathlib.Core.List.{List, [], ◌∷◌, ◌++◌}
use native.Mathlib.Omega.{arith}
use opencom.Base.Tests.{Str, if◌then◌else◌, ltb, leb, ◌==◌, nat_eq}
use opencom.Base.Lists.{All}

-- The last two symbols, and whether groups are padded.
pub record Encoding : Type 0 where
  pub char62 : ℕ
  pub char63 : ℕ
  pub padded : Bool

abbrev pub std_encoding : Encoding
std_encoding = record { char62 = b'+'; char63 = b'/'; padded = true }

abbrev pub raw_url_encoding : Encoding
raw_url_encoding = record { char62 = b'-'; char63 = b'_'; padded = false }

abbrev pad : ℕ
pad = b'='

module _ (enc : Encoding) where
  -- The symbol of a number below 64.
  unfoldable pub symbol : ℕ → ℕ
  symbol n =
      if ltb n 26
      then n + 65
      else (if ltb n 52
          then n + 71
          else (if ltb n 62 then n - 4 else (if n == 62 then enc.char62 else enc.char63)))

  unfoldable pub value : ℕ → Option ℕ
  value c =
      if leb 65 c && leb c 90
      then some (c - 65)
      else (if leb 97 c && leb c 122
          then some (c - 71)
          else (if leb 48 c && leb c 57
              then some (c + 4)
              else (if c == enc.char62
                  then some 62
                  else (if c == enc.char63 then some 63 else none))))

  unfoldable pub padding : Str → Str
  padding s = if enc.padded then s else []

  -- `EncodeToString`.
  unfoldable pub encode : Str → Str
  encode [] = []
  encode (a ∷ []) = symbol (a / 4) ∷ symbol (a % 4 * 16) ∷ padding (pad ∷ pad ∷ [])
  encode (a ∷ b ∷ []) =
      symbol (a / 4) ∷ symbol (a % 4 * 16 + b / 16) ∷ symbol (b % 16 * 4) ∷ padding (pad ∷ [])
  encode (a ∷ b ∷ c ∷ s) =
      symbol (a / 4)
      ∷ symbol (a % 4 * 16 + b / 16)
      ∷ symbol (b % 16 * 4 + c / 64)
      ∷ symbol (c % 64)
      ∷ encode s

  unfoldable pub strip_breaks : Str → Str
  strip_breaks [] = []
  strip_breaks (c ∷ s) = let rest = strip_breaks s in if c == 10 || c == 13 then rest else c ∷ rest

  unfoldable pub bytes1 : Option ℕ → Option ℕ → Option Str
  bytes1 (some w) (some x) = some ((w * 4 + x / 16) ∷ [])
  bytes1 _ _ = none

  unfoldable pub bytes2 : Option ℕ → Option ℕ → Option ℕ → Option Str
  bytes2 (some w) (some x) (some y) = some ((w * 4 + x / 16) ∷ (x % 16 * 16 + y / 4) ∷ [])
  bytes2 _ _ _ = none

  unfoldable pub bytes3 : Option ℕ → Option ℕ → Option ℕ → Option ℕ → Option Str → Option Str
  bytes3 (some w) (some x) (some y) (some z) (some rest) =
      some ((w * 4 + x / 16) ∷ (x % 16 * 16 + y / 4) ∷ (y % 4 * 64 + z) ∷ rest)
  bytes3 _ _ _ _ _ = none

  -- The last group of a padded text.
  unfoldable pub last_group : ℕ → ℕ → ℕ → ℕ → Option Str
  last_group w x y z =
      if y == pad && z == pad
      then bytes1 (value w) (value x)
      else (if z == pad
          then bytes2 (value w) (value x) (value y)
          else bytes3 (value w) (value x) (value y) (value z) (some []))

  unfoldable pub decode_raw : Str → Option Str
  decode_raw [] = some []
  decode_raw (w ∷ []) = none
  decode_raw (w ∷ x ∷ []) = bytes1 (value w) (value x)
  decode_raw (w ∷ x ∷ y ∷ []) = bytes2 (value w) (value x) (value y)
  decode_raw (w ∷ x ∷ y ∷ z ∷ s) = bytes3 (value w) (value x) (value y) (value z) (decode_raw s)

  unfoldable pub decode_padded : Str → Option Str
  decode_padded [] = some []
  decode_padded (w ∷ x ∷ y ∷ z ∷ []) = last_group w x y z
  decode_padded (w ∷ x ∷ y ∷ z ∷ c ∷ s) =
      bytes3 (value w) (value x) (value y) (value z) (decode_padded (c ∷ s))
  decode_padded _ = none

  -- `DecodeString`; `none` is CorruptInputError.
  unfoldable pub decode : Str → Option Str
  decode s = let text = strip_breaks s in if enc.padded then decode_padded text else decode_raw text

abbrev pub Bytes : Str → Type 0
Bytes s = All (λ b. b < 256) s

unfoldable pub program : Unit {0}
unfolding symbol value padding encode strip_breaks bytes1 bytes2 bytes3 last_group decode_raw
    decode_padded decode
program = tt
