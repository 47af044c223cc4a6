-- ===== src/Base/Base64/Symbols.antt =====
-- encoding/base64: which bytes stand in what is written.
use Prim.Native.Nat.{ℕ, ◌+◌, ◌*◌, ◌/◌, ◌%◌, ◌<◌}
use mathlib.Core.Path.{refl}
use mathlib.Core.Logic.{◌≢◌}
use mathlib.Core.List.{[], ◌∷◌}
use native.Mathlib.Omega.{arith}
use opencom.Base.Tests.{Str, nat_eq}
use opencom.Base.Text.{Free}
use opencom.Base.Base64.{Encoding, std_encoding, raw_url_encoding, symbol, padding, encode, Bytes}

pub encode-nonempty : (enc : Encoding) (s : Str) → s ≢ [] → encode enc s ≢ []
unfolding encode
encode-nonempty enc [] h = absurd (h refl)
encode-nonempty enc (a ∷ []) h = λ e. cc
encode-nonempty enc (a ∷ b ∷ []) h = λ e. cc
encode-nonempty enc (a ∷ b ∷ c ∷ s) h = λ e. cc

-- The symbols of URL texts are bytes.
symbol-byte : (n : ℕ) → symbol raw_url_encoding n < 256
unfolding symbol
symbol-byte n = ground arith

pub encode-Bytes : (s : Str) → Bytes (encode raw_url_encoding s)
unfolding encode padding
encode-Bytes [] = tt
encode-Bytes (a ∷ []) = (symbol-byte (a / 4), (symbol-byte (a % 4 * 16), tt))
encode-Bytes (a ∷ b ∷ []) =
    (symbol-byte (a / 4), (symbol-byte (a % 4 * 16 + b / 16), (symbol-byte (b % 16 * 4), tt)))
encode-Bytes (a ∷ b ∷ c ∷ s) = (
  symbol-byte (a / 4),
  (
    symbol-byte (a % 4 * 16 + b / 16),
    (symbol-byte (b % 16 * 4 + c / 64), (symbol-byte (c % 64), encode-Bytes s)),
  ),
)

symbol_no_newline : (n : ℕ) → symbol raw_url_encoding n ≢ b'\n'
unfolding symbol
symbol_no_newline n e = ground arith

pub encode-Free : (s : Str) → Free b'\n' (encode raw_url_encoding s)
unfolding encode padding
encode-Free [] = tt
encode-Free (a ∷ []) = (symbol_no_newline (a / 4), (symbol_no_newline (a % 4 * 16), tt))
encode-Free (a ∷ b ∷ []) = (
  symbol_no_newline (a / 4),
  (symbol_no_newline (a % 4 * 16 + b / 16), (symbol_no_newline (b % 16 * 4), tt)),
)
encode-Free (a ∷ b ∷ c ∷ s) = (
  symbol_no_newline (a / 4),
  (
    symbol_no_newline (a % 4 * 16 + b / 16),
    (symbol_no_newline (b % 16 * 4 + c / 64), (symbol_no_newline (c % 64), encode-Free s)),
  ),
)

std_symbol-byte : (n : ℕ) → symbol std_encoding n < 256
unfolding symbol
std_symbol-byte n = ground arith

pub encode-std_Bytes : (s : Str) → Bytes (encode std_encoding s)
unfolding encode padding
encode-std_Bytes [] = tt
encode-std_Bytes (a ∷ []) =
    (std_symbol-byte (a / 4), (std_symbol-byte (a % 4 * 16), (omega arith, (omega arith, tt))))
encode-std_Bytes (a ∷ b ∷ []) = (
  std_symbol-byte (a / 4),
  (std_symbol-byte (a % 4 * 16 + b / 16), (std_symbol-byte (b % 16 * 4), (omega arith, tt))),
)
encode-std_Bytes (a ∷ b ∷ c ∷ s) = (
  std_symbol-byte (a / 4),
  (
    std_symbol-byte (a % 4 * 16 + b / 16),
    (std_symbol-byte (b % 16 * 4 + c / 64), (std_symbol-byte (c % 64), encode-std_Bytes s)),
  ),
)
