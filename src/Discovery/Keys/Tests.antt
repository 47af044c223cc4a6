-- ===== src/Discovery/Keys/Tests.antt =====
-- internal/discovery/keys.go: two friends whose curve adds.
use mathlib.Core.Path.{◌≡◌, refl}
use opencom.Base.{ℕ, zero, suc, ◌*◌, true, some, [], ◌∷◌, Str, str_beq, inl, inr}
use opencom.Discovery.Keys.{KeyOps, derive_shared_secret, program, with_self}
use opencom.Discovery.Keys.Symmetric.{Party}

-- A key is a number n: its bytes repeat it, and the secret of two keys is their product.
abbrev repeat : ℕ → ℕ → Str
repeat zero n = []
repeat (suc count) n = n ∷ repeat count n

abbrev head : Str → ℕ
head [] = 0
head (n ∷ s) = n

abbrev ops : KeyOps
ops = record {
  PrivKey = ℕ;
  PubKey = ℕ;
  priv_is_ed25519 = λ n. true;
  pub_is_ed25519 = λ n. true;
  priv_raw = λ n. some (repeat 64 n);
  pub_raw = λ n. some (repeat 32 n);
  get_public = λ n. n;
  to_x25519_private = λ s. some (head s ∷ []);
  to_x25519_public = λ s. some (head s ∷ []);
  x25519 = λ a b. some (head a * head b ∷ []);
  sha256 = λ s. s;
  decode_string = λ s. some s;
  unmarshal_public_key = λ s. some (head s);
  hex_encode = λ s. s;
}

party : (n : ℕ) → Party ops n
unfolding program
party n = record {
  raw_priv = repeat 64 n;
  raw_pub = repeat 32 n;
  x_priv = n ∷ [];
  x_pub = n ∷ [];
  priv_bytes = refl;
  pub_bytes = refl;
  own_bytes = refl;
  priv_x = refl;
  pub_x = refl;
}

secret : derive_shared_secret ops 3 5 ≡ inr (15 ∷ [])
unfolding program str_beq
secret = refl

self : derive_shared_secret ops 3 3 ≡ inl with_self
unfolding program str_beq
self = refl
