-- ===== src/Discovery/Keys.antt =====
-- internal/discovery/keys.go: the keys that two friends derive from each other. libp2p's keys, the
-- curve, the hash and internal/identity/x25519.go, which calls the curve's library, are the
-- parameter `KeyOps`.
pub mod Symmetric
mod Tests
use opencom.Base.{
  ℕ, Bool, true, false, not, Option, none, some, List, [], ◌∷◌, ◌++◌, Str, str_eq, nat_eq, ◌==◌,
  codes, if◌then◌else◌, ltb, nat_beq, length, ◌⊎◌, inl, inr, ◌&&◌, ◌||◌,
}

pub record KeyOps : Type 1 where
  pub PrivKey : Type 0
  pub PubKey : Type 0
  -- Type() == crypto.Ed25519, and Raw, which may fail.
  pub priv_is_ed25519 : PrivKey → Bool
  pub pub_is_ed25519 : PubKey → Bool
  pub priv_raw : PrivKey → Option Str
  pub pub_raw : PubKey → Option Str
  pub get_public : PrivKey → PubKey
  pub to_x25519_private : Str → Option Str
  pub to_x25519_public : Str → Option Str
  pub x25519 : Str → Str → Option Str
  pub sha256 : Str → Str
  pub decode_string : Str → Option Str
  pub unmarshal_public_key : Str → Option PubKey
  pub hex_encode : Str → Str

abbrev pub dht_key_prefix : Str
dht_key_prefix = codes "/opencom-discovery/v1/"

abbrev pub dht_key_domain : Str
dht_key_domain = codes "opencom-discovery-v1"

pub data KeyError : Type 0 where
  local_key remote_key with_self local_x remote_x curve_error local_raw remote_raw : KeyError

-- bytes.Compare(a, b) < 0.
unfoldable pub bytes_less : Str → Str → Bool
bytes_less [] [] = false
bytes_less [] (y ∷ b) = true
bytes_less (x ∷ a) [] = false
bytes_less (x ∷ a) (y ∷ b) = ltb x y || (nat_beq x y && bytes_less a b)

unfoldable pub canonical_order : Str → Str → Str × Str
canonical_order a b = if bytes_less a b then (a, b) else (b, a)

-- A key's bytes when they have the length that ed25519 wants.
unfoldable pub of_length : ℕ → Option Str → Option Str
of_length n none = none
of_length n (some raw) = if not (length raw == n) then none else some raw

unfoldable pub of_curve : Option Str → KeyError ⊎ Str
of_curve none = inl curve_error
of_curve (some shared) = inr shared

module _ (k : KeyOps) where
  unfoldable pub unmarshal_bytes : Option Str → Option k.PubKey
  unmarshal_bytes none = none
  unmarshal_bytes (some raw) = k.unmarshal_public_key raw

  -- `unmarshalFriendPubKey` of internal/discovery/publisher.go.
  unfoldable pub unmarshal_friend_pub_key : Str → Option k.PubKey
  unmarshal_friend_pub_key s =
      let key = unmarshal_bytes (k.decode_string s) in if s == [] then none else key

  unfoldable pub ed_priv_from_libp2p : k.PrivKey → Option Str
  ed_priv_from_libp2p key =
      if not (k.priv_is_ed25519 key) then none else of_length 64 (k.priv_raw key)

  unfoldable pub ed_pub_from_libp2p : k.PubKey → Option Str
  ed_pub_from_libp2p key = if not (k.pub_is_ed25519 key) then none else of_length 32 (k.pub_raw key)

  -- bytes.Equal with the own public key, when Raw does not fail.
  unfoldable pub is_self : Option Str → Str → Bool
  is_self none theirs = false
  is_self (some mine) theirs = mine == theirs

  unfoldable pub run_curve : Option Str → Option Str → KeyError ⊎ Str
  run_curve none their_x = inl local_x
  run_curve (some my_x) none = inl remote_x
  run_curve (some my_x) (some their_x) = of_curve (k.x25519 my_x their_x)

  unfoldable pub share : Option Str → Option Str → k.PrivKey → KeyError ⊎ Str
  share none theirs my_priv = inl local_key
  share (some mine) none my_priv = inl remote_key
  share (some mine) (some theirs) my_priv =
      let shared = run_curve (k.to_x25519_private mine) (k.to_x25519_public theirs) in
      if is_self (k.pub_raw (k.get_public my_priv)) theirs then inl with_self else shared

  unfoldable pub derive_shared_secret : k.PrivKey → k.PubKey → KeyError ⊎ Str
  derive_shared_secret my_priv their_pub =
      share (ed_priv_from_libp2p my_priv) (ed_pub_from_libp2p their_pub) my_priv

  unfoldable pub hash_key : Str → Str × Str → Str
  hash_key secret order =
      dht_key_prefix ++ k.hex_encode (k.sha256 (dht_key_domain ++ (secret ++ (order.0 ++ order.1))))

  unfoldable pub dht_key_of : Str → Option Str → Option Str → KeyError ⊎ Str
  dht_key_of secret none theirs = inl local_raw
  dht_key_of secret (some mine) none = inl remote_raw
  dht_key_of secret (some mine) (some theirs) = inr (hash_key secret (canonical_order mine theirs))

  unfoldable pub derive_dht_key : Str → k.PubKey → k.PubKey → KeyError ⊎ Str
  derive_dht_key secret my_pub their_pub =
      dht_key_of secret (k.pub_raw my_pub) (k.pub_raw their_pub)

unfoldable pub program : Unit {0}
unfolding bytes_less canonical_order of_length unmarshal_bytes unmarshal_friend_pub_key
    ed_priv_from_libp2p ed_pub_from_libp2p is_self of_curve run_curve share derive_shared_secret
    hash_key dht_key_of derive_dht_key
program = tt
