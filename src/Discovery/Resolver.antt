-- ===== src/Discovery/Resolver.antt =====
-- internal/discovery/resolver.go: a friend's addresses from the cache, or else from the DHT. The table
-- is the function `get_value`, with the number of lookups as state; HKDF, the keys and the ciphers are
-- parameters, as is NewMultiaddr, which decides which addresses can be parsed.
pub mod Sound
mod Tests
use opencom.Base.{
  ℕ, suc, ◌+◌, ◌-◌, Bool, true, false, Option, none, some, List, [], ◌∷◌, Str, str_eq, ◌==◌,
  if◌then◌else◌, ltb, ◌⊎◌, inl, inr,
}
use opencom.Friends.Store.{Friend, get_by_peer_id}
use opencom.Discovery.Cache.{CacheEntry, Cache, get, set, invalidate}
use opencom.Discovery.Keys.{
  KeyOps, KeyError, derive_shared_secret, derive_dht_key, unmarshal_friend_pub_key,
}
use opencom.Discovery.Record.{Ciphers, Record, DecodeError, decode}

pub data ResolveError : Type 0 where
  not_friend bad_public_key lookup_failed : ResolveError
  no_secret no_key : KeyError → ResolveError

-- libp2p and the DHT, with the resolver's own keys; `signer` is a public key as the ciphers take it.
pub record Network : Type 1 where
  pub keys : KeyOps
  pub ciphers : Ciphers
  pub signer : keys.PubKey → ciphers.PubKey
  pub encryption_key : Str → Str
  pub get_value : Str → Option Str
  pub my_priv : keys.PrivKey
  pub my_pub : keys.PubKey
  pub is_multiaddr : Str → Bool

-- `cache` is `none` for a nil cache; `lookups` counts the calls of GetValue.
pub record Resolver : Type 0 where
  pub cache : Option Cache
  pub lookups : ℕ

unfoldable pub parse_multiaddrs : (Str → Bool) → List Str → List Str
parse_multiaddrs ok [] = []
parse_multiaddrs ok (s ∷ l) = let rest = parse_multiaddrs ok l in if ok s then s ∷ rest else rest

-- A cached entry that is young enough: time.Since(entry.FetchedAt) < r.ttl.
unfoldable pub young : ℕ → ℕ → Option CacheEntry → Option CacheEntry
young now ttl none = none
young now ttl (some entry) = if ltb now (entry.fetched_at + ttl) then some entry else none

unfoldable pub cached : ℕ → ℕ → Str → Option Cache → Option CacheEntry
cached now ttl target none = none
cached now ttl target (some cache) = young now ttl (get target cache)

unfoldable pub remember : Bool → ℕ → Str → List Str → Option Cache → Option Cache
remember ok now target addrs none = none
remember ok now target addrs (some cache) = some (set ok now target addrs cache)

-- `findFriend`: over the friends as List sorts them.
unfoldable pub find_friend : List Friend → Str → Option Friend
find_friend friends target = get_by_peer_id target friends

-- What one call of `Resolve` reads.
pub record Call : Type 0 where
  pub now : ℕ
  pub ttl : ℕ
  pub write_ok : Bool
  pub target : Str

abbrev pub remembered : Call → List Str → Resolver → Resolver
remembered call addrs r = record r {
  cache = remember call.write_ok call.now call.target addrs r.cache;
}

module _ (net : Network) where
  unfoldable pub decoded :
      DecodeError ⊎ Record → Call → Resolver → Resolver × (ResolveError ⊎ List Str)
  decoded (inl e) call r = (r, inl lookup_failed)
  decoded (inr rec) call r =
      (remembered call rec.addresses r, inr (parse_multiaddrs net.is_multiaddr rec.addresses))

  unfoldable pub looked_up :
      Option Str → net.keys.PubKey → Str → Call → Resolver → Resolver × (ResolveError ⊎ List Str)
  looked_up none friend_pub secret call r = (r, inl lookup_failed)
  looked_up (some blob) friend_pub secret call r =
      decoded
        (decode net.ciphers blob (net.encryption_key secret) (net.signer friend_pub) call.now
          call.ttl)
        call r

  unfoldable pub with_key :
      KeyError ⊎ Str
      → net.keys.PubKey
      → Str
      → Call
      → Resolver
      → Resolver × (ResolveError ⊎ List Str)
  with_key (inl e) friend_pub secret call r = (r, inl (no_key e))
  with_key (inr key) friend_pub secret call r =
      looked_up (net.get_value key) friend_pub secret call (record r { lookups = suc r.lookups })

  unfoldable pub with_secret :
      KeyError ⊎ Str → net.keys.PubKey → Call → Resolver → Resolver × (ResolveError ⊎ List Str)
  with_secret (inl e) friend_pub call r = (r, inl (no_secret e))
  with_secret (inr secret) friend_pub call r =
      with_key (derive_dht_key net.keys secret net.my_pub friend_pub) friend_pub secret call r

  unfoldable pub with_pub :
      Option net.keys.PubKey → Call → Resolver → Resolver × (ResolveError ⊎ List Str)
  with_pub none call r = (r, inl bad_public_key)
  with_pub (some friend_pub) call r =
      with_secret (derive_shared_secret net.keys net.my_priv friend_pub) friend_pub call r

  unfoldable pub with_friend :
      Option Friend → Call → Resolver → Resolver × (ResolveError ⊎ List Str)
  with_friend none call r = (r, inl not_friend)
  with_friend (some friend) call r =
      with_pub (unmarshal_friend_pub_key net.keys friend.public_key) call r

  unfoldable pub answer_cached :
      Option CacheEntry → List Friend → Call → Resolver → Resolver × (ResolveError ⊎ List Str)
  answer_cached (some entry) friends call r =
      (r, inr (parse_multiaddrs net.is_multiaddr entry.addresses))
  answer_cached none friends call r = with_friend (find_friend friends call.target) call r

  unfoldable pub resolve : List Friend → Call → Resolver → Resolver × (ResolveError ⊎ List Str)
  resolve friends call r =
      answer_cached (cached call.now call.ttl call.target r.cache) friends call r

-- `InvalidateCache`.
unfoldable pub invalidate_cache : Bool → Str → Resolver → Resolver
invalidate_cache ok target r =
    let cache = r.cache in
    elim cache [ none ↦ r | some c ↦ record r { cache = some (invalidate ok target c) } ]

unfoldable pub program : Unit {0}
unfolding parse_multiaddrs young cached remember find_friend decoded looked_up with_key with_secret
    with_pub with_friend answer_cached resolve invalidate_cache
program = tt
