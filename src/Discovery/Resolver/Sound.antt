-- ===== src/Discovery/Resolver/Sound.antt =====
-- internal/discovery/resolver.go: where the addresses come from.
use mathlib.Core.Path.{◌≡◌, refl, sym, ◌∙◌, ap}
use opencom.Base.{
  ℕ, suc, ◌+◌, ◌<◌, Bool, true, false, Option, none, some, List, Str, str_eq, ◌≢◌, ◌⊎◌, inl, inr,
  arith,
}
use opencom.Base.Dict.{lookup, insert, lookup-insert}
use opencom.Friends.Store.{Friend}
use opencom.Discovery.Cache.{CacheEntry, Cache, get, set, flush}
use opencom.Discovery.Keys.{
  KeyError, derive_shared_secret, derive_dht_key, unmarshal_friend_pub_key,
}
use opencom.Discovery.Record.{Record, DecodeError, decode}
use opencom.Discovery.Record.Sealed.{Genuine, decode-Genuine}
use opencom.Discovery.Resolver.{
  ResolveError, lookup_failed, no_secret, no_key, not_friend, bad_public_key, Network, Resolver,
  parse_multiaddrs, young, cached, remember, remembered, find_friend, Call, decoded, looked_up,
  with_key, with_secret, with_pub, with_friend, answer_cached, resolve,
}

failed : (e : ResolveError) (addrs : List Str) → inl e ≢ inr addrs
failed e addrs h = cc

given : (l addrs : List Str) → ◌≡◌ {A = ResolveError ⊎ List Str} (inr l) (inr addrs) → addrs ≡ l
given l addrs h = cc

flush-entries : (ok : Bool) (c : Cache) → (flush ok c).entries ≡ c.entries
unfolding flush
flush-entries true c = refl
flush-entries false c = refl

get-set :
    (ok : Bool) (now : ℕ) (p q : Str) (l : List Str) (c : Cache)
    → q ≡ p
    → get q (set ok now p l c) ≡ some (record { addresses = l; fetched_at = now })
unfolding get set
get-set ok now p q l c same =
    let e : CacheEntry = record { addresses = l; fetched_at = now } in
    ap (lookup q) (flush-entries ok (record c { entries = insert p e c.entries }))
    ∙ lookup-insert p q e c.entries
    ∙ rw ((str_eq.eqb_iff p q).1 (sym same)) refl

young_entry :
    (now ttl : ℕ) (e : CacheEntry) → now < e.fetched_at + ttl → young now ttl (some e) ≡ some e
unfolding young
young_entry now ttl e soon = ground arith

module _ (net : Network) where
  -- A lookup that succeeded: the target is a friend, the record was found under the key of the pair,
  -- and it is genuine under the friend's public key.
  pub record Fetched (friends : List Friend) (call : Call) (addrs : List Str) : Type 0 where
    pub friend : Friend
    pub public_key : net.keys.PubKey
    pub secret : Str
    pub key : Str
    pub blob : Str
    pub found : Record
    pub is_friend : find_friend friends call.target ≡ some friend
    pub parsed : unmarshal_friend_pub_key net.keys friend.public_key ≡ some public_key
    pub shared : derive_shared_secret net.keys net.my_priv public_key ≡ inr secret
    pub derived : derive_dht_key net.keys secret net.my_pub public_key ≡ inr key
    pub stored : net.get_value key ≡ some blob
    pub genuine :
        Genuine net.ciphers blob
          (net.encryption_key secret)
          (net.signer public_key)
          call.now
          call.ttl
          found
    pub given : addrs ≡ parse_multiaddrs net.is_multiaddr found.addresses

  -- An answer is the entry of the cache, young enough, and nothing changed; or it was looked up once
  -- and put into the cache.
  pub data Answered (friends : List Friend) (call : Call) (r r' : Resolver) (addrs : List Str)
      : Type 0 where
    from_cache :
        (entry : CacheEntry)
        → cached call.now call.ttl call.target r.cache ≡ some entry
        → r' ≡ r
        → addrs ≡ parse_multiaddrs net.is_multiaddr entry.addresses
        → Answered friends call r r' addrs
    from_dht :
        (f : Fetched friends call addrs)
        → cached call.now call.ttl call.target r.cache ≡ none
        → r' ≡ remembered call f.found.addresses (record r { lookups = suc r.lookups })
        → Answered friends call r r' addrs

  abbrev Result : Type 0
  Result = Resolver × (ResolveError ⊎ List Str)

  decoded-inr :
      (d : DecodeError ⊎ Record) (call : Call) (r r' : Resolver) (addrs : List Str)
      → decoded net d call r ≡ (r', inr addrs)
      → (rec : Record) × (d ≡ inr rec)
        × (r' ≡ remembered call rec.addresses r)
        × (addrs ≡ parse_multiaddrs net.is_multiaddr rec.addresses)
  unfolding decoded
  decoded-inr (inl e) call r r' addrs h =
      absurd (failed lookup_failed addrs (ap (λ (x : Result). x.1) h))
  decoded-inr (inr rec) call r r' addrs h = (
    rec,
    refl,
    sym (ap (λ (x : Result). x.0) h),
    given (parse_multiaddrs net.is_multiaddr rec.addresses) addrs (ap (λ (x : Result). x.1) h),
  )

  looked_up-inr :
      (o : Option Str) (p : net.keys.PubKey) (secret : Str) (call : Call) (r r' : Resolver)
      (addrs : List Str)
      → looked_up net o p secret call r ≡ (r', inr addrs)
      → (blob : Str) × (rec : Record) × (o ≡ some blob)
        × Genuine net.ciphers blob (net.encryption_key secret) (net.signer p) call.now call.ttl rec
        × (r' ≡ remembered call rec.addresses r)
        × (addrs ≡ parse_multiaddrs net.is_multiaddr rec.addresses)
  unfolding looked_up
  looked_up-inr none p secret call r r' addrs h =
      absurd (failed lookup_failed addrs (ap (λ (x : Result). x.1) h))
  looked_up-inr (some blob) p secret call r r' addrs h =
      let key = net.encryption_key secret in
      let (rec, read, left, gave) =
        decoded-inr (decode net.ciphers blob key (net.signer p) call.now call.ttl) call r r' addrs
          h in
      (
        blob,
        rec,
        refl,
        decode-Genuine net.ciphers blob key (net.signer p) call.now call.ttl rec read,
        left,
        gave,
      )

  -- The rest of a lookup, from the friend's public key on.
  record FromKey (p : net.keys.PubKey) (call : Call) (r r' : Resolver) (addrs : List Str)
      : Type 0 where
    secret : Str
    key : Str
    blob : Str
    found : Record
    shared : derive_shared_secret net.keys net.my_priv p ≡ inr secret
    derived : derive_dht_key net.keys secret net.my_pub p ≡ inr key
    stored : net.get_value key ≡ some blob
    genuine :
        Genuine net.ciphers blob (net.encryption_key secret) (net.signer p) call.now call.ttl found
    left : r' ≡ remembered call found.addresses (record r { lookups = suc r.lookups })
    given_out : addrs ≡ parse_multiaddrs net.is_multiaddr found.addresses

  with_key-FromKey :
      (o : KeyError ⊎ Str) (p : net.keys.PubKey) (secret : Str) (call : Call) (r r' : Resolver)
      (addrs : List Str)
      → derive_shared_secret net.keys net.my_priv p ≡ inr secret
      → derive_dht_key net.keys secret net.my_pub p ≡ o
      → with_key net o p secret call r ≡ (r', inr addrs)
      → FromKey p call r r' addrs
  unfolding with_key
  with_key-FromKey (inl e) p secret call r r' addrs s k h =
      absurd (failed (no_key e) addrs (ap (λ (x : Result). x.1) h))
  with_key-FromKey (inr key) p secret call r r' addrs s k h =
      let (blob, rec, stored, genuine, left, gave) =
        looked_up-inr (net.get_value key) p secret call (record r { lookups = suc r.lookups }) r'
          addrs h in
      record {
        secret = secret;
        key = key;
        blob = blob;
        found = rec;
        shared = s;
        derived = k;
        stored = stored;
        genuine = genuine;
        left = left;
        given_out = gave;
      }

  with_secret-FromKey :
      (o : KeyError ⊎ Str) (p : net.keys.PubKey) (call : Call) (r r' : Resolver) (addrs : List Str)
      → derive_shared_secret net.keys net.my_priv p ≡ o
      → with_secret net o p call r ≡ (r', inr addrs)
      → FromKey p call r r' addrs
  unfolding with_secret
  with_secret-FromKey (inl e) p call r r' addrs s h =
      absurd (failed (no_secret e) addrs (ap (λ (x : Result). x.1) h))
  with_secret-FromKey (inr secret) p call r r' addrs s h =
      with_key-FromKey (derive_dht_key net.keys secret net.my_pub p) p secret call r r' addrs s refl
        h

  with_pub-FromKey :
      (o : Option net.keys.PubKey) (call : Call) (r r' : Resolver) (addrs : List Str)
      → with_pub net o call r ≡ (r', inr addrs)
      → (p : net.keys.PubKey) × (o ≡ some p) × FromKey p call r r' addrs
  unfolding with_pub
  with_pub-FromKey none call r r' addrs h =
      absurd (failed bad_public_key addrs (ap (λ (x : Result). x.1) h))
  with_pub-FromKey (some p) call r r' addrs h = (
    p,
    refl,
    with_secret-FromKey (derive_shared_secret net.keys net.my_priv p) p call r r' addrs refl h,
  )

  with_friend-Answered :
      (o : Option Friend) (friends : List Friend) (call : Call) (r r' : Resolver) (addrs : List Str)
      → find_friend friends call.target ≡ o
      → cached call.now call.ttl call.target r.cache ≡ none
      → with_friend net o call r ≡ (r', inr addrs)
      → Answered friends call r r' addrs
  unfolding with_friend
  with_friend-Answered none friends call r r' addrs e miss h =
      absurd (failed not_friend addrs (ap (λ (x : Result). x.1) h))
  with_friend-Answered (some friend) friends call r r' addrs e miss h =
      let (p, parsed, k) =
        with_pub-FromKey (unmarshal_friend_pub_key net.keys friend.public_key) call r r' addrs h in
      from_dht
        (record {
          friend = friend;
          public_key = p;
          secret = k.secret;
          key = k.key;
          blob = k.blob;
          found = k.found;
          is_friend = e;
          parsed = parsed;
          shared = k.shared;
          derived = k.derived;
          stored = k.stored;
          genuine = k.genuine;
          given = k.given_out;
        })
        miss k.left

  answer_cached-Answered :
      (o : Option CacheEntry) (friends : List Friend) (call : Call) (r r' : Resolver)
      (addrs : List Str)
      → cached call.now call.ttl call.target r.cache ≡ o
      → answer_cached net o friends call r ≡ (r', inr addrs)
      → Answered friends call r r' addrs
  unfolding answer_cached
  answer_cached-Answered (some entry) friends call r r' addrs e h =
      from_cache entry e (sym (ap (λ (x : Result). x.0) h)) (
        given (parse_multiaddrs net.is_multiaddr entry.addresses) addrs
          (ap (λ (x : Result). x.1) h))
  answer_cached-Answered none friends call r r' addrs e h =
      with_friend-Answered (find_friend friends call.target) friends call r r' addrs refl e h

  -- When `Resolve` returns addresses, they are those of a cache entry that is younger than the TTL, and
  -- nothing changed; or else there was no such entry, the target is a friend, and they are those of a
  -- record found under the key of the pair and genuine under the friend's public key, which took one
  -- lookup and is now in the cache, if there is one.
  pub resolve-Answered :
      (friends : List Friend) (call : Call) (r r' : Resolver) (addrs : List Str)
      → resolve net friends call r ≡ (r', inr addrs)
      → Answered friends call r r' addrs
  unfolding resolve
  resolve-Answered friends call r r' addrs h =
      answer_cached-Answered (cached call.now call.ttl call.target r.cache) friends call r r' addrs
        refl h

  fresh_again :
      (o : Option Cache) (c : Cache) (call again : Call) (l : List Str)
      → o ≡ some c
      → again.target ≡ call.target
      → again.now < call.now + again.ttl
      → cached again.now again.ttl again.target (remember call.write_ok call.now call.target l o)
        ≡ some (record { addresses = l; fetched_at = call.now })
  unfolding cached remember
  fresh_again none c call again l e same soon = cc
  fresh_again (some d) c call again l e same soon =
      ap (young again.now again.ttl)
        (get-set call.write_ok call.now call.target again.target l d same)
      ∙ young_entry again.now again.ttl (record { addresses = l; fetched_at = call.now }) soon

  again_of :
      (friends : List Friend) (call again : Call) (r r' : Resolver) (addrs : List Str) (c : Cache)
      → r.cache ≡ some c
      → again.target ≡ call.target
      → again.now < call.now + again.ttl
      → r'.lookups ≢ r.lookups
      → Answered friends call r r' addrs
      → resolve net friends again r' ≡ (r', inr addrs)
  unfolding resolve
  again_of friends call again r r' addrs c e same soon moved (from_cache entry hit still gave) =
      absurd (moved (ap (λ (x : Resolver). x.lookups) still))
  again_of friends call again r r' addrs c e same soon moved (from_dht f miss left) =
      let kept : cached again.now again.ttl again.target r'.cache
          ≡ some (record { addresses = f.found.addresses; fetched_at = call.now }) =
        ap (λ (x : Resolver). cached again.now again.ttl again.target x.cache) left
        ∙ fresh_again r.cache c call again f.found.addresses e same soon in
      ap (λ o. answer_cached net o friends again r') kept
      ∙ unfold answer_cached in ap (λ l. (r', inr l)) (sym f.given)

  -- With a cache, a `Resolve` of the same target that comes less than its TTL after one that asked the
  -- table gives the same addresses, and does not ask again: nothing changes.
  pub resolve_again :
      (friends : List Friend) (call again : Call) (r r' : Resolver) (addrs : List Str) (c : Cache)
      → resolve net friends call r ≡ (r', inr addrs)
      → r.cache ≡ some c
      → again.target ≡ call.target
      → again.now < call.now + again.ttl
      → r'.lookups ≢ r.lookups
      → resolve net friends again r' ≡ (r', inr addrs)
  resolve_again friends call again r r' addrs c h e same soon moved =
      again_of friends call again r r' addrs c e same soon moved
        (resolve-Answered friends call r r' addrs h)
