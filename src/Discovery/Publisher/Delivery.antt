-- ===== src/Discovery/Publisher/Delivery.antt =====
-- internal/discovery: what a friend publishes, the other one's resolver finds.
use mathlib.Core.Path.{◌≡◌, refl, sym, ◌∙◌, ap}
use opencom.Base.{suc, Bool, true, false, none, some, List, Str, str_eq, ◌==◌, inr, length}
use opencom.Base.Dict.{lookup, insert, lookup-insert}
use opencom.Friends.Store.{Friend}
use opencom.Discovery.Keys.{
  unmarshal_friend_pub_key, KeyOps, derive_shared_secret, derive_dht_key, hash_key, canonical_order,
}
use opencom.Discovery.Keys.Symmetric.{Party, derive_shared_secret_comm, derive_dht_key_comm}
use opencom.Discovery.Record.{Ciphers, Record, encode, decode, is_stale}
use opencom.Discovery.Record.Sealed.{Laws, decode-encode}
use opencom.Discovery.Resolver.{
  Network, Resolver, parse_multiaddrs, cached, remembered, find_friend, Call, decoded, looked_up,
  with_key, with_secret, with_pub, with_friend, answer_cached, resolve,
}
use opencom.Discovery.Publisher.{
  Table, Publisher, Turn, put_value, put_encoded, put_keyed, put_secret, put_pub, publish_friend,
}

-- Alice publishes, Bob resolves: the same libraries, and each the other's friend.
pub record Pair (keys : KeyOps) (ciphers : Ciphers) : Type 1 where
  pub alice : keys.PrivKey
  pub bob : keys.PrivKey
  pub alice_party : Party keys alice
  pub bob_party : Party keys bob
  pub apart : (alice_party.raw_pub == bob_party.raw_pub) ≡ false
  pub commutes :
      keys.x25519 alice_party.x_priv bob_party.x_pub
      ≡ keys.x25519 bob_party.x_priv alice_party.x_pub
  pub sign_key : ciphers.PrivKey
  pub signer : keys.PubKey → ciphers.PubKey
  pub same_key : signer (keys.get_public alice) ≡ ciphers.get_public sign_key
  pub encryption_key : Str → Str
  pub is_multiaddr : Str → Bool

module _ (keys : KeyOps) (ciphers : Ciphers) (pair : Pair keys ciphers) where
  abbrev pub publisher : Publisher
  publisher = record {
    keys = keys;
    ciphers = ciphers;
    encryption_key = pair.encryption_key;
    signer = pair.alice;
    signer_pub = keys.get_public pair.alice;
    sign_key = pair.sign_key;
  }

  -- Bob's resolver over the table.
  abbrev pub network : Table → Network
  network table = record {
    keys = keys;
    ciphers = ciphers;
    signer = pair.signer;
    encryption_key = pair.encryption_key;
    get_value = λ key. lookup key table;
    my_priv = pair.bob;
    my_pub = keys.get_public pair.bob;
    is_multiaddr = pair.is_multiaddr;
  }

  -- The key of the pair in the table.
  abbrev pair_key : Str → Str
  pair_key secret =
      hash_key keys secret (canonical_order pair.alice_party.raw_pub pair.bob_party.raw_pub)

  alice_key :
      (secret : Str)
      → derive_dht_key keys secret (keys.get_public pair.alice) (keys.get_public pair.bob)
        ≡ inr (pair_key secret)
  alice_key secret =
      (derive_dht_key_comm keys secret pair.alice_party.raw_pub pair.bob_party.raw_pub
        (keys.get_public pair.alice) (keys.get_public pair.bob) pair.alice_party.own_bytes
        pair.bob_party.own_bytes).1

  bob_key :
      (secret : Str)
      → derive_dht_key keys secret (keys.get_public pair.bob) (keys.get_public pair.alice)
        ≡ inr (pair_key secret)
  bob_key secret =
      sym
        (derive_dht_key_comm keys secret pair.alice_party.raw_pub pair.bob_party.raw_pub
          (keys.get_public pair.alice) (keys.get_public pair.bob) pair.alice_party.own_bytes
          pair.bob_party.own_bytes).0
      ∙ alice_key secret

  bob_secret :
      (secret : Str)
      → derive_shared_secret keys pair.alice (keys.get_public pair.bob) ≡ inr secret
      → derive_shared_secret keys pair.bob (keys.get_public pair.alice) ≡ inr secret
  bob_secret secret h =
      sym (
        derive_shared_secret_comm keys pair.alice pair.bob pair.alice_party pair.bob_party
          pair.apart pair.commutes)
      ∙ h

  -- Alice's turn for Bob puts the blob under the key of the pair.
  published :
      (rec : Record) (turn : Turn) (table : Table) (secret blob : Str)
      → unmarshal_friend_pub_key keys turn.friend.public_key ≡ some (keys.get_public pair.bob)
      → derive_shared_secret keys pair.alice (keys.get_public pair.bob) ≡ inr secret
      → encode ciphers rec (pair.encryption_key secret) pair.sign_key turn.nonce ≡ inr blob
      → turn.put_ok ≡ true
      → publish_friend publisher rec turn table ≡ insert (pair_key secret) blob table
  unfolding publish_friend put_pub put_secret put_keyed put_encoded put_value
  published rec turn table secret blob known shared enc ok =
      rw (known, shared, alice_key secret, enc, ok) refl

  received :
      (table : Table) (friends : List Friend) (call : Call) (r : Resolver) (g : Friend)
      (rec : Record) (secret blob : Str)
      → cached call.now call.ttl call.target r.cache ≡ none
      → find_friend friends call.target ≡ some g
      → unmarshal_friend_pub_key keys g.public_key ≡ some (keys.get_public pair.alice)
      → derive_shared_secret keys pair.bob (keys.get_public pair.alice) ≡ inr secret
      → lookup (pair_key secret) table ≡ some blob
      → decode ciphers blob
          (pair.encryption_key secret)
          (pair.signer (keys.get_public pair.alice))
          call.now
          call.ttl
        ≡ inr rec
      → resolve (network table) friends call r ≡ (
        remembered call rec.addresses (record r { lookups = suc r.lookups }),
        inr (parse_multiaddrs pair.is_multiaddr rec.addresses),
      )
  unfolding resolve answer_cached with_friend with_pub with_secret with_key looked_up decoded
  received table friends call r g rec secret blob miss is_friend known shared there read =
      rw (miss, is_friend, known, shared, bob_key secret, there, read) refl

  -- When Alice's turn for Bob derives a secret, encodes with a nonce of 24 bytes and its PutValue
  -- succeeds, then Bob, who has Alice as a friend, no young cache entry for her, and the table as Alice
  -- left it, resolves her to the published addresses that can be parsed, while the record is not older
  -- than his TTL. The two keys differ, X25519 is commutative on them, and the ciphers are lawful.
  pub resolve-publish :
      (laws : Laws ciphers) (rec : Record) (turn : Turn) (table : Table) (nonce secret blob : Str)
      (friends : List Friend) (call : Call) (r : Resolver) (g : Friend)
      → unmarshal_friend_pub_key keys turn.friend.public_key ≡ some (keys.get_public pair.bob)
      → derive_shared_secret keys pair.alice (keys.get_public pair.bob) ≡ inr secret
      → turn.nonce ≡ some nonce
      → length nonce ≡ 24
      → encode ciphers rec (pair.encryption_key secret) pair.sign_key (some nonce) ≡ inr blob
      → turn.put_ok ≡ true
      → rec.version ≡ 1
      → is_stale call.now call.ttl rec.timestamp ≡ false
      → cached call.now call.ttl call.target r.cache ≡ none
      → find_friend friends call.target ≡ some g
      → unmarshal_friend_pub_key keys g.public_key ≡ some (keys.get_public pair.alice)
      → resolve (network (publish_friend publisher rec turn table)) friends call r ≡ (
        remembered call rec.addresses (record r { lookups = suc r.lookups }),
        inr (parse_multiaddrs pair.is_multiaddr rec.addresses),
      )
  resolve-publish laws rec turn table nonce secret blob friends call r g known shared drawn size enc
        ok version fresh miss is_friend knows_alice =
      let put : publish_friend publisher rec turn table ≡ insert (pair_key secret) blob table =
        published rec turn table secret blob known shared
          (ap (λ o. encode ciphers rec (pair.encryption_key secret) pair.sign_key o) drawn ∙ enc)
          ok in
      let there : lookup (pair_key secret) (insert (pair_key secret) blob table) ≡ some blob =
        lookup-insert (pair_key secret) (pair_key secret) blob table
        ∙ rw ((str_eq.eqb_iff (pair_key secret) (pair_key secret)).1 refl) refl in
      let read : decode ciphers blob (pair.encryption_key secret)
            (pair.signer (keys.get_public pair.alice)) call.now call.ttl
          ≡ inr rec =
        ap (λ k. decode ciphers blob (pair.encryption_key secret) k call.now call.ttl) pair.same_key
        ∙ decode-encode ciphers laws rec (pair.encryption_key secret) nonce pair.sign_key blob
            call.now call.ttl enc size version fresh in
      ap (λ t. resolve (network t) friends call r) put
      ∙ received (insert (pair_key secret) blob table) friends call r g rec secret blob miss
          is_friend knows_alice (bob_secret secret shared) there read
