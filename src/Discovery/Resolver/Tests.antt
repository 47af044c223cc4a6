-- ===== src/Discovery/Resolver/Tests.antt =====
-- internal/discovery/resolver.go: a lookup and its repetition on a concrete network.
use mathlib.Core.Path.{◌≡◌, refl}
use mathlib.Core.Logic.{◌≢◌}
use opencom.Base.{
  ℕ, zero, suc, true, none, some, List, [], ◌∷◌, ◌++◌, Str, str_beq, codes, inl, inr, arith,
}
use opencom.Base.Int.{pos}
use opencom.Friends.Store.{Friend, program as friends_program}
use opencom.Discovery.Cache.{Cache, CacheEntry, program as cache_program}
use opencom.Discovery.Keys.{KeyOps, program as keys_program}
use opencom.Discovery.Record.{Ciphers, Record, program as record_program}
use opencom.Discovery.Resolver.{Network, Resolver, Call, resolve, not_friend, program}
use opencom.Discovery.Resolver.Sound.{Answered, resolve-Answered}

abbrev repeat : ℕ → ℕ → Str
repeat zero n = []
repeat (suc count) n = n ∷ repeat count n

abbrev head : Str → ℕ
head [] = 0
head (n ∷ s) = n

abbrev ops : KeyOps
ops = record {
  PrivKey = ℕ;
  PubKey = ℕ;
  priv_is_ed25519 = λ n. true;
  pub_is_ed25519 = λ n. true;
  priv_raw = λ n. some (repeat 64 n);
  pub_raw = λ n. some (repeat 32 n);
  get_public = λ n. n;
  to_x25519_private = λ s. some (head s ∷ []);
  to_x25519_public = λ s. some (head s ∷ []);
  x25519 = λ a b. some (a ++ b);
  sha256 = λ s. s;
  decode_string = λ s. some s;
  unmarshal_public_key = λ s. some (head s);
  hex_encode = λ s. s;
}

abbrev published : Record
published = record { version = 1; addresses = codes "/ip4" ∷ codes "junk" ∷ []; timestamp = pos 0 }

-- Every text opens to the one record.
abbrev ciphers : Ciphers
ciphers = record {
  PrivKey = ℕ;
  PubKey = ℕ;
  get_public = λ k. k;
  sign = λ k m. none;
  verify = λ k m s. some true;
  seal = λ key nonce p. p;
  open_sealed = λ key nonce ct. some [];
  marshal = λ r. none;
  unmarshal = λ s. some published;
}

abbrev net : Network
net = record {
  keys = ops;
  ciphers = ciphers;
  signer = λ p. p;
  encryption_key = λ s. s;
  get_value = λ key. some (repeat 104 7);
  my_priv = 3;
  my_pub = 3;
  is_multiaddr = λ s. str_beq s (codes "/ip4");
}

abbrev friends : List Friend
friends =
    record {
      name = codes "Bob";
      peer_id = codes "bob";
      public_key = 5 ∷ [];
      added_at = 1;
      rendezvous_hint = [];
    }
    ∷ []

abbrev call_at : ℕ → Call
call_at now = record { now = now; ttl = 10; write_ok = true; target = codes "bob" }

abbrev empty_cache : Cache
empty_cache = record { entries = []; disk = [] }

abbrev before : Resolver
before = record { cache = some empty_cache; lookups = 0 }

abbrev filled : CacheEntry
filled = record { addresses = codes "/ip4" ∷ codes "junk" ∷ []; fetched_at = 2 }

abbrev after : Resolver
after = record {
  cache = some (record { entries = (codes "bob", filled) ∷ []; disk = (codes "bob", filled) ∷ [] });
  lookups = 1;
}

found : resolve net friends (call_at 2) before ≡ (after, inr (codes "/ip4" ∷ []))
unfolding program friends_program cache_program keys_program record_program str_beq
found = refl

stranger : resolve net [] (call_at 2) before ≡ (before, inl not_friend)
unfolding program friends_program cache_program keys_program record_program str_beq
stranger = refl

resolve-Answered_example : Answered net friends (call_at 2) before after (codes "/ip4" ∷ [])
resolve-Answered_example =
    resolve-Answered net friends (call_at 2) before after (codes "/ip4" ∷ []) found

one_lookup : after.lookups ≢ before.lookups
one_lookup e = absurd (omega (arith, e))
