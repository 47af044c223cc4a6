-- ===== src/Discovery/Publisher/Tests.antt =====
-- internal/discovery: Alice publishes for Bob, with concrete keys and ciphers.
use mathlib.Core.Path.{◌≡◌, refl, sym, ap}
use opencom.Base.{
  ℕ, zero, suc, ◌*◌, true, false, Option, none, some, List, [], ◌∷◌, ◌++◌, Str, str_beq,
  str_beq_iff, str_eq, ◌==◌, drop, codes, inr, arith,
}
use opencom.Base.Int.{ℤ, pos, negsuc}
use opencom.Friends.Store.{Friend, program as friends_program}
use opencom.Discovery.Keys.{KeyOps, program as keys_program}
use opencom.Discovery.Keys.Symmetric.{Party}
use opencom.Discovery.Record.{Ciphers, Record, program as record_program}
use opencom.Discovery.Record.Sealed.{Laws}
use opencom.Discovery.Resolver.{
  Resolver, Call, remembered, parse_multiaddrs, resolve, program as resolver_program,
}
use opencom.Discovery.Publisher.{Turn, publish_friend}
use opencom.Discovery.Publisher.Delivery.{Pair, publisher, network, resolve-publish}

abbrev repeat : ℕ → ℕ → Str
repeat zero n = []
repeat (suc count) n = n ∷ repeat count n

abbrev head : Str → ℕ
head [] = 0
head (n ∷ s) = n

-- A key is a number, and the curve multiplies.
abbrev curve : KeyOps
curve = record {
  PrivKey = ℕ;
  PubKey = ℕ;
  priv_is_ed25519 = λ n. true;
  pub_is_ed25519 = λ n. true;
  priv_raw = λ n. some (repeat 64 n);
  pub_raw = λ n. some (repeat 32 n);
  get_public = λ n. n;
  to_x25519_private = λ s. some (head s ∷ []);
  to_x25519_public = λ s. some (head s ∷ []);
  x25519 = λ a b. some (head a * head b ∷ []);
  sha256 = λ s. s;
  decode_string = λ s. some s;
  unmarshal_public_key = λ s. some (head s);
  hex_encode = λ s. s;
}

person : (n : ℕ) → Party curve n
unfolding keys_program
person n = record {
  raw_priv = repeat 64 n;
  raw_pub = repeat 32 n;
  x_priv = n ∷ [];
  x_pub = n ∷ [];
  priv_bytes = refl;
  pub_bytes = refl;
  own_bytes = refl;
  priv_x = refl;
  pub_x = refl;
}

-- The text of a record with one address is its version, its time and the address.
abbrev write : ℕ → List Str → ℤ → Option Str
write v (a ∷ []) (pos t) = some (v ∷ t ∷ a)
write v (a ∷ []) (negsuc t) = none
write v [] t = none
write v (a ∷ b ∷ l) t = none

abbrev read : Str → Option Record
read (v ∷ t ∷ a) = some (record { version = v; addresses = a ∷ []; timestamp = pos t })
read (v ∷ []) = none
read [] = none

abbrev ciphers : Ciphers
ciphers = record {
  PrivKey = ℕ;
  PubKey = ℕ;
  get_public = λ k. k;
  sign = λ k m. some (repeat 64 k);
  verify = λ k m s. some (str_beq s (repeat 64 k));
  seal = λ key nonce p. repeat 16 0 ++ p;
  open_sealed = λ key nonce ct. some (drop 16 ct);
  marshal = λ r. write r.version r.addresses r.timestamp;
  unmarshal = read;
}

abbrev or_empty : Option Str → Str
or_empty none = []
or_empty (some s) = s

signed : (s : Str) (k : ℕ) → some (repeat 64 k) ≡ some s → str_beq s (repeat 64 k) ≡ true
signed s k h = (str_beq_iff s (repeat 64 k)).1 (sym (ap (or_empty) h))

read_text :
    (p : Str) (v t : ℕ) (a : Str)
    → some (v ∷ t ∷ a) ≡ some p
    → read p ≡ some (record { version = v; addresses = a ∷ []; timestamp = pos t })
read_text p v t a h = ap read (sym (ap or_empty h))

read-write :
    (v : ℕ) (l : List Str) (t : ℤ) (p : Str)
    → write v l t ≡ some p
    → read p ≡ some (record { version = v; addresses = l; timestamp = t })
read-write v [] t p h = cc
read-write v (a ∷ []) (pos t) p h = read_text p v t a h
read-write v (a ∷ []) (negsuc t) p h = cc
read-write v (a ∷ b ∷ l) t p h = cc

lawful : Laws ciphers
lawful = record {
  verify-sign = λ k m s h. ap some (signed s k h);
  open-seal = λ key nonce p. refl;
  length-seal = λ key nonce p. omega arith;
  unmarshal-marshal = λ r p h. read-write r.version r.addresses r.timestamp p h;
}

different : ((person 3).raw_pub == (person 5).raw_pub) ≡ false
unfolding person str_beq
different = refl

same_secret :
    curve.x25519 (person 3).x_priv (person 5).x_pub
    ≡ curve.x25519 (person 5).x_priv (person 3).x_pub
unfolding person
same_secret = refl

abbrev pair : Pair curve ciphers
pair = record {
  alice = 3;
  bob = 5;
  alice_party = person 3;
  bob_party = person 5;
  apart = different;
  commutes = same_secret;
  sign_key = 3;
  signer = λ p. p;
  same_key = refl;
  encryption_key = λ s. s;
  is_multiaddr = λ s. true;
}

abbrev friend_of : Str → ℕ → Friend
friend_of id key = record {
  name = id;
  peer_id = id;
  public_key = key ∷ [];
  added_at = 1;
  rendezvous_hint = [];
}

abbrev nonce : Str
nonce = repeat 24 9

abbrev turn : Turn
turn = record { friend = friend_of (codes "bob") 5; nonce = some nonce; put_ok = true }

abbrev addresses : List Str
addresses = codes "/ip4" ∷ []

abbrev published : Record
published = record { version = 1; addresses = addresses; timestamp = pos 0 }

abbrev blob : Str
blob = repeat 64 3 ++ (nonce ++ (repeat 16 0 ++ (1 ∷ 0 ∷ codes "/ip4")))

abbrev call : Call
call = record { now = 5; ttl = 10; write_ok = true; target = codes "alice" }

abbrev resolver : Resolver
resolver = record { cache = none; lookups = 0 }

resolve-publish_example :
    resolve
      (network curve ciphers pair (publish_friend (publisher curve ciphers pair) published turn []))
      (friend_of (codes "alice") 3 ∷ [])
      call
      resolver
    ≡ (
      remembered call addresses (record { cache = none; lookups = 1 }),
      inr (parse_multiaddrs (λ s. true) addresses),
    )
unfolding friends_program keys_program record_program resolver_program str_beq
resolve-publish_example =
    resolve-publish curve ciphers pair lawful published turn [] nonce (15 ∷ []) blob
      (friend_of (codes "alice") 3 ∷ []) call resolver (friend_of (codes "alice") 3) refl refl refl
      refl refl refl refl refl refl refl refl
