-- ===== src/Invite/Redeem/Tests.antt =====
-- internal/invite/manager.go: alice invites bob, with concrete keys, ciphers and a text of a record.
use mathlib.Core.Path.{◌≡◌, refl, sym, ◌∙◌, ap, subst}
use opencom.Base.{
  ℕ, zero, suc, ◌*◌, ◌/◌, ◌<◌, ◌≤◌, ◌≢◌, true, false, Option, none, some, List, [], ◌∷◌, ◌++◌, Str,
  str_beq, str_beq_iff, str_eq, nat_eq, ◌==◌, codes, inl, inr, arith, take, drop, length, every,
  All-of_every, ltb, ltb→lt, not, take-prefix, drop-prefix,
}
use opencom.Base.Int.{ℤ, pos, negsuc}
use opencom.Base.Dict.{Dict}
use opencom.Base.Text.{Free}
use opencom.Base.Base64.{Bytes}
use opencom.Friends.Store as FriendStore
use opencom.Invite.Url.{Unicode}
use opencom.Invite.Record.{InviteRecord, RecordCiphers}
use opencom.Invite.Record.Sealed.{RecordLaws}
use opencom.Invite.Url.Signing.{Signer}
use opencom.Friends.Store.{str_ltb}
use opencom.Base.Text
use opencom.Base.Base64
use opencom.Base.Query
use opencom.Base.Decimal
use opencom.Invite.Code
use opencom.Invite.Store as InviteStore
use opencom.Invite.Url
use opencom.Invite.Record
use opencom.Invite.Redeem
use opencom.Invite.Redeem.Invitee
use opencom.Invite.Handshake.{Manager, World, handle_stream}
use opencom.Invite.Redeem.{
  InviteCrypto, url_keys, record_ciphers, second, Host, CreateWorld, CreateResult, create,
}
use opencom.Invite.Redeem.Invitee.{Net, RedeemWorld, Target, redeem, redeem_url}
use opencom.Invite.Redeem.Targets.{LawfulHost, inviter_target}
use opencom.Invite.Redeem.Created.{Invited, create-Invited}
use opencom.Invite.Redeem.Together.{handshake_keys, Meeting, Befriended, redeem-Befriended}
use opencom.Invite.Redeem.Sound.{Outcome, redeem_url-Outcome}

abbrev repeat : ℕ → ℕ → Str
repeat zero n = []
repeat (suc count) n = n ∷ repeat count n

-- A text with each string behind its length, for records with one address.
abbrev write : ℕ → Str → Str → List Str → Str → ℤ → Option Str
write v id key (a ∷ []) name (pos t) =
    some (v ∷ t ∷ length id ∷ (id ++ (length key ∷ (key ++ (length a ∷ (a ++ name))))))
write v id key _ name _ = none

abbrev field : Str → Str × Str
field [] = ([], [])
field (n ∷ s) = (take n s, drop n s)

abbrev read : Str → Option InviteRecord
read (v ∷ t ∷ s) =
    let (id, s1) = field s in
    let (key, s2) = field s1 in
    let (addr, name) = field s2 in
    some (record {
      version = v;
      peer_id = id;
      public_key = key;
      addresses = addr ∷ [];
      display_name = name;
      expires_at = pos t;
    })
read _ = none

abbrev crypto : InviteCrypto
crypto = record {
  PrivKey = ℕ;
  PubKey = ℕ;
  sign = λ k m. some (repeat 64 k);
  verify = λ k m s. some (str_beq s (repeat 64 k));
  marshal_public_key = λ k. some (k ∷ []);
  unmarshal_public_key = λ s. elim s [ [] ↦ none | ◌∷◌ k r ↦ some k ];
  id_from_public_key = λ k. some (b'p' ∷ k ∷ []);
  seal = λ key nonce p. repeat 16 0 ++ p;
  open_sealed = λ key nonce ct. some (drop 16 ct);
  marshal = λ r. write r.version r.peer_id r.public_key r.addresses r.display_name r.expires_at;
  unmarshal = read;
  sha256 = λ s. take 4 s;
  hkdf = λ s info. s;
}

read-write :
    (v : ℕ) (id key : Str) (addrs : List Str) (name : Str) (t : ℤ) (p : Str)
    → write v id key addrs name t ≡ some p
    → read p
      ≡ some (record {
        version = v;
        peer_id = id;
        public_key = key;
        addresses = addrs;
        display_name = name;
        expires_at = t;
      })
read-write v id key (a ∷ []) name (pos t) p h =
    let whole : v ∷ t ∷ length id ∷ (id ++ (length key ∷ (key ++ (length a ∷ (a ++ name))))) ≡ p =
      cc in
    ap read (sym whole)
    ∙ rw
        (
          take-prefix (length id) id (length key ∷ (key ++ (length a ∷ (a ++ name)))) refl,
          drop-prefix (length id) id (length key ∷ (key ++ (length a ∷ (a ++ name)))) refl,
          take-prefix (length key) key (length a ∷ (a ++ name)) refl,
          drop-prefix (length key) key (length a ∷ (a ++ name)) refl,
          take-prefix (length a) a name refl,
          drop-prefix (length a) a name refl,
        )
        refl
read-write v id key (a ∷ []) name (negsuc t) p h = cc
read-write v id key [] name t p h = cc
read-write v id key (a ∷ b ∷ l) name t p h = cc

signed : (s : Str) (k : ℕ) → some (repeat 64 k) ≡ some s → repeat 64 k ≡ s
signed s k h = cc

values-Bytes : (s : Str) → every (λ c. ltb c 256) s ≡ true → Bytes s
values-Bytes s h = All-of_every (λ c. c < 256) (λ c. ltb c 256) s (λ c e. ltb→lt c 256 e) h

no_breaks : (s : Str) → every (λ c. not (c == b'\n')) s ≡ true → Free b'\n' s
no_breaks s h =
    All-of_every (λ c. c ≢ b'\n') (λ c. not (c == b'\n')) s
      (λ c e. ground (arith, e, nat_eq.eqb_iff c b'\n')) h

crypto-RecordLaws : RecordLaws (record_ciphers crypto) 7 7
crypto-RecordLaws = record {
  verify-sign = λ m s h. ap some ((str_beq_iff s (repeat 64 7)).1 (sym (signed s 7 h)));
  open-seal = λ key nonce p. refl;
  length-seal = λ key nonce p. omega arith;
  unmarshal-marshal = λ r p h.
      read-write r.version r.peer_id r.public_key r.addresses r.display_name r.expires_at p h;
}

crypto-Signer : Signer (url_keys crypto) 7 7
crypto-Signer = record {
  verify-sign = λ m s h. ap some ((str_beq_iff s (repeat 64 7)).1 (sym (signed s 7 h)));
  bytes = λ m s h. subst Bytes (signed s 7 h) (values-Bytes (repeat 64 7) refl);
  nonempty = λ m s h e. cc (signed s 7 h, e);
}

abbrev host : ℕ → Str → Host crypto
host k name = record {
  priv = k;
  pub_key = k;
  id = b'p' ∷ k ∷ [];
  display_name = name;
  invite_addrs = codes "/ip4/1" ∷ [];
}

abbrev alice : Host crypto
alice = host 7 (codes "alice")

abbrev bob : Host crypto
bob = host 8 (codes "bob")

alice-LawfulHost : LawfulHost crypto alice (7 ∷ [])
alice-LawfulHost = record {
  marshals = refl;
  parses = refl;
  identity = refl;
  key_bytes = values-Bytes (7 ∷ []) refl;
  key_nonempty = λ e. cc;
  signs = crypto-Signer;
  seals = crypto-RecordLaws;
  id_bytes = values-Bytes alice.id refl;
  id_nonempty = λ e. cc;
  name_bytes = values-Bytes (codes "alice") refl;
  first = codes "/ip4/1";
  more = [];
  addresses = refl;
  lines = (
    record {
      one_line = no_breaks (codes "/ip4/1") refl;
      bytes = values-Bytes (codes "/ip4/1") refl;
      nonempty = λ e. cc;
    },
    tt,
  );
}

abbrev unicode : Unicode
unicode = record { lower = λ s. s; runes = λ s. s; upper = λ c. c }

abbrev empty : Manager
empty = record {
  store = record { entries = []; disk = [] };
  friends = record { friends = []; disk = [] };
  redeem_subs = [];
}

-- Ten minutes, five random bytes, and no failure.
abbrev world : CreateWorld
world = record {
  ttl = pos (600 * second);
  random = some (record { b0 = 1; b1 = 2; b2 = 3; b3 = 4; b4 = 255 });
  now = 5 * second;
  now_created = 6 * second;
  add_ok = true;
  nonce = some (repeat 24 9);
  put_ok = true;
}

abbrev made : CreateResult × Manager × Dict Str Str
made = elim (create crypto alice world empty []) [
  | inl err ↦ (record { code = []; url = []; expires_at = 0; published = false }, empty, [])
  | inr r ↦ r
]

created : create crypto alice world empty [] ≡ inr made
unfolding Redeem.program Invitee.program Url.program Record.program Base64.program Text.program
    Query.program Decimal.program InviteStore.program Code.program str_beq str_ltb
created = refl

expires : made.0.expires_at ≡ 605 * second
unfolding Redeem.program Invitee.program Url.program Record.program Base64.program Text.program
    Query.program Decimal.program InviteStore.program Code.program str_beq str_ltb
expires = refl

nonce_length : (n : Str) → some (repeat 24 9) ≡ some n → length n ≡ 24
nonce_length n h = let same : repeat 24 9 ≡ n = cc in ap length (sym same)

create-Invited_example : Invited crypto alice (7 ∷ []) world unicode 500 made.0 made.1 made.2
create-Invited_example =
    create-Invited crypto alice (7 ∷ []) world unicode 500 empty made.1 [] made.2 made.0
      alice-LawfulHost (omega arith) (λ n h. nonce_length n h) created
      (subst (λ n. 500 ≤ n / second) (sym expires) (omega arith))

-- Alice answers in time, and both lists of friends are empty.
abbrev at_alice : World
at_alice = record {
  now_check = 10 * second;
  now_mark = 11 * second;
  now_added = 12 * second;
  now_event = 13 * second;
  mark_ok = true;
  friend_ok = true;
  unmark_ok = true;
}

abbrev net : Net
net = record {
  is_multiaddr = λ s. true;
  opens = λ addrs id. true;
  sends = λ hello. true;
  responds = λ id hello.
      (handle_stream (handshake_keys crypto alice) at_alice bob.id (some hello) made.1).1;
}

abbrev at_bob : RedeemWorld
at_bob = record { now_unix = 500; now_added = 14 * second; friend_ok = true }

abbrev target : Target
target = inviter_target crypto alice (7 ∷ []) made.0.code

meeting :
    Meeting crypto alice bob
      (7 ∷ [])
      (8 ∷ [])
      net
      at_alice
      at_bob
      target
      made.0.expires_at
      made.1
      empty
unfolding Redeem.program Invitee.program Url.program Record.program Base64.program Text.program
    Query.program Decimal.program InviteStore.program Code.program FriendStore.program str_beq
    str_ltb
meeting = record {
  alice_marshals = refl;
  bob_marshals = refl;
  bob_parses = refl;
  bob_identity = refl;
  bob_bytes = values-Bytes (8 ∷ []) refl;
  opens = refl;
  sends = refl;
  responds = refl;
  checked_in_time = omega arith;
  marked_in_time = omega arith;
  alice_adds = refl;
  bob_adds = refl;
}

redeem-Befriended_example :
    Befriended crypto alice bob
      (7 ∷ [])
      (8 ∷ [])
      at_alice
      at_bob
      target
      made.1
      (redeem_url crypto net bob at_bob unicode made.0.url empty)
    × (made.0.published ≡ true
        → Befriended crypto alice bob
            (7 ∷ [])
            (8 ∷ [])
            at_alice
            at_bob
            target
            made.1
            (redeem crypto net bob at_bob made.0.code made.2 empty))
redeem-Befriended_example =
    redeem-Befriended crypto alice bob (7 ∷ []) (8 ∷ []) world unicode net at_alice at_bob made.0
      made.1 empty made.2 create-Invited_example meeting

redeem_url-Outcome_example :
    Outcome crypto net bob at_bob unicode made.0.url empty
      (redeem_url crypto net bob at_bob unicode made.0.url empty)
redeem_url-Outcome_example = redeem_url-Outcome crypto net bob at_bob unicode made.0.url empty
