-- ===== src/Invite/Redeem.antt =====
-- internal/invite/manager.go: Create and Revoke (and in Invitee, Redeem and RedeemURL), over the state of Invite/Handshake.
-- libp2p's keys, the ciphers and JSON are the parameter `InviteCrypto`; the DHT is a table, and the
-- network is what it answers. Times are in nanoseconds, except those in Unix seconds.
pub mod Invitee
pub mod Targets
pub mod Created
pub mod Together
pub mod Sound
mod Tests
use opencom.Base.{
  ℕ, ◌+◌, ◌*◌, ◌/◌, ◌^◌, Bool, true, false, not, ◌&&◌, ◌||◌, Option, none, some, List, [], ◌∷◌,
  ◌++◌, Str, str_eq, nat_eq, codes, ◌==◌, if◌then◌else◌, ltb, ◌⊎◌, inl, inr,
}
use opencom.Base.Int.{ℤ, pos, negsuc, ltb_ℤ}
use opencom.Base.Dict.{Dict, lookup, insert}
use opencom.Base.Result.{◌>>=◌, ◌>>◌, check, or_error}
use opencom.Base.Base64
use opencom.Base.Base64.{std_encoding}
use opencom.Friends.Store.{Friend, StoreError, Store as FriendStore, add as add_friend}
use opencom.Invite.Code.{Code, generate}
use opencom.Invite.Store
use opencom.Invite.Store.{Entry}
use opencom.Invite.Url.{
  UrlPayload, UrlError, UrlKeys, VerifyError, Unicode, sign_url, format_url, parse_url, verify_url,
}
use opencom.Invite.Record.{
  InviteRecord, RecordCiphers, EncodeError, DecodeError, derive_dht_key, derive_encryption_key,
  encode_record, decode_record, decode_unverified, record_version,
}
use opencom.Invite.Handshake.{Hello, Response, Manager, type_redeem, type_accept, type_reject}

pub record InviteCrypto : Type 1 where
  pub PrivKey : Type 0
  pub PubKey : Type 0
  pub sign : PrivKey → Str → Option Str
  pub verify : PubKey → Str → Str → Option Bool
  pub marshal_public_key : PubKey → Option Str
  pub unmarshal_public_key : Str → Option PubKey
  pub id_from_public_key : PubKey → Option Str
  pub seal : Str → Str → Str → Str
  pub open_sealed : Str → Str → Str → Option Str
  pub marshal : InviteRecord → Option Str
  pub unmarshal : Str → Option InviteRecord
  pub sha256 : Str → Str
  pub hkdf : Str → Str → Str

abbrev pub url_keys : InviteCrypto → UrlKeys
url_keys c = record {
  PrivKey = c.PrivKey;
  PubKey = c.PubKey;
  sign = c.sign;
  verify = c.verify;
  unmarshal_public_key = c.unmarshal_public_key;
  id_from_public_key = c.id_from_public_key;
}

abbrev pub record_ciphers : InviteCrypto → RecordCiphers
record_ciphers c = record {
  PrivKey = c.PrivKey;
  PubKey = c.PubKey;
  sign = c.sign;
  verify = c.verify;
  seal = c.seal;
  open_sealed = c.open_sealed;
  marshal = c.marshal;
  unmarshal = c.unmarshal;
  sha256 = c.sha256;
  hkdf = c.hkdf;
}

abbrev pub second : ℕ
second = 10 ^ 9

abbrev pub max_ttl : ℕ
max_ttl = 30 * 60 * second

-- The first `if` of Create.
unfoldable pub clamp_ttl : ℤ → ℕ
clamp_ttl (pos n) = if n == 0 || ltb max_ttl n then max_ttl else n
clamp_ttl (negsuc n) = max_ttl

-- The five bytes of a new code.
pub record Draw : Type 0 where
  pub b0 : ℕ
  pub b1 : ℕ
  pub b2 : ℕ
  pub b3 : ℕ
  pub b4 : ℕ

abbrev pub code_of : Draw → Code
code_of d = generate d.b0 d.b1 d.b2 d.b3 d.b4

-- What one run of Create reads: its argument, the random bytes, the clock, and the outcomes of the
-- write and of PutValue.
pub record CreateWorld : Type 0 where
  pub ttl : ℤ
  pub random : Option Draw
  pub now : ℕ
  pub now_created : ℕ
  pub add_ok : Bool
  pub nonce : Option Str
  pub put_ok : Bool

pub record CreateResult : Type 0 where
  pub code : Code
  pub url : Str
  pub expires_at : ℕ
  pub published : Bool

-- The errors of Create, all before any change.
pub data CreateError : Type 0 where
  no_code no_public_key no_signature : CreateError

-- `Revoke`.
unfoldable pub revoke : Bool → Code → Manager → Manager × Bool
revoke ok c m = let (s, removed) = Store.remove ok c m.store in (record m { store = s }, removed)

module _ (c : InviteCrypto) where
  -- The manager's own keys and names.
  pub record Host : Type 0 where
    pub priv : c.PrivKey
    pub pub_key : c.PubKey
    pub id : Str
    pub display_name : Str
    pub invite_addrs : List Str

  abbrev pub payload_of : Host → Str → Code → ℕ → UrlPayload
  payload_of h key code expires = record {
    peer_id = h.id;
    public_key = Base64.encode std_encoding key;
    addresses = h.invite_addrs;
    display_name = h.display_name;
    code = code;
    expires_at = pos (expires / second);
    signature = [];
  }

  abbrev pub record_of : Host → Str → ℕ → InviteRecord
  record_of h key expires = record {
    version = record_version;
    peer_id = h.id;
    public_key = Base64.encode std_encoding key;
    addresses = h.invite_addrs;
    display_name = h.display_name;
    expires_at = pos (expires / second);
  }

  -- PutValue of the encoded record.
  unfoldable pub publish : EncodeError ⊎ Str → Bool → Str → Dict Str Str → Dict Str Str × Bool
  publish (inl err) ok key table = (table, false)
  publish (inr blob) false key table = (table, false)
  publish (inr blob) true key table = (insert key blob table, true)

  abbrev pub new_entry : Code → ℕ → ℕ → Entry
  new_entry code expires created = record {
    code = code;
    expires_at = expires;
    consumed = false;
    consumed_by = [];
    created_at = created;
  }

  -- Create once the URL is signed.
  unfoldable pub store_and_publish :
      Host
      → CreateWorld
      → Code
      → ℕ
      → Str
      → UrlPayload
      → Manager
      → Dict Str Str
      → CreateResult × Manager × Dict Str Str
  store_and_publish h w code expires key signed m table =
      let (store, added) = Store.add w.add_ok (new_entry code expires w.now_created) m.store in
      let (table', published) =
        publish
          (encode_record (record_ciphers c) (record_of h key expires)
            (derive_encryption_key (record_ciphers c) code) h.priv w.nonce)
          w.put_ok (derive_dht_key (record_ciphers c) code) table in
      (
        record {
          code = code;
          url = format_url signed;
          expires_at = expires;
          published = published;
        },
        record m { store = store },
        table',
      )

  -- `Create`.
  unfoldable pub create :
      Host
      → CreateWorld
      → Manager
      → Dict Str Str
      → CreateError ⊎ (CreateResult × Manager × Dict Str Str)
  create h w m table = do
    draw ← or_error no_code w.random
    let expires = w.now + clamp_ttl w.ttl
    key ← or_error no_public_key (c.marshal_public_key h.pub_key)
    signed ←
        or_error no_signature
          (sign_url (url_keys c) (payload_of h key (code_of draw) expires) h.priv)
    inr (store_and_publish h w (code_of draw) expires key signed m table)

unfoldable pub program : Unit {0}
unfolding clamp_ttl revoke publish store_and_publish create
program = tt
