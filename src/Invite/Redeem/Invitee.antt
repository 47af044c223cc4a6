-- ===== src/Invite/Redeem/Invitee.antt =====
-- internal/invite/manager.go: Redeem, RedeemURL and dialAndHandshake.
use opencom.Base.{
  ℕ, Bool, not, ◌&&◌, Option, none, some, List, [], ◌∷◌, Str, str_eq, nat_eq, ◌==◌, if◌then◌else◌,
  ◌⊎◌, inl, inr,
}
use opencom.Base.Int.{ℤ, pos, ltb_ℤ}
use opencom.Base.Dict.{Dict, lookup}
use opencom.Base.Result.{◌>>=◌, ◌>>◌, check, or_error}
use opencom.Base.Base64
use opencom.Base.Base64.{std_encoding}
use opencom.Friends.Store.{Friend, StoreError, Store as FriendStore, add as add_friend}
use opencom.Invite.Code.{Code}
use opencom.Invite.Url.{UrlError, VerifyError, Unicode, parse_url, verify_url}
use opencom.Invite.Record.{
  DecodeError, derive_dht_key, derive_encryption_key, decode_record, decode_unverified,
}
use opencom.Invite.Handshake.{Hello, Response, Manager, type_redeem, type_accept, type_reject}
use opencom.Invite.Redeem.{InviteCrypto, url_keys, record_ciphers, Host}

pub data RedeemError : Type 0 where
  bad_url : UrlError → RedeemError
  unverified : VerifyError → RedeemError
  undecodable : DecodeError → RedeemError
  url_expired not_published bad_key_text bad_key no_peer_id peer_id_mismatch : RedeemError
  cannot_open no_own_key cannot_send no_response : RedeemError
  rejected unexpected : Str → RedeemError
  not_added : StoreError → RedeemError

abbrev pub map_error {ℓ} : {E F : Type 0} {A : Type ℓ} → (E → F) → E ⊎ A → F ⊎ A
map_error f (inl e) = inl (f e)
map_error f (inr a) = inr a

-- Whom to dial, and with what.
pub record Target : Type 0 where
  pub code : Code
  pub inviter_id : Str
  pub addresses : List Str
  pub public_key : Str

-- The network of the invitee: whether a stream opens to a peer with these addresses, whether the hello
-- is sent, and what is read from the stream.
pub record Net : Type 0 where
  pub is_multiaddr : Str → Bool
  pub opens : List Str → Str → Bool
  pub sends : Hello → Bool
  pub responds : Str → Hello → Option Response

pub record RedeemWorld : Type 0 where
  pub now_unix : ℕ
  pub now_added : ℕ
  pub friend_ok : Bool

-- `parseAddrs`.
unfoldable pub parse_addrs : (Str → Bool) → List Str → List Str
parse_addrs ok [] = []
parse_addrs ok (s ∷ l) = let rest = parse_addrs ok l in if ok s then s ∷ rest else rest

module _ (c : InviteCrypto) where
  -- `decodePubKey`.
  unfoldable pub decode_pub_key : Str → RedeemError ⊎ c.PubKey
  decode_pub_key text = do
    bytes ← or_error bad_key_text (Base64.decode std_encoding text)
    or_error bad_key (c.unmarshal_public_key bytes)

  -- The part of Redeem before the dial.
  unfoldable pub record_target : Code → ℕ → Dict Str Str → RedeemError ⊎ Target
  record_target code now table = do
    let enc_key = derive_encryption_key (record_ciphers c) code
    blob ← or_error not_published (lookup (derive_dht_key (record_ciphers c) code) table)
    raw ← map_error undecodable (decode_unverified (record_ciphers c) blob enc_key)
    key ← decode_pub_key raw.public_key
    rec ← map_error undecodable (decode_record (record_ciphers c) blob enc_key key now)
    id ← or_error no_peer_id (c.id_from_public_key key)
    check (rec.peer_id == id) peer_id_mismatch
    inr (record {
      code = code;
      inviter_id = id;
      addresses = rec.addresses;
      public_key = rec.public_key;
    })

  abbrev pub in_past : ℕ → ℤ → Bool
  in_past now expires = ltb_ℤ (pos 0) expires && ltb_ℤ expires (pos now)

  -- The part of RedeemURL before the dial.
  unfoldable pub url_target : Unicode → Str → ℕ → RedeemError ⊎ Target
  url_target u url now = do
    payload ← map_error bad_url (parse_url u url)
    check (not (in_past now payload.expires_at)) url_expired
    key ← map_error unverified (verify_url (url_keys c) payload)
    id ← or_error no_peer_id (c.id_from_public_key key)
    inr (record {
      code = payload.code;
      inviter_id = id;
      addresses = payload.addresses;
      public_key = payload.public_key;
    })

  abbrev pub hello_of : Host c → Code → Str → Hello
  hello_of h code key = record {
    type = type_redeem;
    code = code;
    peer_id = h.id;
    public_key = Base64.encode std_encoding key;
    addresses = h.invite_addrs;
    display_name = h.display_name;
  }

  -- The exchange on the stream.
  unfoldable pub ask : Net → Host c → Target → RedeemError ⊎ Response
  ask net h t = do
    check (net.opens (parse_addrs net.is_multiaddr t.addresses) t.inviter_id) cannot_open
    key ← or_error no_own_key (c.marshal_public_key h.pub_key)
    check (net.sends (hello_of h t.code key)) cannot_send
    resp ← or_error no_response (net.responds t.inviter_id (hello_of h t.code key))
    check (not (resp.type == type_reject)) (rejected resp.reason)
    check (resp.type == type_accept) (unexpected resp.type)
    inr resp

  abbrev pub inviter : RedeemWorld → Target → Response → Friend
  inviter w t resp = record {
    name = resp.display_name;
    peer_id = t.inviter_id;
    public_key = t.public_key;
    added_at = w.now_added;
    rendezvous_hint = [];
  }

  unfoldable pub added_friend :
      FriendStore × Option StoreError → Friend → Manager → Manager × (RedeemError ⊎ Friend)
  added_friend (friends, none) f m = (record m { friends = friends }, inr f)
  added_friend (friends, some err) f m = (record m { friends = friends }, inl (not_added err))

  unfoldable pub add_inviter :
      RedeemError ⊎ Response → RedeemWorld → Target → Manager → Manager × (RedeemError ⊎ Friend)
  add_inviter (inl err) w t m = (m, inl err)
  add_inviter (inr resp) w t m =
      added_friend (add_friend w.friend_ok (inviter w t resp) m.friends) (inviter w t resp) m

  -- `dialAndHandshake`.
  unfoldable pub dial_and_handshake :
      Net → Host c → RedeemWorld → Target → Manager → Manager × (RedeemError ⊎ Friend)
  dial_and_handshake net h w t m = add_inviter (ask net h t) w t m

  unfoldable pub redeem_target :
      RedeemError ⊎ Target → Net → Host c → RedeemWorld → Manager → Manager × (RedeemError ⊎ Friend)
  redeem_target (inl err) net h w m = (m, inl err)
  redeem_target (inr t) net h w m = dial_and_handshake net h w t m

  -- `Redeem` and `RedeemURL`.
  unfoldable pub redeem :
      Net → Host c → RedeemWorld → Code → Dict Str Str → Manager → Manager × (RedeemError ⊎ Friend)
  redeem net h w code table m = redeem_target (record_target code w.now_unix table) net h w m

  unfoldable pub redeem_url :
      Net → Host c → RedeemWorld → Unicode → Str → Manager → Manager × (RedeemError ⊎ Friend)
  redeem_url net h w u url m = redeem_target (url_target u url w.now_unix) net h w m

unfoldable pub program : Unit {0}
unfolding parse_addrs decode_pub_key record_target url_target ask added_friend add_inviter
    dial_and_handshake redeem_target redeem redeem_url
program = tt
