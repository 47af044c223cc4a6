-- ===== src/Invite/Redeem/Together.antt =====
-- internal/invite/manager.go: an invite from its creation to both sides' friends lists.
use mathlib.Core.Path.{◌≡◌, refl, ◌∙◌, ap}
use mathlib.Core.Option
use opencom.Base.{ℕ, ◌≤◌, true, Option, none, some, Str, str_eq, ◌⊎◌, inr, str_beq}
use opencom.Base.Dict.{Dict}
use opencom.Base.Base64
use opencom.Base.Base64.{std_encoding, Bytes}
use opencom.Base.Base64.RoundTrip.{std_encoding-Lawful, decode-encode_base64}
use opencom.Friends.Store.{
  Friend, StoreError, Store as FriendStore, add as add_friend, get_by_peer_id,
}
use opencom.Friends.Store.Lookup.{get-add}
use opencom.Invite.Store
use opencom.Invite.Url.{Unicode}
use opencom.Invite.Handshake.{
  Hello, Response, Keys, Manager, World, type_accept, handle_stream, invitee,
}
use opencom.Invite.Handshake.Outcome.{Accepted, reply_type, handle_stream-Accepted}
use opencom.Invite.Handshake.Complete.{Welcome, accept_response, handle_stream-Welcome}
use opencom.Invite.Redeem.{InviteCrypto, CreateWorld, CreateResult, Host, new_entry}
use opencom.Invite.Redeem.Invitee.{
  RedeemError, RedeemWorld, Target, Net, hello_of, ask, inviter, added_friend, add_inviter,
  dial_and_handshake, redeem_target, redeem, redeem_url, parse_addrs,
}
use opencom.Invite.Redeem.Targets.{inviter_target}
use opencom.Invite.Redeem.Created.{Invited}

module _ (c : InviteCrypto) where
  -- The inviter's handler works with the host's keys.
  abbrev pub handshake_keys : Host c → Keys
  handshake_keys h = record {
    PubKey = c.PubKey;
    decode_string = Base64.decode std_encoding;
    unmarshal_public_key = c.unmarshal_public_key;
    id_from_public_key = c.id_from_public_key;
    host_id = h.id;
    our_public_key = Option.map (Base64.encode std_encoding) (c.marshal_public_key h.pub_key);
    display_name = h.display_name;
  }

  -- The two hosts, the network between them, and that both can add a friend.
  pub record Meeting (alice bob : Host c) (key_a key_b : Str) (net : Net) (w : World)
      (wb : RedeemWorld) (t : Target) (expires : ℕ) (ma mb : Manager) : Type 0 where
    pub alice_marshals : c.marshal_public_key alice.pub_key ≡ some key_a
    pub bob_marshals : c.marshal_public_key bob.pub_key ≡ some key_b
    pub bob_parses : c.unmarshal_public_key key_b ≡ some bob.pub_key
    pub bob_identity : c.id_from_public_key bob.pub_key ≡ some bob.id
    pub bob_bytes : Bytes key_b
    pub opens : net.opens (parse_addrs net.is_multiaddr t.addresses) t.inviter_id ≡ true
    pub sends : net.sends (hello_of c bob t.code key_b) ≡ true
    pub responds :
        net.responds t.inviter_id (hello_of c bob t.code key_b)
        ≡ (handle_stream (handshake_keys alice) w bob.id (some (hello_of c bob t.code key_b)) ma).1
    pub checked_in_time : w.now_check ≤ expires
    pub marked_in_time : w.now_mark ≤ expires
    pub alice_adds :
        (add_friend w.friend_ok
          (invitee (handshake_keys alice) w bob.id (hello_of c bob t.code key_b))
          ma.friends).1
        ≡ none
    pub bob_adds :
        (add_friend wb.friend_ok
          (inviter c wb t
            (accept_response (handshake_keys alice) (Base64.encode std_encoding key_a)))
          mb.friends).1
        ≡ none

  -- What redeeming leaves: bob has alice as a friend, in memory and in the file, and at alice's the
  -- code is consumed by bob, who is her friend.
  pub record Befriended (alice bob : Host c) (key_a key_b : Str) (w : World) (wb : RedeemWorld)
      (t : Target) (ma : Manager) (r : Manager × (RedeemError ⊎ Friend)) : Type 1 where
    pub alice_friend :
        r.1
        ≡ inr (
            inviter c wb t
              (accept_response (handshake_keys alice) (Base64.encode std_encoding key_a)))
    pub found :
        get_by_peer_id t.inviter_id r.0.friends.friends
        ≡ some (
            inviter c wb t
              (accept_response (handshake_keys alice) (Base64.encode std_encoding key_a)))
    pub saved : r.0.friends.disk ≡ r.0.friends.friends
    pub at_alice :
        Accepted
          (handshake_keys alice)
          w
          bob.id
          (hello_of c bob t.code key_b)
          ma
          (handle_stream (handshake_keys alice) w bob.id (some (hello_of c bob t.code key_b)) ma).0

  module _ (alice bob : Host c) (key_a key_b : Str) (net : Net) (w : World) (wb : RedeemWorld)
      (t : Target) (expires created : ℕ) (ma mb : Manager)
      (meet : Meeting alice bob key_a key_b net w wb t expires ma mb) where
    abbrev hello : Hello
    hello = hello_of c bob t.code key_b

    abbrev response : Response
    response = accept_response (handshake_keys alice) (Base64.encode std_encoding key_a)

    welcome :
        Store.get t.code ma.store.entries ≡ some (new_entry c t.code expires created)
        → Welcome (handshake_keys alice) w bob.id hello ma (Base64.encode std_encoding key_a)
    welcome known = record {
      asks = refl;
      entry = new_entry c t.code expires created;
      known = known;
      unused = refl;
      checked_in_time = meet.checked_in_time;
      marked_in_time = meet.marked_in_time;
      key = record {
        bytes = key_b;
        key = bob.pub_key;
        decoded = decode-encode_base64 std_encoding std_encoding-Lawful key_b meet.bob_bytes;
        parsed = meet.bob_parses;
        derived = meet.bob_identity;
      };
      our_key = ap (Option.map (Base64.encode std_encoding)) meet.alice_marshals;
      added = meet.alice_adds;
    }

    answered :
        Store.get t.code ma.store.entries ≡ some (new_entry c t.code expires created)
        → ask c net bob t ≡ inr response
    unfolding ask str_beq
    answered known =
        let accepts =
          handle_stream-Welcome (handshake_keys alice) w bob.id hello ma
            (Base64.encode std_encoding key_a) (welcome known) in
        rw (meet.opens, meet.bob_marshals, meet.sends, meet.responds, accepts) refl

    abbrev new_friend : Friend
    new_friend = inviter c wb t response

    after-Befriended :
        (fr : FriendStore × Option StoreError)
        → fr.1 ≡ none
        → get_by_peer_id t.inviter_id fr.0.friends ≡ some new_friend
        → fr.0.disk ≡ fr.0.friends
        → reply_type
            (handshake_keys alice)
            (handle_stream (handshake_keys alice) w bob.id (some hello) ma).1
          ≡ some type_accept
        → Befriended alice bob key_a key_b w wb t ma (added_friend c fr new_friend mb)
    unfolding added_friend
    after-Befriended (friends, some err) ok found saved accepts = cc
    after-Befriended (friends, none) ok found saved accepts = record {
      alice_friend = refl;
      found = found;
      saved = saved;
      at_alice = handle_stream-Accepted (handshake_keys alice) w bob.id hello ma accepts;
    }

    dial_and_handshake-Befriended :
        Store.get t.code ma.store.entries ≡ some (new_entry c t.code expires created)
        → Befriended alice bob key_a key_b w wb t ma (dial_and_handshake c net bob wb t mb)
    unfolding dial_and_handshake
    dial_and_handshake-Befriended known =
        let fr = add_friend wb.friend_ok new_friend mb.friends in
        let (by_name, by_id, file) = get-add wb.friend_ok new_friend mb.friends meet.bob_adds in
        let found : get_by_peer_id t.inviter_id fr.0.friends ≡ some new_friend =
          by_id t.inviter_id ∙ rw ((str_eq.eqb_iff t.inviter_id t.inviter_id).1 refl) refl in
        let accepts = ap (reply_type (handshake_keys alice)) (
          handle_stream-Welcome (handshake_keys alice) w bob.id hello ma
            (Base64.encode std_encoding key_a) (welcome known)) in
        rw (answered known)
          (unfold add_inviter in after-Befriended fr meet.bob_adds found file accepts)

  -- An invite as Create leaves it (its code is in the store and fresh, its URL names the inviter, and so
  -- does its record if it was published), redeemed by its URL, or by its code once it was published: if
  -- the invitee's stream opens, its hello is sent and answered by the inviter's handler, the handler runs
  -- before the expiry, and each can add the other, then each has the other as a friend in memory and in
  -- the file, under the keys that were proved, and the code is consumed by the invitee.
  pub redeem-Befriended :
      (alice bob : Host c) (key_a key_b : Str) (wc : CreateWorld) (u : Unicode) (net : Net)
      (w : World) (wb : RedeemWorld) (r : CreateResult) (ma mb : Manager) (table : Dict Str Str)
      → Invited c alice key_a wc u wb.now_unix r ma table
      → Meeting alice bob key_a key_b net w wb
          (inviter_target c alice key_a r.code)
          r.expires_at
          ma
          mb
      → Befriended alice bob key_a key_b w wb
          (inviter_target c alice key_a r.code)
          ma
          (redeem_url c net bob wb u r.url mb)
        × (r.published ≡ true
            → Befriended alice bob key_a key_b w wb
                (inviter_target c alice key_a r.code)
                ma
                (redeem c net bob wb r.code table mb))
  unfolding redeem_url redeem
  redeem-Befriended alice bob key_a key_b wc u net w wb r ma mb table i meet =
      let t = inviter_target c alice key_a r.code in
      let both =
        dial_and_handshake-Befriended alice bob key_a key_b net w wb t r.expires_at wc.now_created
          ma mb meet i.stored in
      (
        rw i.by_url (unfold redeem_target in both),
        λ published. rw (i.by_code published) (unfold redeem_target in both),
      )
