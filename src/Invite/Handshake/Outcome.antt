-- ===== src/Invite/Handshake/Outcome.antt =====
-- internal/invite/manager.go: what a handshake leaves, accepted or not.
use mathlib.Core.Path.{◌≡◌, refl, sym, ◌∙◌, ap}
use mathlib.Core.Logic.{◌≢◌}
use opencom.Base.{
  ℕ, Bool, true, false, not, Option, none, some, Str, str_beq, str_eq, ◌==◌, if◌then◌else◌, arith,
  ne_of_str_beq, codes,
}
use opencom.Friends.Store.{
  Friend, StoreError, Store as FriendStore, add as add_friend, get_by_peer_id,
}
use opencom.Friends.Store.Lookup.{get-add, step_failed}
use opencom.Friends.Store.Valid.{add_op, step}
use opencom.Invite.Code.{Code}
use opencom.Invite.Store.{Store, mark_consumed, unmark_consumed, get}
use opencom.Invite.Store.Laws.{Valid}
use opencom.Invite.Store.Once.{
  Open, mark_consumed-Open, taken_by, get-mark, mark_consumed_no, get-unmark-mark,
}
use opencom.Invite.Handshake.{
  Hello, Response, Keys, Manager, World, type_accept, type_redeem, type_reject, refuse_entry,
  refuse_id, refuse_pub, refuse_bytes, refuse_key, refuse, reply_accept, after_add, invitee,
  after_mark, handle_hello, handle_stream,
}

reject_type : type_reject ≢ type_accept
unfolding str_beq
reject_type = ne_of_str_beq type_reject type_accept refl

add_friend_failed :
    (ok : Bool) (f : Friend) (s : FriendStore) (e : StoreError)
    → (add_friend ok f s).1 ≡ some e
    → (add_friend ok f s).0.disk ≡ s.disk
unfolding step
add_friend_failed ok f s e h = (step_failed (add_op ok f) s h).0

passed :
    (b : Bool) (why : Str) (o : Option Str)
    → (if not b then some why else o) ≡ none
    → (b ≡ true) × (o ≡ none)
passed true why o h = (refl, h)
passed false why o h = cc

module _ (keys : Keys) where
  -- The key that the invitee sent is that of the remote peer, which libp2p authenticated.
  pub record KeyOf (remote : Str) (public_key : Str) : Type 0 where
    pub bytes : Str
    pub key : keys.PubKey
    pub decoded : keys.decode_string public_key ≡ some bytes
    pub parsed : keys.unmarshal_public_key bytes ≡ some key
    pub derived : keys.id_from_public_key key ≡ some remote

  refuse_id-none :
      (remote : Str) (o : Option Str) → refuse_id keys remote o ≡ none → o ≡ some remote
  unfolding refuse_id
  refuse_id-none remote none h = cc
  refuse_id-none remote (some id) h = ground (arith, str_eq.eqb_iff id remote)

  refuse_pub-none :
      (remote : Str) (o : Option keys.PubKey)
      → refuse_pub keys remote o ≡ none
      → (key : keys.PubKey) × (o ≡ some key) × (keys.id_from_public_key key ≡ some remote)
  unfolding refuse_pub
  refuse_pub-none remote none h = cc
  refuse_pub-none remote (some key) h =
      (key, refl, refuse_id-none remote (keys.id_from_public_key key) h)

  refuse_bytes-none :
      (remote public_key : Str) (o : Option Str)
      → keys.decode_string public_key ≡ o
      → refuse_bytes keys remote o ≡ none
      → KeyOf remote public_key
  unfolding refuse_bytes
  refuse_bytes-none remote public_key none e h = cc
  refuse_bytes-none remote public_key (some bytes) e h =
      let (key, parsed, derived) = refuse_pub-none remote (keys.unmarshal_public_key bytes) h in
      record { bytes = bytes; key = key; decoded = e; parsed = parsed; derived = derived }

  refuse_key-none :
      (o : Option Str) (remote : Str) (hello : Hello)
      → refuse_key keys o remote hello ≡ none
      → KeyOf remote hello.public_key
  unfolding refuse_key
  refuse_key-none (some why) remote hello h = cc
  refuse_key-none none remote hello h =
      refuse_bytes-none remote hello.public_key (keys.decode_string hello.public_key) refl h

  refuse-none :
      (now : ℕ) (remote : Str) (hello : Hello) (store : Store)
      → refuse keys now remote hello store ≡ none
      → (hello.type ≡ type_redeem) × KeyOf remote hello.public_key
  unfolding refuse
  refuse-none now remote hello store h =
      let o = refuse_entry now (get hello.code store.entries) in
      let (asks, clear) =
        passed (hello.type == type_redeem) (codes "unexpected hello type")
          (refuse_key keys o remote hello) h in
      ((str_eq.eqb_iff hello.type type_redeem).0 asks, refuse_key-none o remote hello clear)

  reply_accept-rest :
      (key : Option Str) (w : World) (remote : Str) (hello : Hello) (m : Manager)
      → let m' = (reply_accept keys key w remote hello m).0 in
        (m'.store ≡ m.store) × (m'.friends ≡ m.friends)
  unfolding reply_accept
  reply_accept-rest none w remote hello m = (refl, refl)
  reply_accept-rest (some key) w remote hello m = (refl, refl)

  after_add_accepts :
      (fr : FriendStore × Option StoreError) (w : World) (remote : Str) (hello : Hello)
      (m : Manager)
      → (after_add keys fr w remote hello m).1.type ≡ type_accept
      → let m' = (after_add keys fr w remote hello m).0 in
        (fr.1 ≡ none) × (m'.store ≡ m.store) × (m'.friends ≡ fr.0)
  unfolding after_add
  after_add_accepts (friends, some e) w remote hello m h = absurd (reject_type h)
  after_add_accepts (friends, none) w remote hello m h =
      let (st, fr) =
        reply_accept-rest keys.our_public_key w remote hello (record m { friends = friends }) in
      (refl, st, fr)

  after_mark_accepts :
      (sb : Store × Bool) (w : World) (remote : Str) (hello : Hello) (m : Manager)
      → (after_mark keys sb w remote hello m).1.type ≡ type_accept
      → let m' = (after_mark keys sb w remote hello m).0 in
        let fr = add_friend w.friend_ok (invitee keys w remote hello) m.friends in
        (sb.1 ≡ true) × (m'.store ≡ sb.0) × (fr.1 ≡ none) × (m'.friends ≡ fr.0)
  unfolding after_mark
  after_mark_accepts (store, false) w remote hello m h = absurd (reject_type h)
  after_mark_accepts (store, true) w remote hello m h =
      let fr = add_friend w.friend_ok (invitee keys w remote hello) m.friends in
      let (clear, st, friends) =
        after_add_accepts fr w remote hello (record m { store = store }) h in
      (refl, st, clear, friends)

  handle_hello_accepts :
      (o : Option Str) (w : World) (remote : Str) (hello : Hello) (m : Manager)
      → (handle_hello keys o w remote hello m).1.type ≡ type_accept
      → let m' = (handle_hello keys o w remote hello m).0 in
        let sb = mark_consumed w.mark_ok w.now_mark hello.code remote m.store in
        let fr = add_friend w.friend_ok (invitee keys w remote hello) m.friends in
        (o ≡ none) × (sb.1 ≡ true) × (m'.store ≡ sb.0) × (fr.1 ≡ none) × (m'.friends ≡ fr.0)
  unfolding handle_hello
  handle_hello_accepts (some why) w remote hello m h = absurd (reject_type h)
  handle_hello_accepts none w remote hello m h =
      let (marked, st, added, friends) =
        after_mark_accepts (mark_consumed w.mark_ok w.now_mark hello.code remote m.store) w remote
          hello m h in
      (refl, marked, st, added, friends)

  -- What an accepted handshake means.
  pub record Accepted (w : World) (remote : Str) (hello : Hello) (m m' : Manager) : Type 1 where
    pub asked : hello.type ≡ type_redeem
    pub key : KeyOf remote hello.public_key
    pub redeemable : Open w.now_mark (get hello.code m.store.entries)
    pub entries :
        (q : Code)
        → get q m'.store.entries ≡ (
            if hello.code == q
            then some (taken_by remote redeemable.entry)
            else get q m.store.entries)
    pub friend : get_by_peer_id remote m'.friends.friends ≡ some (invitee keys w remote hello)
    pub saved : m'.friends.disk ≡ m'.friends.friends

  hello_Accepted :
      (w : World) (remote : Str) (hello : Hello) (m : Manager)
      → (handle_hello keys (refuse keys w.now_check remote hello m.store) w remote hello m).1.type
        ≡ type_accept
      → Accepted w remote hello m
          (handle_hello keys (refuse keys w.now_check remote hello m.store) w remote hello m).0
  hello_Accepted w remote hello m h =
      let o = refuse keys w.now_check remote hello m.store in
      let m' = (handle_hello keys o w remote hello m).0 in
      let (clear, marked, st, added, friends) = handle_hello_accepts o w remote hello m h in
      let (asks, key) = refuse-none w.now_check remote hello m.store clear in
      let place : Open w.now_mark (get hello.code m.store.entries) =
        (mark_consumed-Open w.mark_ok w.now_mark hello.code remote m.store).0 marked in
      let (by_name, by_id, file) =
        get-add w.friend_ok (invitee keys w remote hello) m.friends added in
      record {
        asked = asks;
        key = key;
        redeemable = place;
        entries = λ q.
            ap (λ s. get q s.entries) st
            ∙ get-mark w.mark_ok w.now_mark hello.code remote m.store place q;
        friend =
            ap (λ (s : FriendStore). get_by_peer_id remote s.friends) friends
            ∙ by_id remote
            ∙ rw ((str_eq.eqb_iff remote remote).1 refl) refl;
        saved =
            ap (λ (s : FriendStore). s.disk) friends
            ∙ file
            ∙ ap (λ (s : FriendStore). s.friends) (sym friends);
      }

  abbrev pub reply_type : Option Response → Option Str
  reply_type none = none
  reply_type (some r) = some r.type

  -- When `handleStream` answers with an accept: the message was a redeem message, the invitee's key
  -- is that of the authenticated remote peer, the code was known, unused and not past its expiry,
  -- the code is now consumed by the remote peer and no other code changed, and the remote peer is
  -- found in the friends list with its name and key, which the file holds too.
  pub handle_stream-Accepted :
      (w : World) (remote : Str) (hello : Hello) (m : Manager)
      → reply_type (handle_stream keys w remote (some hello) m).1 ≡ some type_accept
      → Accepted w remote hello m (handle_stream keys w remote (some hello) m).0
  unfolding handle_stream
  handle_stream-Accepted w remote hello m h = hello_Accepted w remote hello m cc

  -- What a handshake that is not accepted keeps.
  pub record Kept (m m' : Manager) : Type 0 where
    pub entries : (q : Code) → get q m'.store.entries ≡ get q m.store.entries
    pub file : m'.friends.disk ≡ m.friends.disk
    pub silent : m'.redeem_subs ≡ m.redeem_subs

  after_add-Kept :
      (fr : FriendStore × Option StoreError) (w : World) (remote : Str) (hello : Hello)
      (m0 m : Manager) (key : Str)
      → keys.our_public_key ≡ some key
      → ((after_add keys fr w remote hello m).1.type ≢ type_accept)
      → ((e : StoreError) → fr.1 ≡ some e → fr.0.disk ≡ m0.friends.disk)
      → m.redeem_subs ≡ m0.redeem_subs
      → ((q : Code)
          → get q (unmark_consumed w.unmark_ok hello.code m.store).0.entries
            ≡ get q m0.store.entries)
      → Kept m0 (after_add keys fr w remote hello m).0
  unfolding after_add
  after_add-Kept (friends, some e) w remote hello m0 m key k h disk subs undo = record {
    entries = undo;
    file = disk e refl;
    silent = subs;
  }
  after_add-Kept (friends, none) w remote hello m0 m key k h disk subs undo = absurd (
      h (
        ap (λ o. (reply_accept keys o w remote hello (record m { friends = friends })).1.type) k
        ∙ unfold reply_accept in refl))

  after_mark-Kept :
      (sb : Store × Bool) (w : World) (remote : Str) (hello : Hello) (m : Manager) (key : Str)
      → keys.our_public_key ≡ some key
      → ((after_mark keys sb w remote hello m).1.type ≢ type_accept)
      → (sb.1 ≡ false → (q : Code) → get q sb.0.entries ≡ get q m.store.entries)
      → (sb.1 ≡ true
          → (q : Code)
          → get q (unmark_consumed w.unmark_ok hello.code sb.0).0.entries ≡ get q m.store.entries)
      → Kept m (after_mark keys sb w remote hello m).0
  unfolding after_mark
  after_mark-Kept (store, false) w remote hello m key k h same undo = record {
    entries = same refl;
    file = refl;
    silent = refl;
  }
  after_mark-Kept (store, true) w remote hello m key k h same undo =
      let f = invitee keys w remote hello in
      after_add-Kept (add_friend w.friend_ok f m.friends) w remote hello m
        (record m { store = store }) key k h
        (λ e failed. add_friend_failed w.friend_ok f m.friends e failed) refl (undo refl)

  handle_hello-Kept :
      (o : Option Str) (w : World) (remote : Str) (hello : Hello) (m : Manager) (key : Str)
      → keys.our_public_key ≡ some key
      → Valid m.store.entries
      → ((handle_hello keys o w remote hello m).1.type ≢ type_accept)
      → Kept m (handle_hello keys o w remote hello m).0
  unfolding handle_hello
  handle_hello-Kept (some why) w remote hello m key k v h = record {
    entries = λ q. refl;
    file = refl;
    silent = refl;
  }
  handle_hello-Kept none w remote hello m key k v h =
      after_mark-Kept (mark_consumed w.mark_ok w.now_mark hello.code remote m.store) w remote hello
        m key k h
        (λ fails q.
          ap (get q) (mark_consumed_no w.mark_ok w.now_mark hello.code remote m.store fails))
        (λ wins q.
          get-unmark-mark w.mark_ok w.unmark_ok w.now_mark hello.code q remote m.store v wins)

  -- When `handleStream` does not answer with an accept, and the host's own key can be marshalled, a
  -- well-formed store gives every code the entry that it had before, the friends file is as it was,
  -- and no subscriber is told.
  pub handle_stream-Kept :
      (w : World) (remote : Str) (o : Option Hello) (m : Manager) (key : Str)
      → keys.our_public_key ≡ some key
      → Valid m.store.entries
      → reply_type (handle_stream keys w remote o m).1 ≢ some type_accept
      → Kept m (handle_stream keys w remote o m).0
  unfolding handle_stream
  handle_stream-Kept w remote none m key k v h = record {
    entries = λ q. refl;
    file = refl;
    silent = refl;
  }
  handle_stream-Kept w remote (some hello) m key k v h =
      handle_hello-Kept (refuse keys w.now_check remote hello m.store) w remote hello m key k v
        (λ e. h (ap some e))
