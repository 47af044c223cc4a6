-- ===== src/Invite/Handshake/Complete.antt =====
-- internal/invite/manager.go: the handshakes that the handler accepts.
use mathlib.Core.Path.{◌≡◌, refl, ◌∙◌, ap}
use opencom.Base.{ℕ, ◌≤◌, Bool, true, false, Option, none, some, Str, [], str_eq, ◌==◌, arith}
use opencom.Friends.Store.{StoreError, Store as FriendStore, add as add_friend}
use opencom.Invite.Store.{Entry, Store, mark_consumed, get}
use opencom.Invite.Store.Once.{Open, mark_consumed-Open}
use opencom.Invite.Handshake.{
  Hello, Response, Keys, Manager, World, type_accept, type_redeem, refuse_entry, refuse_id,
  refuse_pub, refuse_bytes, refuse_key, refuse, reply_accept, after_add, invitee, after_mark,
  handle_hello, handle_stream,
}
use opencom.Invite.Handshake.Outcome.{KeyOf}

module _ (keys : Keys) where
  -- A hello that nothing speaks against.
  pub record Welcome (w : World) (remote : Str) (hello : Hello) (m : Manager) (our : Str)
      : Type 0 where
    pub asks : hello.type ≡ type_redeem
    pub entry : Entry
    pub known : get hello.code m.store.entries ≡ some entry
    pub unused : entry.consumed ≡ false
    pub checked_in_time : w.now_check ≤ entry.expires_at
    pub marked_in_time : w.now_mark ≤ entry.expires_at
    pub key : KeyOf keys remote hello.public_key
    pub our_key : keys.our_public_key ≡ some our
    pub added : (add_friend w.friend_ok (invitee keys w remote hello) m.friends).1 ≡ none

  abbrev pub accept_response : Str → Response
  accept_response our = record {
    type = type_accept;
    peer_id = keys.host_id;
    public_key = our;
    display_name = keys.display_name;
    reason = [];
  }

  refuse_entry-none :
      (now : ℕ) (entry : Entry)
      → entry.consumed ≡ false
      → now ≤ entry.expires_at
      → refuse_entry now (some entry) ≡ none
  unfolding refuse_entry
  refuse_entry-none now entry u t = ground arith

  refuse_key-KeyOf :
      (remote : Str) (hello : Hello)
      → KeyOf keys remote hello.public_key
      → refuse_key keys none remote hello ≡ none
  unfolding refuse_key refuse_bytes refuse_pub refuse_id
  refuse_key-KeyOf remote hello k =
      rw (k.decoded, k.parsed, k.derived, (str_eq.eqb_iff remote remote).1 refl) refl

  refuse-Welcome :
      (w : World) (remote : Str) (hello : Hello) (m : Manager) (our : Str)
      → Welcome w remote hello m our
      → refuse keys w.now_check remote hello m.store ≡ none
  unfolding refuse
  refuse-Welcome w remote hello m our h =
      let asks : (hello.type == type_redeem) ≡ true =
        (str_eq.eqb_iff hello.type type_redeem).1 h.asks in
      rw (h.known, refuse_entry-none w.now_check h.entry h.unused h.checked_in_time)
        (simp (asks, refuse_key-KeyOf remote hello h.key) refl)

  after_add-none :
      (fr : FriendStore × Option StoreError) (w : World) (remote : Str) (hello : Hello)
      (m : Manager) (our : Str)
      → keys.our_public_key ≡ some our
      → fr.1 ≡ none
      → (after_add keys fr w remote hello m).1 ≡ accept_response our
  unfolding after_add
  after_add-none (friends, none) w remote hello m our k h =
      ap (λ o. (reply_accept keys o w remote hello (record m { friends = friends })).1) k
      ∙ unfold reply_accept in refl
  after_add-none (friends, some err) w remote hello m our k h = cc

  after_mark-true :
      (sb : Store × Bool) (w : World) (remote : Str) (hello : Hello) (m : Manager) (our : Str)
      → keys.our_public_key ≡ some our
      → sb.1 ≡ true
      → (add_friend w.friend_ok (invitee keys w remote hello) m.friends).1 ≡ none
      → (after_mark keys sb w remote hello m).1 ≡ accept_response our
  unfolding after_mark
  after_mark-true (store, true) w remote hello m our k h added =
      after_add-none (add_friend w.friend_ok (invitee keys w remote hello) m.friends) w remote hello
        (record m { store = store }) our k added
  after_mark-true (store, false) w remote hello m our k h added = cc

  -- `handleStream` answers with an accept and the host's own key, whenever the message is a redeem
  -- message, the code is known, unused and at both readings of the clock not past its expiry, the
  -- invitee's key is that of the remote peer, the friend can be added and the own key be marshalled.
  pub handle_stream-Welcome :
      (w : World) (remote : Str) (hello : Hello) (m : Manager) (our : Str)
      → Welcome w remote hello m our
      → (handle_stream keys w remote (some hello) m).1 ≡ some (accept_response our)
  unfolding handle_stream
  handle_stream-Welcome w remote hello m our h =
      let place : Open w.now_mark (get hello.code m.store.entries) = record {
        entry = h.entry;
        found = h.known;
        unused = h.unused;
        in_time = h.marked_in_time;
      } in
      let marked = (mark_consumed-Open w.mark_ok w.now_mark hello.code remote m.store).1 place in
      ap (λ o. some (handle_hello keys o w remote hello m).1)
        (refuse-Welcome w remote hello m our h)
      ∙ unfold handle_hello in
        ap some (
          after_mark-true (mark_consumed w.mark_ok w.now_mark hello.code remote m.store) w remote
            hello m our h.our_key marked h.added)
