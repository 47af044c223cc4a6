-- ===== src/Invite/Handshake.antt =====
-- internal/invite/manager.go and handshake.go: the inviter's stream handler. libp2p's keys and
-- base64 are the parameter `Keys`; what the stream delivers, the clock readings and the outcomes of
-- the writes are arguments. The response is what the handler sends, whether or not the send succeeds.
pub mod Outcome
pub mod Race
pub mod Exclusive
pub mod Complete
mod Tests
use opencom.Base.{
  ℕ, ◌+◌, Bool, true, false, not, Option, none, some, List, [], ◌∷◌, ◌++◌, Str, str_eq, nat_eq,
  ◌==◌, codes, if◌then◌else◌, ltb,
}
use opencom.Base.Dict.{Dict, lookup, insert, delete}
use opencom.Base.Hub.{Chan, send_all}
use opencom.Friends.Store.{Friend, StoreError, Store as FriendStore, add as add_friend}
use opencom.Invite.Code.{Code}
use opencom.Invite.Store.{Entry, Store, mark_consumed, unmark_consumed, get}

pub record Hello : Type 0 where
  pub type : Str
  pub code : Code
  pub peer_id : Str
  pub public_key : Str
  pub addresses : List Str
  pub display_name : Str

pub record Response : Type 0 where
  pub type : Str
  pub peer_id : Str
  pub public_key : Str
  pub display_name : Str
  pub reason : Str

pub record RedemptionEvent : Type 0 where
  pub code : Str
  pub redeemed_by : Str
  pub redeemed_at : ℕ

abbrev pub type_redeem : Str
type_redeem = codes "invite_redeem"

abbrev pub type_accept : Str
type_accept = codes "invite_accept"

abbrev pub type_reject : Str
type_reject = codes "invite_reject"

-- base64.StdEncoding.DecodeString, UnmarshalPublicKey and IDFromPublicKey of the invitee's key, and
-- the host's own ID, its key as MarshalPublicKey and EncodeToString give it, and its name.
pub record Keys : Type 1 where
  pub PubKey : Type 0
  pub decode_string : Str → Option Str
  pub unmarshal_public_key : Str → Option PubKey
  pub id_from_public_key : PubKey → Option Str
  pub host_id : Str
  pub our_public_key : Option Str
  pub display_name : Str

-- The channels of `redeemSubs`, each with its identity.
abbrev pub Subscribers : Type 0
Subscribers = Dict Str (Dict ℕ (Chan RedemptionEvent))

pub record Manager : Type 0 where
  pub store : Store
  pub friends : FriendStore
  pub redeem_subs : Subscribers

-- What one run of the handler reads: the clock at each of its calls of time.Now, and the outcomes of
-- its writes.
pub record World : Type 0 where
  pub now_check : ℕ
  pub now_mark : ℕ
  pub now_added : ℕ
  pub now_event : ℕ
  pub mark_ok : Bool
  pub friend_ok : Bool
  pub unmark_ok : Bool

abbrev pub reject : Str → Response
reject why = record {
  type = type_reject;
  peer_id = [];
  public_key = [];
  display_name = [];
  reason = why;
}

-- The checks of the entry, up to the expiry.
unfoldable pub refuse_entry : ℕ → Option Entry → Option Str
refuse_entry now none = some (codes "unknown code")
refuse_entry now (some entry) =
    if entry.consumed
    then some (codes "code already consumed")
    else (if ltb entry.expires_at now then some (codes "code expired") else none)

unfoldable pub or_none {ℓ} : {A : Type ℓ} → Option (List A) → List A
or_none none = []
or_none (some l) = l

-- `fanoutRedemption`.
unfoldable pub fanout_redemption : RedemptionEvent → Subscribers → Subscribers
fanout_redemption ev subs =
    let room = lookup ev.code subs in
    elim room [ none ↦ subs | some chans ↦ insert ev.code (send_all ev chans) subs ]

-- `SubscribeRedemption`; `ch` is the new channel's identity.
unfoldable pub subscribe_redemption : Str → ℕ → Subscribers → Subscribers
subscribe_redemption c ch subs =
    insert c (or_none (lookup c subs) ++ ((ch, record { cap = 4; buf = [] }) ∷ [])) subs

-- `UnsubscribeRedemption`.
unfoldable pub unsubscribe_redemption : Str → ℕ → Subscribers → Subscribers
unsubscribe_redemption c ch subs =
    let room = lookup c subs in
    elim room [ none ↦ subs | some chans ↦ insert c (delete ch chans) subs ]

module _ (keys : Keys) where
  -- The checks of the invitee's key.
  unfoldable pub refuse_id : Str → Option Str → Option Str
  refuse_id remote none = some (codes "cannot derive peer id")
  refuse_id remote (some derived_id) =
      if not (derived_id == remote) then some (codes "peer id / public key mismatch") else none

  unfoldable pub refuse_pub : Str → Option keys.PubKey → Option Str
  refuse_pub remote none = some (codes "invalid public key")
  refuse_pub remote (some key) = refuse_id remote (keys.id_from_public_key key)

  unfoldable pub refuse_bytes : Str → Option Str → Option Str
  refuse_bytes remote none = some (codes "invalid public key encoding")
  refuse_bytes remote (some bytes) = refuse_pub remote (keys.unmarshal_public_key bytes)

  -- The first reason to reject a hello before `MarkConsumed`.
  unfoldable pub refuse_key : Option Str → Str → Hello → Option Str
  refuse_key (some why) remote hello = some why
  refuse_key none remote hello = refuse_bytes remote (keys.decode_string hello.public_key)

  unfoldable pub refuse : ℕ → Str → Hello → Store → Option Str
  refuse now remote hello store =
      let later = refuse_key (refuse_entry now (get hello.code store.entries)) remote hello in
      if not (hello.type == type_redeem) then some (codes "unexpected hello type") else later

  -- The reply once the friend is added.
  unfoldable pub reply_accept : Option Str → World → Str → Hello → Manager → Manager × Response
  reply_accept none w remote hello m = (m, reject (codes "internal error"))
  reply_accept (some key) w remote hello m = (
    record m {
      redeem_subs =
          fanout_redemption
            (record { code = hello.code; redeemed_by = remote; redeemed_at = w.now_event })
            m.redeem_subs;
    },
    record {
      type = type_accept;
      peer_id = keys.host_id;
      public_key = key;
      display_name = keys.display_name;
      reason = [];
    },
  )

  unfoldable pub after_add :
      FriendStore × Option StoreError → World → Str → Hello → Manager → Manager × Response
  after_add (friends, none) w remote hello m =
      reply_accept keys.our_public_key w remote hello (record m { friends = friends })
  after_add (friends, some e) w remote hello m = (
    record m { friends = friends; store = (unmark_consumed w.unmark_ok hello.code m.store).0 },
    reject (codes "failed to add invitee"),
  )

  abbrev pub invitee : World → Str → Hello → Friend
  invitee w remote hello = record {
    name = hello.display_name;
    peer_id = remote;
    public_key = hello.public_key;
    added_at = w.now_added;
    rendezvous_hint = [];
  }

  unfoldable pub after_mark : Store × Bool → World → Str → Hello → Manager → Manager × Response
  after_mark (store, false) w remote hello m =
      (record m { store = store }, reject (codes "code already consumed"))
  after_mark (store, true) w remote hello m =
      after_add (add_friend w.friend_ok (invitee w remote hello) m.friends) w remote hello
        (record m { store = store })

  unfoldable pub handle_hello : Option Str → World → Str → Hello → Manager → Manager × Response
  handle_hello (some why) w remote hello m = (m, reject why)
  handle_hello none w remote hello m =
      after_mark (mark_consumed w.mark_ok w.now_mark hello.code remote m.store) w remote hello m

  -- `handleStream`, `none` where it resets the stream: `ReadHello` failed.
  unfoldable pub handle_stream : World → Str → Option Hello → Manager → Manager × Option Response
  handle_stream w remote none m = (m, none)
  handle_stream w remote (some hello) m =
      let r = handle_hello (refuse w.now_check remote hello m.store) w remote hello m in
      (r.0, some r.1)

unfoldable pub program : Unit {0}
unfolding refuse_entry or_none fanout_redemption subscribe_redemption unsubscribe_redemption
    refuse_id refuse_pub refuse_bytes refuse_key refuse reply_accept after_add after_mark
    handle_hello handle_stream
program = tt
