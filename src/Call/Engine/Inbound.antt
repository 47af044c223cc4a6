-- ===== src/Call/Engine/Inbound.antt =====
-- internal/call/streams.go: handleStream, which streams it takes as calls.
use mathlib.Core.Path.{◌≡◌, refl, ◌∙◌, ap}
use opencom.Base.{
  ℕ, Bool, true, false, not, ◌&&◌, ◌||◌, Option, none, some, [], Str, str_eq, nat_eq, ◌⊎◌, ◌≢◌,
  arith, ◌==◌, if◌then◌else◌,
}
use opencom.Base.Dict.{lookup, insert, inserted}
use opencom.Call.Session.{inbound, ringing, new_session, idle}
use opencom.Call.Manager.{get}
use opencom.Call.Engine.{
  Message, MessageType, invite, Link, Engine, put, bind, admit, reset_link, link_error,
}
use opencom.Call.Engine.Reader.{
  is_invite, ring_inbound, ringing_inbound, receive_call, first_message, scanned, handle_stream,
}
use opencom.Call.Engine.Place.{to_ringing-Entered, admit-Admitted}
use opencom.Call.Engine.Live.{Live}
use opencom.Call.Session.{to_ringing}

-- An INVITE with an ID from a peer that claims no other name than its own.
pub record Invites (remote : Str) (m : Message) : Type 0 where
  pub kind : m.kind ≡ invite
  pub named : m.call_id ≢ []
  pub caller : (m.caller ≡ []) ⊎ (m.caller ≡ remote)

-- A call from the peer that rings here: its session, inbound, and its reader.
pub record Answering (remote id : Str) (ref l : ℕ) (link : Link) (e : Engine) : Type 0 where
  pub live : Live inbound ringing id ref l link e
  pub peer : live.object.remote ≡ remote
  pub reader : lookup ref e.readers ≡ some l

module _ (unmarshal : Str → Option Message) where
  -- The first line is such an INVITE.
  pub record Offers (line : Option Str) (remote : Str) (m : Message) : Type 0 where
    pub text : Str
    pub scanned : line ≡ some text
    pub parsed : unmarshal text ≡ some m
    pub invites : Invites remote m

  pub data Heard (line : Option Str) (link : Link) (ref l : ℕ) (e : Engine) : Engine → Type 0 where
    refused :
        ((m : Message) → ¬ (Offers line link.remote m))
        → Heard line link ref l e (reset_link l (record e { links = insert l link e.links }))
    answered :
        {e' : Engine} (m : Message)
        → Offers line link.remote m
        → Answering link.remote m.call_id ref l link e'
        → Heard line link ref l e e'

links-admit :
    (id remote : Str) (created ref l : ℕ) (e : Engine)
    → (admit (new_session id remote inbound created) ref l e).links ≡ e.links
unfolding admit put bind
links-admit id remote created ref l e = refl

receive_call-Answering :
    (m : Message) (remote : Str) (link : Link) (ref l created now : ℕ) (e : Engine)
    → get m.call_id e.calls ≡ none
    → lookup l e.links ≡ some link
    → link_error (some link) ≡ none
    → Answering remote m.call_id ref l link (receive_call m remote ref l created now e)
unfolding receive_call ring_inbound
receive_call-Answering m remote link ref l created now e fresh at ok =
    let s = new_session m.call_id remote inbound created in
    let a = admit-Admitted s ref l e (unfold new_session in fresh) in
    let e' = admit s ref l e in
    let idle_object : a.object.state ≡ idle = unfold new_session in a.same.state in
    let (up, fine) = to_ringing-Entered now a.object idle_object in
    let at' : lookup l e'.links ≡ some link =
      ap (lookup l) (links-admit m.call_id remote created ref l e) ∙ at in
    rw (a.kept, fine)
      (unfold ringing_inbound put get new_session in
        record {
          live = record {
            object = (to_ringing now a.object).0;
            kept = inserted ref (to_ringing now a.object).0 e'.calls.heap;
            now_in = up.state;
            named = up.id ∙ a.same.id;
            directed = up.direction ∙ a.same.direction;
            listed = a.listed;
            stream = a.stream;
            encoder = a.encoder;
            writes_on = at';
            writable = ok;
          };
          peer = up.remote ∙ a.same.remote;
          reader = inserted ref l e'.readers;
        })

-- The two conditions of the code.
abbrev pub no_invite : Message → Bool
no_invite m = not (is_invite m.kind) || m.call_id == []

abbrev pub mismatched : Str → Message → Bool
mismatched remote m = not (m.caller == []) && not (m.caller == remote)

is_invite-invite : (k : MessageType) → is_invite k ≡ true → k ≡ invite
is_invite-invite invite h = refl
is_invite-invite MessageType.accept h = cc
is_invite-invite MessageType.decline h = cc
is_invite-invite MessageType.hangup h = cc
is_invite-invite (MessageType.other text) h = cc

pub Invites-iff :
    (remote : Str) (m : Message)
    → (Invites remote m → (no_invite m ≡ false) × (mismatched remote m ≡ false))
      × (no_invite m ≡ false → mismatched remote m ≡ false → Invites remote m)
Invites-iff remote m = (
  λ (h : Invites remote m).
      let yes_invite : is_invite m.kind ≡ true = ap is_invite h.kind in
      ground (
        arith,
        yes_invite,
        h.named,
        h.caller,
        str_eq.eqb_iff m.call_id [],
        str_eq.eqb_iff m.caller [],
        str_eq.eqb_iff m.caller remote,
      ),
  λ a b. record {
    kind = is_invite-invite m.kind (ground (arith, a));
    named = λ e. ground (arith, a, e, str_eq.eqb_iff m.call_id []);
    caller = ground (arith, b, str_eq.eqb_iff m.caller [], str_eq.eqb_iff m.caller remote);
  },
)

some-inj : {a b : Message} → some a ≡ some b → a ≡ b
some-inj h = cc

some-inj_str : {a b : Str} → some a ≡ some b → a ≡ b
some-inj_str h = cc

module _ (unmarshal : Str → Option Message) (link : Link) (ref l created now : ℕ) where
  -- The engine with the stream before it.
  abbrev arrived : Engine → Engine
  arrived e = record e { links = insert l link e.links }

  -- `o` is what the first line says.
  abbrev Says : Option Str → Option Message → Type 0
  Says line o =
      ((m : Message) → Offers unmarshal line link.remote m → o ≡ some m)
      × ((m : Message) → o ≡ some m → Invites link.remote m → Offers unmarshal line link.remote m)

  guarded :
      (line : Option Str) (m : Message) (e : Engine) (b c : Bool)
      → no_invite m ≡ b
      → mismatched link.remote m ≡ c
      → Says line (some m)
      → ((k : Message) → Offers unmarshal line link.remote k → get k.call_id e.calls ≡ none)
      → link_error (some link) ≡ none
      → Heard unmarshal line link ref l e (
          if b
          then reset_link l (arrived e)
          else (if c
              then reset_link l (arrived e)
              else receive_call m link.remote ref l created now (arrived e)))
  guarded line m e true c hb hc says fresh ok = refused λ m' o. ground (
    arith,
    says.0 m' o,
    ap (λ (x : Message). no_invite x) (some-inj (says.0 m' o)),
    (Invites-iff link.remote m').0 o.invites,
    hb,
  )
  guarded line m e false true hb hc says fresh ok = refused λ m' o. ground (
    arith,
    says.0 m' o,
    ap (λ (x : Message). mismatched link.remote x) (some-inj (says.0 m' o)),
    (Invites-iff link.remote m').0 o.invites,
    hc,
  )
  guarded line m e false false hb hc says fresh ok =
      let offer = says.1 m refl ((Invites-iff link.remote m).1 hb hc) in
      answered m offer (
        receive_call-Answering m link.remote link ref l created now (arrived e) (fresh m offer)
          (inserted l link e.links) ok)

  first_message-Heard :
      (o : Option Message) (line : Option Str) (e : Engine)
      → Says line o
      → ((m : Message) → Offers unmarshal line link.remote m → get m.call_id e.calls ≡ none)
      → link_error (some link) ≡ none
      → Heard unmarshal line link ref l e
          (first_message o link.remote ref l created now (arrived e))
  unfolding first_message
  first_message-Heard none line e says fresh ok = refused λ m o. cc (says.0 m o)
  first_message-Heard (some m) line e says fresh ok =
      guarded line m e (no_invite m) (mismatched link.remote m) refl refl says fresh ok

  scanned-Heard :
      (line : Option Str) (e : Engine)
      → ((m : Message) → Offers unmarshal line link.remote m → get m.call_id e.calls ≡ none)
      → link_error (some link) ≡ none
      → Heard unmarshal line link ref l e
          (scanned unmarshal line link.remote ref l created now (arrived e))
  unfolding scanned
  scanned-Heard none e fresh ok = refused λ m o. cc (o.scanned)
  scanned-Heard (some text) e fresh ok =
      first_message-Heard (unmarshal text) (some text) e
        (
          λ m o. ap unmarshal (some-inj_str (o.scanned)) ∙ o.parsed,
          λ m p i. record { text = text; scanned = refl; parsed = p; invites = i },
        )
        fresh ok

  -- The handler of a new stream that takes writes, where the manager does not yet list the ID that is
  -- offered: a first line that is an INVITE with an ID, and with no caller or the peer itself as its
  -- caller, makes a call from that peer that rings here, listed and bound, with its reader; any other
  -- first line, or none, resets the stream and changes nothing else.
  pub handle_stream-Heard :
      (line : Option Str) (e : Engine)
      → ((m : Message) → Offers unmarshal line link.remote m → get m.call_id e.calls ≡ none)
      → link_error (some link) ≡ none
      → Heard unmarshal line link ref l e (handle_stream unmarshal line link ref l created now e)
  unfolding handle_stream
  handle_stream-Heard line e fresh ok = scanned-Heard line e fresh ok
