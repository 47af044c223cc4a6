-- ===== src/Call/Engine/Live.antt =====
-- internal/call/streams.go: Accept, Hangup and the messages of the remote peer, for a call whose
-- stream takes writes.
use mathlib.Core.Path.{◌≡◌, refl, sym, ◌∙◌, ap, subst}
use opencom.Base.{ℕ, true, Option, none, some, [], ◌∷◌, ◌++◌, Str, str_eq, nat_eq, ◌≢◌, arith, ◌==◌}
use opencom.Base.Dict.{lookup, adjust, lookup-adjust, same_key, inserted}
use opencom.Call.Session.{
  shift, announce, Session, State, Direction, inbound, ringing, connecting, connected, ended,
  transition, to_connecting, to_connected, end_session, broadcast,
}
use opencom.Call.Session.Lifecycle.{end_session_ends}
use opencom.Call.Manager.{get}
use opencom.Call.Engine.{
  Message, Link, Engine, put, write, write_to, encode_on, link_error, accept_message,
  hangup_message, accepted, accept_written, accept_call, accept_found, accept_at, forget,
  unbind_and_close, close_bound, close_link, hang_up, hang_up_found, hang_up_at, is_inbound,
}
use opencom.Call.Engine.Reader.{Line, dispatch, handle_line, after_line, read_line}
use opencom.Call.Engine.Place.{Entered}
use opencom.Call.Engine.Scanner.{
  Forgotten, forget-Forgotten, Gone, leave-Gone, stored, id-end_session,
}

-- A call in a state, listed and bound to a stream that takes writes.
pub record Live (side : Direction) (state : State) (id : Str) (ref l : ℕ) (link : Link) (e : Engine)
    : Type 0 where
  pub object : Session
  pub kept : lookup ref e.calls.heap ≡ some object
  pub now_in : object.state ≡ state
  pub named : object.id ≡ id
  pub directed : object.direction ≡ side
  pub listed : get id e.calls ≡ some ref
  pub stream : lookup id e.streams ≡ some l
  pub encoder : lookup id e.encs ≡ some l
  pub writes_on : lookup l e.links ≡ some link
  pub writable : link_error (some link) ≡ none

abbrev pub with_sent : Message → Link → Link
with_sent m link = record link { sent = link.sent ++ m ∷ [] }

to_connecting-Entered :
    (now : ℕ) (s : Session)
    → s.state ≡ ringing
    → Entered connecting s (to_connecting now s).0 × ((to_connecting now s).1 ≡ none)
unfolding to_connecting transition shift announce broadcast
to_connecting-Entered now s h = (
  record {
    state = ground arith;
    id = ground arith;
    remote = ground arith;
    direction = ground arith;
  },
  ground arith,
)

to_connected-Entered :
    (now : ℕ) (s : Session)
    → s.state ≡ connecting
    → Entered connected s (to_connected now s).0 × ((to_connected now s).1 ≡ none)
unfolding to_connected transition shift announce broadcast
to_connected-Entered now s h = (
  record {
    state = ground arith;
    id = ground arith;
    remote = ground arith;
    direction = ground arith;
  },
  ground arith,
)

writable_again :
    (m : Message) (k : Link) → link_error (some k) ≡ none → link_error (some (with_sent m k)) ≡ none
unfolding link_error
writable_again m k h = h

links-hang_up :
    (ref l : ℕ) (link : Link) (s : Session) (reason : Str) (now : ℕ) (e : Engine)
    → lookup s.id e.encs ≡ some l
    → lookup s.id e.streams ≡ some l
    → lookup l e.links ≡ some link
    → link_error (some link) ≡ none
    → lookup l (hang_up ref s reason now e).links
      ≡ some (record (with_sent (hangup_message s.id reason) link) { closed = true })
unfolding hang_up write write_to encode_on forget unbind_and_close close_bound close_link put
links-hang_up ref l link s reason now e enc str at ok =
    let m = hangup_message s.id reason in
    let sent : lookup l (adjust l (with_sent m) e.links) ≡ some (with_sent m link) =
      lookup-adjust l l (with_sent m) e.links ∙ rw (same_key l, at) refl in
    rw (enc, at, ok, str)
      (lookup-adjust l l (λ (k : Link). record k { closed = true }) (adjust l (with_sent m) e.links)
        ∙ rw (same_key l, sent) refl)

module _ {side : Direction} {state : State} {id : Str} {ref l : ℕ} {link : Link} where
  write-Live :
      (m : Message) (e : Engine)
      → Live side state id ref l link e
      → write id m e ≡ (record e { links = adjust l (with_sent m) e.links }, none)
  unfolding write write_to encode_on
  write-Live m e h = rw (h.encoder, h.writes_on, h.writable) refl

  -- The session moves on, the engine is otherwise as it was.
  put-Live :
      (next : State) (s : Session) (e : Engine)
      → Live side state id ref l link e
      → s.state ≡ next
      → s.id ≡ id
      → s.direction ≡ side
      → Live side next id ref l link (put ref s e)
  unfolding put get
  put-Live next s e h now_in named directed = record {
    object = s;
    kept = inserted ref s e.calls.heap;
    now_in = now_in;
    named = named;
    directed = directed;
    listed = h.listed;
    stream = h.stream;
    encoder = h.encoder;
    writes_on = h.writes_on;
    writable = h.writable;
  }

  sent-Live :
      (m : Message) (e : Engine)
      → Live side state id ref l link e
      → Live side state id ref l
          (with_sent m link)
          (record e { links = adjust l (with_sent m) e.links })
  sent-Live m e h = record {
    object = h.object;
    kept = h.kept;
    now_in = h.now_in;
    named = h.named;
    directed = h.directed;
    listed = h.listed;
    stream = h.stream;
    encoder = h.encoder;
    writes_on = lookup-adjust l l (with_sent m) e.links ∙ rw (same_key l, h.writes_on) refl;
    writable = writable_again m link h.writable;
  }

  -- Hangup: the call is forgotten.
  pub hang_up_at-Forgotten :
      (reason : Str) (now : ℕ) (e : Engine)
      → Live side state id ref l link e
      → state ≢ ended
      → Forgotten ref id reason (hang_up_at ref reason now e)
  unfolding hang_up_at hang_up_found
  hang_up_at-Forgotten reason now e h live =
      let s = h.object in
      let s' = end_session reason now s in
      let e' = (write s.id (hangup_message s.id reason) e).0 in
      let named : s'.id ≡ s.id = id-end_session reason now s in
      let (over, why) = end_session_ends reason now s (λ q. live (sym h.now_in ∙ q)) in
      rw h.kept (
        subst (λ i. Forgotten ref i reason (hang_up ref s reason now e)) h.named
          (unfold hang_up in
            forget-Forgotten ref s.id reason s' (put ref s' e') named over why (stored ref s' e')))

  -- What Hangup leaves on the stream: the HANGUP, and the stream closed.
  pub links-hang_up_at :
      (reason : Str) (now : ℕ) (e : Engine)
      → Live side state id ref l link e
      → lookup l (hang_up_at ref reason now e).links
        ≡ some (record (with_sent (hangup_message id reason) link) { closed = true })
  unfolding hang_up_at hang_up_found
  links-hang_up_at reason now e h =
      let s = h.object in
      rw h.kept (
        subst
          (λ i.
            lookup l (hang_up ref s reason now e).links
            ≡ some (record (with_sent (hangup_message i reason) link) { closed = true }))
          h.named
          (links-hang_up ref l link s reason now e (ap (λ i. lookup i e.encs) h.named ∙ h.encoder)
            (ap (λ i. lookup i e.streams) h.named ∙ h.stream) h.writes_on h.writable))

is_inbound-inbound : (s : Session) → s.direction ≡ inbound → is_inbound s.direction ≡ true
is_inbound-inbound s h = ap is_inbound h

-- Accept of a session that moves on twice without an error.
accept_call-eq :
    (ref l : ℕ) (link : Link) (s : Session) (t0 t1 : ℕ) (e : Engine)
    → Live inbound ringing s.id ref l link e
    → is_inbound s.direction ≡ true
    → (to_connecting t0 s).1 ≡ none
    → (to_connected t1 (to_connecting t0 s).0).1 ≡ none
    → let s1 = (to_connecting t0 s).0 in
      let e1 = record e { links = adjust l (with_sent (accept_message s.id)) e.links } in
      accept_call ref s t0 t1 e ≡ (put ref (to_connected t1 s1).0 (put ref s1 e1), none)
unfolding accept_call
accept_call-eq ref l link s t0 t1 e h side fine done =
    rw (side, write-Live (accept_message s.id) e h)
      (unfold accept_written in rw fine (unfold accepted in rw done refl))

-- Accept answers a ringing inbound call: no error, the session connected and ACCEPT written.
accept_call-Live :
    (ref l : ℕ) (link : Link) (s : Session) (t0 t1 : ℕ) (e : Engine)
    → Live inbound ringing s.id ref l link e
    → s.state ≡ ringing
    → s.direction ≡ inbound
    → Live inbound connected s.id ref l
        (with_sent (accept_message s.id) link)
        (accept_call ref s t0 t1 e).0
      × ((accept_call ref s t0 t1 e).1 ≡ none)
accept_call-Live ref l link s t0 t1 e h rings side =
    let m = accept_message s.id in
    let (up, fine) = to_connecting-Entered t0 s rings in
    let s1 = (to_connecting t0 s).0 in
    let (over, done) = to_connected-Entered t1 s1 up.state in
    let e1 = record e { links = adjust l (with_sent m) e.links } in
    let h1 = put-Live connecting s1 e1 (sent-Live m e h) up.state up.id (up.direction ∙ side) in
    let h2 =
      put-Live connected (to_connected t1 s1).0 (put ref s1 e1) h1 over.state (over.id ∙ up.id)
        (over.direction ∙ up.direction ∙ side) in
    rw (accept_call-eq ref l link s t0 t1 e h (is_inbound-inbound s side) fine done) (h2, refl)

module _ {id : Str} {ref l : ℕ} {link : Link} where
  -- Accept of a ringing inbound call: no error, the session connected and ACCEPT written.
  pub accept_at-Live :
      (t0 t1 : ℕ) (e : Engine)
      → Live inbound ringing id ref l link e
      → Live inbound connected id ref l
          (with_sent (accept_message id) link)
          (accept_at ref t0 t1 e).0
        × ((accept_at ref t0 t1 e).1 ≡ none)
  unfolding accept_at accept_found
  accept_at-Live t0 t1 e h =
      let s = h.object in
      rw h.kept (
        subst
          (λ i.
            Live inbound ringing i ref l link e
            → Live inbound connected i ref l (with_sent (accept_message i) link)
                (accept_call ref s t0 t1 e).0
              × ((accept_call ref s t0 t1 e).1 ≡ none))
          h.named (λ h'. accept_call-Live ref l link s t0 t1 e h' h.now_in h.directed) h)

module _ (unmarshal : Str → Option Message) {side : Direction} {id : Str} {ref l : ℕ}
    {link : Link} where
  -- The remote peer's ACCEPT connects a ringing call.
  pub read_line-accept :
      (line : Line) (e : Engine)
      → unmarshal line.text ≡ some (accept_message id)
      → Live side ringing id ref l link e
      → Live side connected id ref l link
          (read_line unmarshal (lookup ref e.calls.heap) line ref e).0
  unfolding read_line handle_line after_line
  read_line-accept line e parsed h =
      let s = h.object in
      let (up, fine) = to_connecting-Entered line.t0 s h.now_in in
      let s1 = (to_connecting line.t0 s).0 in
      let (over, done) = to_connected-Entered line.t1 s1 up.state in
      let mine : (id == s.id) ≡ true = ap (λ i. id == i) h.named ∙ same_key id in
      rw (h.kept, parsed, mine)
        (unfold dispatch in
          put-Live connected (to_connected line.t1 s1).0 e h over.state (over.id ∙ up.id ∙ h.named)
            (over.direction ∙ up.direction ∙ h.directed))

  -- The remote peer's HANGUP ends the call for its reason.
  pub read_line-hangup :
      {state : State} (reason : Str) (line : Line) (e : Engine)
      → unmarshal line.text ≡ some (hangup_message id reason)
      → Live side state id ref l link e
      → state ≢ ended
      → Gone ref id reason (read_line unmarshal (lookup ref e.calls.heap) line ref e).0
  unfolding read_line handle_line after_line
  read_line-hangup reason line e parsed h live =
      let s = h.object in
      let mine : (id == s.id) ≡ true = ap (λ i. id == i) h.named ∙ same_key id in
      let (over, why) = end_session_ends reason line.t0 s (λ q. live (sym h.now_in ∙ q)) in
      rw (h.kept, parsed, mine)
        (unfold dispatch in
          leave-Gone ref id reason (end_session reason line.t0 s) e
            (id-end_session reason line.t0 s ∙ h.named) over why)
