-- ===== src/Call/Engine/Duplicate.antt =====
-- internal/call/streams.go: an INVITE under the ID of a call that the manager already lists.
use mathlib.Core.Path.{◌≡◌, refl, ◌∙◌}
use opencom.Base.{ℕ, Option, some, ◌≢◌, Str, str_eq, nat_eq, arith}
use opencom.Base.Dict.{lookup, insert, inserted, lookup-insert}
use opencom.Call.Session.{Session, inbound, new_session, to_ringing}
use opencom.Call.Manager.{get, register, register_new}
use opencom.Call.Engine.{Message, Link, Engine, put, bind, admit}
use opencom.Call.Engine.Reader.{
  ring_inbound, ringing_inbound, receive_call, first_message, scanned, handle_stream,
}
use opencom.Call.Engine.Place.{to_ringing-Entered}
use opencom.Call.Engine.Inbound.{Invites, Invites-iff}

-- The listed call `known` is as it was, but its ID is bound to the stream `l`.
pub record TakenOver (id : Str) (known ref l : ℕ) (e e' : Engine) : Type 0 where
  pub still_listed : get id e'.calls ≡ some known
  pub session : lookup known e'.calls.heap ≡ lookup known e.calls.heap
  pub stream : lookup id e'.streams ≡ some l
  pub encoder : lookup id e'.encs ≡ some l
  pub reader : lookup ref e'.readers ≡ some l

other_key :
    (ref known : ℕ) (s : Session) (e : Engine)
    → known ≢ ref
    → lookup known (put ref s e).calls.heap ≡ lookup known e.calls.heap
unfolding put
other_key ref known s e differs =
    ground (arith, lookup-insert ref known s e.calls.heap, nat_eq.eqb_iff ref known)

admit-listed :
    (s : Session) (ref l known : ℕ) (e : Engine)
    → get s.id e.calls ≡ some known
    → admit s ref l e ≡ bind s.id l (put ref s e)
unfolding admit register get bind put
admit-listed s ref l known e at = rw at (unfold register_new in refl)

receive_call-TakenOver :
    (m : Message) (remote : Str) (ref l created now known : ℕ) (e : Engine)
    → get m.call_id e.calls ≡ some known
    → known ≢ ref
    → TakenOver m.call_id known ref l e (receive_call m remote ref l created now e)
unfolding receive_call ring_inbound
receive_call-TakenOver m remote ref l created now known e at differs =
    let s = new_session m.call_id remote inbound created in
    let same : admit s ref l e ≡ bind m.call_id l (put ref s e) =
      unfold new_session in (admit-listed s ref l known e at) in
    let (up, fine) = to_ringing-Entered now s (unfold new_session in refl) in
    let kept : lookup ref (bind m.call_id l (put ref s e)).calls.heap ≡ some s =
      unfold bind put in inserted ref s e.calls.heap in
    let e1 = bind m.call_id l (put ref s e) in
    rw (same, kept, fine)
      (unfold ringing_inbound in
        record {
          still_listed = unfold put bind get in at;
          session =
              other_key ref known (to_ringing now s).0 e1 differs
              ∙ (unfold bind in other_key ref known s e differs);
          stream = unfold put bind in inserted m.call_id l e.streams;
          encoder = unfold put bind in inserted m.call_id l e.encs;
          reader = unfold bind put in inserted ref l e.readers;
        })

first_message-invites :
    (m : Message) (remote : Str) (ref l created now : ℕ) (e : Engine)
    → Invites remote m
    → first_message (some m) remote ref l created now e ≡ receive_call m remote ref l created now e
unfolding first_message
first_message-invites m remote ref l created now e h =
    let (a, b) = (Invites-iff remote m).0 h in rw (a, b) refl

-- An INVITE, from any peer, with the ID of a call that the manager lists: the manager keeps listing
-- the first call, whose session does not change, while the ID's stream and encoder are those of the
-- new stream, on which a reader runs for the second session.
pub handle_stream-TakenOver :
    (unmarshal : Str → Option Message) (text : Str) (m : Message) (link : Link)
    (ref l created now known : ℕ) (e : Engine)
    → unmarshal text ≡ some m
    → Invites link.remote m
    → get m.call_id e.calls ≡ some known
    → known ≢ ref
    → TakenOver m.call_id known ref l e
        (handle_stream unmarshal (some text) link ref l created now e)
unfolding handle_stream scanned
handle_stream-TakenOver unmarshal text m link ref l created now known e parsed h at differs =
    let e0 = record e { links = insert l link e.links } in
    let t = receive_call-TakenOver m link.remote ref l created now known e0 at differs in
    rw (parsed, first_message-invites m link.remote ref l created now e0 h)
      (record {
        still_listed = t.still_listed;
        session = t.session;
        stream = t.stream;
        encoder = t.encoder;
        reader = t.reader;
      })
