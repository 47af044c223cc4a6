-- ===== src/Call/Engine/Tests.antt =====
-- internal/call/streams.go: alice calls bob, bob accepts, and one of them hangs up.
use mathlib.Core.Path.{◌≡◌, refl}
use opencom.Base.{
  ℕ, Option, none, some, List, [], ◌∷◌, true, false, Str, str_beq, str_eq, nat_eq, codes, inl, inr,
  arith, if◌then◌else◌, ◌==◌,
}
use opencom.Base.Text
use opencom.Base.Dict.{lookup, insert, adjust}
use opencom.Call.Session.{
  shift, announce, Session, inbound, new_session, to_ringing, transition, broadcast,
}
use opencom.Call.Manager
use opencom.Call.Manager.{CallManager, new_call_manager, get}
use opencom.Call.Engine.{
  Message, invite, accept, hangup, Link, Engine, link_error, new_engine, invite_message,
  accept_message, hangup_message, accept_at, hang_up_at, program,
}
use opencom.Call.Engine.Reader.{reader, Line, end_of_stream, run_scanner, handle_stream}
use opencom.Call.Engine.Dial
use opencom.Call.Engine.Dial.{Dialer, Host, Relay, dial}
use opencom.Call.Engine.Dial.Bounded.{Dialled, dial-Dialled}
use opencom.Call.Engine.Scanner.{
  Gone, Forgotten, verdict, first_or, decisive, reason_of, run_scanner-Gone,
}
use opencom.Call.Engine.Place.{place, placed, Placed, Calling, place-Placed}
use opencom.Call.Engine.Inbound.{Heard, handle_stream-Heard}
use opencom.Call.Engine.Dialogue.{
  last_sent, hears_message, Wired, Talking, rings_at, hears, line_of, accepted-Talking,
  hang_up-Forgotten,
}
use opencom.Call.Engine.Duplicate.{TakenOver, handle_stream-TakenOver}

-- A stand-in for JSON: the reason or the caller behind a letter for the kind.
abbrev marshal : Message → Str
marshal m = elim m.kind [
  | invite ↦ b'i' ∷ m.caller
  | accept ↦ b'a' ∷ []
  | hangup ↦ b'h' ∷ m.reason
  | _ ↦ []
]

abbrev unmarshal : Str → Option Message
unmarshal [] = none
unmarshal (c ∷ s) =
    if c == b'i'
    then some (invite_message (codes "c1") s)
    else (if c == b'a'
        then some (accept_message (codes "c1"))
        else some (hangup_message (codes "c1") s))

abbrev link : Str → Link
link remote = record {
  remote = remote;
  sent = [];
  write_error = none;
  closed = false;
  was_reset = false;
}

abbrev dialer : Dialer ℕ
dialer = record {
  resolver = some 7;
  relays = record { id = codes "relay"; addrs = codes "/ip4/r" ∷ [] } ∷ [];
  peerstore = [];
  dials = 0;
}

-- The first dial fails, and the resolver knows an address when asked again.
abbrev host : Host ℕ Link
host = record {
  resolve = λ target r. (r, if r == 7 then inr [] else inr (codes "/ip4/b" ∷ []));
  invalidate_cache = λ target r. 8;
  new_stream = λ n addrs target. if n == 0 then inl (codes "NO_RESERVATION") else inr (link target);
  is_peer_id = λ id. true;
}

abbrev empty : Engine
empty = new_engine (new_call_manager [])

dialled : (dial host (codes "bob") dialer).1 ≡ inr (link (codes "bob"))
unfolding Dial.program Text.program str_beq lookup insert
dialled = refl

dial-Dialled_example : Dialled host (codes "bob") dialer (dial host (codes "bob") dialer)
dial-Dialled_example = dial-Dialled host (codes "bob") dialer

abbrev alice : Engine
alice = (place host (codes "c1") (codes "bob") (codes "alice") 0 0 1 2 (dialer, empty)).0.1

place-Placed_example :
    Placed host
      (codes "c1")
      (codes "bob")
      (codes "alice")
      0
      0
      dialer
      empty
      (place host (codes "c1") (codes "bob") (codes "alice") 0 0 1 2 (dialer, empty))
unfolding new_engine new_call_manager get lookup
place-Placed_example =
    place-Placed host (codes "c1") (codes "bob") (codes "alice") 0 0 1 2 dialer empty refl refl

abbrev object_of : ℕ → Engine → Session
object_of ref e = elim (lookup ref e.calls.heap) [ none ↦ new_session [] [] inbound 0 | some s ↦ s ]

alice-Calling : Calling (codes "c1") (codes "bob") (codes "alice") (link (codes "bob")) 0 0 alice
unfolding place placed Dial.program Text.program program reader Manager.program str_beq new_session
    to_ringing transition shift announce broadcast adjust
alice-Calling = record {
  object = object_of 0 alice;
  kept = refl;
  state = refl;
  named = refl;
  peer = refl;
  side = refl;
  listed = refl;
  stream = refl;
  encoder = refl;
  reader = refl;
  written = refl;
}

wired :
    Wired unmarshal marshal
      (codes "c1")
      (codes "alice")
      (codes "bob")
      (link (codes "bob"))
      (link (codes "alice"))
      0
      0
      0
      0
      alice
      empty
unfolding link_error new_engine new_call_manager get lookup
wired = record {
  calling = alice-Calling;
  a_writes = refl;
  b_writes = refl;
  b_peer = refl;
  named = λ e. cc;
  fresh = refl;
  invite_read = refl;
  accept_read = refl;
}

abbrev rung : Engine
rung =
    rings_at unmarshal marshal (codes "c1") (codes "alice") (codes "bob") (link (codes "bob"))
      (link (codes "alice")) 0 0 0 0 3 4 empty

abbrev answered : Engine
answered = (accept_at 0 5 6 rung).0

abbrev heard : Engine
heard =
    hears unmarshal marshal 0 (line_of unmarshal marshal (accept_message (codes "c1")) 7 8) alice

accepted-Talking_example :
    Talking unmarshal marshal
      (codes "c1")
      (codes "alice")
      (codes "bob")
      (link (codes "bob"))
      (link (codes "alice"))
      0
      0
      0
      0
      heard
      answered
      (accept_at 0 5 6 rung).1
accepted-Talking_example =
    accepted-Talking unmarshal marshal (codes "c1") (codes "alice") (codes "bob")
      (link (codes "bob")) (link (codes "alice")) 0 0 0 0 3 4 5 6 7 8 alice empty wired

abbrev bye : ℕ → Engine → Engine
bye ref e = hang_up_at ref (codes "bye") 9 e

abbrev hears_from : Engine → Engine → Engine
hears_from from to = hears_message unmarshal marshal 0 (last_sent (lookup 0 from.links)) 10 11 to

hang_up-Forgotten_example :
    ((Forgotten 0 (codes "c1") (codes "bye") (bye 0 heard))
      × (Gone 0 (codes "c1") (codes "bye") (hears_from (bye 0 heard) answered)))
    × ((Forgotten 0 (codes "c1") (codes "bye") (bye 0 answered))
        × (Gone 0 (codes "c1") (codes "bye") (hears_from (bye 0 answered) heard)))
hang_up-Forgotten_example =
    hang_up-Forgotten unmarshal marshal (codes "c1") (codes "alice") (codes "bob")
      (link (codes "bob")) (link (codes "alice")) 0 0 0 0 (codes "bye") 9 10 11 heard answered
      (accept_at 0 5 6 rung).1 accepted-Talking_example refl

handle_stream-Heard_example :
    Heard unmarshal
      (some (marshal (invite_message (codes "c1") (codes "alice"))))
      (link (codes "alice"))
      0
      0
      empty
      rung
unfolding link_error new_engine new_call_manager get lookup
handle_stream-Heard_example =
    handle_stream-Heard unmarshal (link (codes "alice")) 0 0 3 4
      (some (marshal (invite_message (codes "c1") (codes "alice")))) empty (λ m o. refl) refl

abbrev lines : List Line
lines =
    line_of unmarshal marshal (accept_message (codes "c1")) 7 8
    ∷ line_of unmarshal marshal (hangup_message (codes "c1") (codes "bye")) 9 10
    ∷ []

run_scanner-Gone_example :
    Gone 0 (codes "c1") (codes "bye") (run_scanner unmarshal lines end_of_stream 12 0 alice)
unfolding place placed Dial.program Text.program program reader Manager.program str_beq new_session
    to_ringing transition shift announce broadcast verdict first_or decisive reason_of
run_scanner-Gone_example =
    run_scanner-Gone unmarshal lines end_of_stream 12 0 (object_of 0 alice) alice refl
      (λ e. ground arith)

-- Mallory invites bob under the ID of the call with alice.
handle_stream-TakenOver_example : TakenOver (codes "c1") 0 1 1 rung (
    handle_stream unmarshal
      (some (marshal (invite_message (codes "c1") (codes "mallory"))))
      (link (codes "mallory"))
      1
      1
      20
      21
      rung)
unfolding program reader Manager.program str_beq new_session to_ringing transition shift announce
    broadcast
handle_stream-TakenOver_example =
    handle_stream-TakenOver unmarshal (marshal (invite_message (codes "c1") (codes "mallory")))
      (invite_message (codes "c1") (codes "mallory")) (link (codes "mallory")) 1 1 20 21 0 rung refl
      (record { kind = refl; named = λ e. cc; caller = inr refl }) refl (λ e. ground arith)
