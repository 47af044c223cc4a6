-- ===== src/Call/Manager/Tests.antt =====
-- internal/call/manager.go: one inbound call, registered, rung and ended.
use mathlib.Core.Path.{◌≡◌, refl}
use opencom.Base.{none, some, [], ◌∷◌, str_beq, str_eq, nat_eq, codes, arith}
use opencom.Base.Dict.{lookup, insert}
use opencom.Base.Hub.{Chan, send_all}
use opencom.Friends.Store.{str_ltb}
use opencom.Call.Session.{
  shift, announce, shut, tell, Session, StateChange, inbound, ringing, ended, new_session,
  to_ringing, end_session, change, transition, broadcast, state_string,
}
use opencom.Call.Manager.{
  CallManager, new_call_manager, register, get, remove, subscribe_state_changes, list, program,
}
use opencom.Call.Manager.Forward.{Pending, Delivered, rounds, rounds-Delivered}

abbrev call : Session
call = new_session (codes "c1") (codes "bob") inbound 1

-- Registered, and watched by one subscriber of the manager.
abbrev watched : CallManager
watched = (subscribe_state_changes (register 0 call (new_call_manager ((0, call) ∷ [])))).0

abbrev object : CallManager → Session
object m = elim (lookup 0 m.heap) [ none ↦ call | some s ↦ s ]

-- The session rings and ends.
abbrev rung : Session
rung = end_session (codes "busy") 3 (to_ringing 2 (object watched)).0

abbrev over : CallManager
over = record watched { heap = insert 0 rung watched.heap }

abbrev first : StateChange
first = change ringing (codes "") 2 call

abbrev last : StateChange
last = change ended (codes "busy") 3 call

abbrev two_events : Chan StateChange
two_events = record { cap = 16; buf = first ∷ last ∷ [] }

over-Pending : Pending 0 0 (first ∷ last ∷ []) [] over
unfolding program str_beq new_session end_session shut tell to_ringing transition shift announce
    broadcast send_all change
over-Pending = record {
  sub = 0;
  session = rung;
  chan = two_events;
  out = record { cap = 32; buf = [] };
  runs = refl;
  object = refl;
  from = refl;
  waiting = refl;
  to = refl;
  room = refl;
  got = refl;
}

announced : watched.inbound_chan.buf ≡ 0 ∷ []
unfolding program str_beq new_session
announced = refl

removed : get (codes "c1") (remove (codes "c1") watched) ≡ none
unfolding program str_beq new_session
removed = refl

rounds-Delivered_example : Delivered 0 0 (first ∷ last ∷ []) (rounds 0 0 2 over)
unfolding program str_beq change state_string
rounds-Delivered_example =
    rounds-Delivered 0 0 (first ∷ []) last [] over (refl, tt) refl over-Pending (omega arith)

abbrev three : CallManager
three = record (new_call_manager []) {
  registry = (codes "b", 1) ∷ (codes "a", 2) ∷ (codes "c", 3) ∷ [];
}

listed : list three ≡ 2 ∷ 1 ∷ 3 ∷ []
unfolding program str_ltb
listed = refl
