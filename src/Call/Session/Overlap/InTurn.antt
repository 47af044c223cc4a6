-- ===== src/Call/Session/Overlap/InTurn.antt =====
-- internal/call/session.go: calls that do not overlap, each broadcast made before the next call starts.
use mathlib.Core.Path.{◌≡◌, refl, ◌∙◌, ap}
use opencom.Base.{◌⊎◌, inl, inr, Option, none, some, List, [], ◌∷◌, map, codes, nat_eq}
use opencom.Base.Dict.{lookup}
use opencom.Base.Hub.{Chan}
use opencom.Call.Session.{
  Session, StateChange, ringing, connecting, connected, unsubscribe, TransitionError, state_string,
  shift, announce, shut, tell, transition, to_ringing, to_connecting, to_connected, end_session,
  subscribe,
}
use opencom.Call.Session.Lifecycle.{Op, ring, connect, establish, finish, join, leave, step, run}
use opencom.Call.Session.Events.{AllStay, entered, run_sees_all}
use opencom.Call.Session.Overlap.{
  Shared, Turn, locked, send, made_event, under_lock, to_list, take_nth, sent, turn, turns,
}

abbrev pub in_turn : List Op → List Turn
in_turn [] = []
in_turn (op ∷ ops) = locked op ∷ send 0 ∷ in_turn ops

abbrev pub alone : Session → Shared
alone s = record { session = s; pending = [] }

send-announce :
    (r : TransitionError ⊎ StateChange) (s : Session)
    → turn (send 0) (record { session = s; pending = to_list (made_event r) })
      ≡ alone (announce r s).0
unfolding turn take_nth sent announce
send-announce (inl err) s = refl
send-announce (inr ev) s = refl

send-tell :
    (ev : Option StateChange) (s : Session)
    → turn (send 0) (record { session = s; pending = to_list ev }) ≡ alone (tell ev s)
unfolding turn take_nth sent tell
send-tell none s = refl
send-tell (some ev) s = refl

turn-step : (op : Op) (s : Session) → turn (send 0) (turn (locked op) (alone s)) ≡ alone (step op s)
unfolding step to_ringing to_connecting to_connected transition end_session under_lock turn tell
turn-step (ring now) s =
    send-announce (shift ringing (codes "") now s).1 (shift ringing (codes "") now s).0
turn-step (connect now) s =
    send-announce (shift connecting (codes "") now s).1 (shift connecting (codes "") now s).0
turn-step (establish now) s =
    send-announce (shift connected (codes "") now s).1 (shift connected (codes "") now s).0
turn-step (finish reason now) s = send-tell (shut reason now s).1 (shut reason now s).0
turn-step join s = send-tell none (subscribe s).0
turn-step (leave id) s = send-tell none (unsubscribe id s)

turns-in_turn : (ops : List Op) (s : Session) → turns (in_turn ops) (alone s) ≡ alone (run ops s)
unfolding turns run
turns-in_turn [] s = refl
turns-in_turn (op ∷ ops) s =
    ap (turns (in_turn ops)) (turn-step op s) ∙ turns-in_turn ops (step op s)

-- When calls do not overlap, each broadcasting before the next one starts, a subscriber that does not
-- unsubscribe, even if it reads nothing, finds in its channel the name of every state that the session
-- enters from then on, in order and once each, whatever the calls are: none of its 16 places runs out.
pub subscriber_sees_all :
    (s : Session) (ops : List Op)
    → AllStay (subscribe s).1 ops
    → (ch : Chan StateChange) × (lookup
          (subscribe s).1
          (turns (in_turn ops) (alone (subscribe s).0)).session.hub.subs
        ≡ some ch)
      × (map (λ (ev : StateChange). ev.state) ch.buf
          ≡ map state_string (entered ops (subscribe s).0))
subscriber_sees_all s ops stays = rw (turns-in_turn ops (subscribe s).0) (run_sees_all s ops stays)
