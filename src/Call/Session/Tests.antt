-- ===== src/Call/Session/Tests.antt =====
-- A call's life in internal/call/session.go, and instances of its theorems.
use mathlib.Core.Path.{◌≡◌, refl}
use opencom.Base.{◌++◌, ◌≢◌, some, List, [], ◌∷◌, map, arith, codes, nat_eq}
use opencom.Base.Dict.{lookup, insert}
use opencom.Base.Hub.{Chan, empty_hub, attach, publish, send_all, try_send}
use mathlib.Core.Option
use mathlib.Core.List.{Perm}
use opencom.Call.Session.{
  change, shift, announce, shut, tell, idle, ringing, connecting, connected, ended, state_string,
  Session, StateChange, new_session, outbound, transition, to_ringing, to_connecting, to_connected,
  end_session, subscribe, broadcast, invalid,
}
use opencom.Call.Session.Lifecycle.{
  Op, ring, connect, establish, finish, join, step, run, ◌⟶*◌, run-⟶*, first_end_wins,
}
use opencom.Call.Session.Events.{entered}
use opencom.Call.Session.Overlap
use opencom.Call.Session.Overlap.{Turn, locked, send, turns, all_entered, names}
use opencom.Call.Session.Overlap.InTurn.{in_turn, alone, subscriber_sees_all}
use opencom.Call.Session.Overlap.Each.{before_join, subscription, joined, subscriber_misses_none}

abbrev fresh : Session
fresh = new_session (codes "c-1") (codes "bob") outbound 5

-- A call that is set up, hung up, and then rung again in vain.
abbrev life : List Op
life =
    ring 6
    ∷ join
    ∷ establish 7
    ∷ connect 8
    ∷ establish 9
    ∷ finish (codes "bye") 10
    ∷ ring 11
    ∷ finish (codes "again") 12
    ∷ []

life_ends : ((run life fresh).state ≡ ended) × ((run life fresh).reason ≡ codes "bye")
unfolding run step new_session to_ringing to_connecting to_connected transition shift announce
    end_session shut tell broadcast subscribe
life_ends = (refl, refl)

life_path : entered life (subscribe fresh).0 ≡ ringing ∷ connecting ∷ connected ∷ ended ∷ []
unfolding entered step new_session to_ringing to_connecting to_connected transition shift announce
    end_session shut tell broadcast subscribe
life_path = refl

run-⟶*_example : fresh.state ⟶* (run life fresh).state
run-⟶*_example = run-⟶* life fresh

fresh_lives : fresh.state ≢ ended
unfolding new_session
fresh_lives e = cc

first_end_wins_example :
    let final = run (finish (codes "bye") 6 ∷ life) fresh in
    (final.state ≡ ended) × (final.reason ≡ codes "bye")
first_end_wins_example = first_end_wins (codes "bye") 6 fresh life fresh_lives

refused_early : (transition connected (codes "") 3 fresh).1 ≡ some (invalid idle connected)
unfolding transition shift announce new_session
refused_early = refl

-- Two calls that overlap: the call is hung up while the event of its connection is still to be sent.
abbrev ringing_up : List Turn
ringing_up = locked (ring 6) ∷ send 0 ∷ locked (connect 7) ∷ []

abbrev hung_up : List Turn
hung_up = send 0 ∷ locked (establish 8) ∷ locked (finish (codes "bye") 9) ∷ send 1 ∷ send 0 ∷ []

-- The subscriber then finds connected behind ended.
overtaken :
    let o = joined (before_join (codes "c-1") (codes "bob") outbound 5 ringing_up) in
    Option.map
      (λ (ch : Chan StateChange). names ch.buf)
      (lookup 0 (turns hung_up o).session.hub.subs)
    ≡ some (codes "connecting" ∷ codes "ended" ∷ codes "connected" ∷ [])
unfolding Overlap.program shift shut broadcast change new_session subscribe attach empty_hub publish
    send_all try_send lookup insert state_string
overtaken = refl

subscriber_misses_none_example :
    let o = before_join (codes "c-1") (codes "bob") outbound 5 ringing_up in
    let o' = turns hung_up (joined o) in
    (ch : Chan StateChange) × (lookup (subscription o) o'.session.hub.subs ≡ some ch)
    × Perm
        (names (ch.buf ++ o'.pending))
        (names o.pending ++ map state_string (all_entered hung_up (joined o)))
subscriber_misses_none_example =
    subscriber_misses_none (codes "c-1") (codes "bob") outbound 5 ringing_up hung_up (omega arith)

subscriber_sees_all_example :
    (ch : Chan StateChange) × (lookup
        (subscribe fresh).1
        (turns (in_turn life) (alone (subscribe fresh).0)).session.hub.subs
      ≡ some ch)
    × (map (λ (ev : StateChange). ev.state) ch.buf
        ≡ map state_string (entered life (subscribe fresh).0))
subscriber_sees_all_example = subscriber_sees_all fresh life (omega arith)
