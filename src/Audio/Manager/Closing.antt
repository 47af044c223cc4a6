-- ===== src/Audio/Manager/Closing.antt =====
-- internal/audio/manager.go: every session that is started is closed once, or still in the map.
use mathlib.Core.Path.{◌≡◌, refl}
use opencom.Base.{
  ℕ, suc, ◌+◌, Bool, true, false, not, ◌||◌, Option, none, some, List, [], ◌∷◌, Str, str_eq, ◌==◌,
  codes, if◌then◌else◌, arith, length,
}
use opencom.Base.Dict.{
  Dict, lookup, insert, Distinct, length-insert, length-delete, insert-Distinct, delete-Distinct,
}
use opencom.Call.Session.{StateChange}
use opencom.Audio.Manager.{
  AudioSession, AudioManager, new_manager, start_new, start_session, stop_found, stop_session,
  handle_event, set_muted, mute_found, stop_all, close_all,
}
use opencom.Audio.Manager.Running.{Input, event, mute, step, run}

-- The sessions that were started are those that run and those that were closed.
pub record Accounted (m : AudioManager) : Type 0 where
  pub distinct : Distinct m.sessions
  pub balance : m.started ≡ length m.sessions + length m.closed

either :
    {x y : AudioManager} (b : Bool) → Accounted x → Accounted y → Accounted (if b then x else y)
either true p q = p
either false p q = q

new-Accounted : Accounted new_manager
unfolding new_manager
new-Accounted = record { distinct = tt; balance = refl }

add_started :
    (fits : Bool) (id : Str) (s : AudioSession) (m : AudioManager)
    → lookup id m.sessions ≡ none
    → Accounted m
    → Accounted (
        if fits then record m { sessions = insert id s m.sessions; started = suc m.started } else m)
add_started false id s m e a = a
add_started true id s m e a = record {
  distinct = insert-Distinct id s m.sessions a.distinct;
  balance = ground (arith, e, length-insert id s m.sessions, a.balance);
}

start_new-Accounted :
    (o : Option AudioSession) (host ok : Bool) (id : Str) (m : AudioManager)
    → lookup id m.sessions ≡ o
    → Accounted m
    → Accounted (start_new o host ok id m)
unfolding start_new
start_new-Accounted (some s) host ok id m e a = a
start_new-Accounted none host ok id m e a =
    let s : AudioSession = record { handle = m.started; muted = false } in
    add_started (not host || ok) id s m e a

stop_found-Accounted :
    (o : Option AudioSession) (id : Str) (m : AudioManager)
    → lookup id m.sessions ≡ o
    → Accounted m
    → Accounted (stop_found o id m)
unfolding stop_found
stop_found-Accounted none id m e a = a
stop_found-Accounted (some s) id m e a = record {
  distinct = delete-Distinct id m.sessions a.distinct;
  balance = let size = length-delete id m.sessions a.distinct in ground (arith, e, size, a.balance);
}

mute_found-Accounted :
    (o : Option AudioSession) (id : Str) (muted : Bool) (m : AudioManager)
    → lookup id m.sessions ≡ o
    → Accounted m
    → Accounted (mute_found o id muted m).0
unfolding mute_found
mute_found-Accounted none id muted m e a = a
mute_found-Accounted (some s) id muted m e a = record {
  distinct = insert-Distinct id (record s { muted = muted }) m.sessions a.distinct;
  balance = ground (arith, e, length-insert id (record s { muted = muted }) m.sessions, a.balance);
}

handle_event-Accounted :
    (host ok : Bool) (ev : StateChange) (m : AudioManager)
    → Accounted m
    → Accounted (handle_event host ok ev m)
unfolding handle_event start_session stop_session
handle_event-Accounted host ok ev m a =
    either (ev.state == codes "connected")
      (start_new-Accounted (lookup ev.session_id m.sessions) host ok ev.session_id m refl a)
      (either (ev.state == codes "ended")
        (stop_found-Accounted (lookup ev.session_id m.sessions) ev.session_id m refl a) a)

step-Accounted :
    (host : Bool) (i : Input) (m : AudioManager) → Accounted m → Accounted (step host i m)
unfolding step set_muted
step-Accounted host (event ok ev) m a = handle_event-Accounted host ok ev m a
step-Accounted host (mute id muted) m a =
    mute_found-Accounted (lookup id m.sessions) id muted m refl a

pub run-Accounted :
    (host : Bool) (inputs : List Input) (m : AudioManager)
    → Accounted m
    → Accounted (run host inputs m)
unfolding run
run-Accounted host [] m a = a
run-Accounted host (i ∷ inputs) m a =
    run-Accounted host inputs (step host i m) (step-Accounted host i m a)

length-close_all :
    (l : Dict Str AudioSession) (closed : List ℕ)
    → length (close_all l closed) ≡ length l + length closed
unfolding close_all
length-close_all [] closed = omega arith
length-close_all (row ∷ l) closed = omega (arith, length-close_all l (row.1.handle ∷ closed))

-- From a new manager, whatever events arrive and whatever is muted, `Stop` leaves no session in the
-- map, and Close has been called as often as a session was started.
pub stop_all-run :
    (host : Bool) (inputs : List Input)
    → let m = stop_all (run host inputs new_manager) in
      (m.sessions ≡ []) × (length m.closed ≡ m.started)
unfolding stop_all
stop_all-run host inputs =
    let m = run host inputs new_manager in
    let a : Accounted m = run-Accounted host inputs new_manager new-Accounted in
    (refl, omega (arith, length-close_all m.sessions m.closed, a.balance))
