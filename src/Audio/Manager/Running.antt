-- ===== src/Audio/Manager/Running.antt =====
-- internal/audio/manager.go: which calls have an audio session.
use mathlib.Core.Path.{◌≡◌, refl, ◌∙◌, ap}
use opencom.Base.{
  Bool, false, not, ◌||◌, Option, none, some, List, [], ◌∷◌, Str, str_eq, str_beq_iff, ◌==◌, codes,
  if◌then◌else◌, is_some, arith,
}
use opencom.Base.Dict.{lookup, lookup-insert, lookup-delete}
use opencom.Call.Session.{StateChange}
use opencom.Audio.Manager.{
  AudioSession, AudioManager, new_manager, start_new, start_session, stop_found, stop_session,
  handle_event, set_muted, mute_found,
}

-- What the loop sees, and the calls of SetMuted that come between.
pub data Input : Type 0 where
  event : Bool → StateChange → Input
  mute : Str → Bool → Input

unfoldable pub step : Bool → Input → AudioManager → AudioManager
step host (event ok ev) m = handle_event host ok ev m
step host (mute id muted) m = (set_muted id muted m).0

unfoldable pub run : Bool → List Input → AudioManager → AudioManager
run host [] m = m
run host (i ∷ inputs) m = run host inputs (step host i m)

-- Whether the call has a session after an input, from whether it had one.
abbrev pub after : Bool → Str → Input → Bool → Bool
after host id (event ok ev) up =
    if not (ev.session_id == id)
    then up
    else (if ev.state == codes "connected"
        then up || (not host || ok)
        else (if ev.state == codes "ended" then false else up))
after host id (mute q muted) up = up

abbrev pub history : Bool → Str → List Input → Bool → Bool
history host id [] up = up
history host id (i ∷ inputs) up = history host id inputs (after host id i up)

has : Str → AudioManager → Bool
has id m = is_some (lookup id m.sessions)

has-start :
    (o : Option AudioSession) (host ok : Bool) (q id : Str) (m : AudioManager)
    → lookup q m.sessions ≡ o
    → has id (start_new o host ok q m)
      ≡ (if q == id then has id m || (not host || ok) else has id m)
unfolding start_new has
has-start none host ok q id m e = ground (
  arith,
  str_beq_iff q id,
  lookup-insert q id (record { handle = m.started; muted = false }) m.sessions,
)
has-start (some s) host ok q id m e = ground (arith, str_beq_iff q id)

has-stop :
    (o : Option AudioSession) (q id : Str) (m : AudioManager)
    → lookup q m.sessions ≡ o
    → has id (stop_found o q m) ≡ (if q == id then false else has id m)
unfolding stop_found has
has-stop none q id m e = ground (arith, str_beq_iff q id)
has-stop (some s) q id m e = ground (arith, str_beq_iff q id, lookup-delete q id m.sessions)

has-mute :
    (o : Option AudioSession) (muted : Bool) (q id : Str) (m : AudioManager)
    → lookup q m.sessions ≡ o
    → has id (mute_found o q muted m).0 ≡ has id m
unfolding mute_found has
has-mute none muted q id m e = refl
has-mute (some s) muted q id m e =
    ground (arith, str_beq_iff q id, lookup-insert q id (record s { muted = muted }) m.sessions)

has-event :
    (host ok : Bool) (ev : StateChange) (id : Str) (m : AudioManager)
    → has id (handle_event host ok ev m) ≡ after host id (event ok ev) (has id m)
unfolding handle_event start_session stop_session
has-event host ok ev id m = ground (
  arith,
  has-start (lookup ev.session_id m.sessions) host ok ev.session_id id m refl,
  has-stop (lookup ev.session_id m.sessions) ev.session_id id m refl,
)

has-step :
    (host : Bool) (i : Input) (id : Str) (m : AudioManager)
    → has id (step host i m) ≡ after host id i (has id m)
unfolding step set_muted
has-step host (event ok ev) id m = has-event host ok ev id m
has-step host (mute q muted) id m = has-mute (lookup q m.sessions) muted q id m refl

has-run :
    (host : Bool) (inputs : List Input) (id : Str) (m : AudioManager)
    → has id (run host inputs m) ≡ history host id inputs (has id m)
unfolding run
has-run host [] id m = refl
has-run host (i ∷ inputs) id m =
    has-run host inputs id (step host i m)
    ∙ ap (λ up. history host id inputs up) (has-step host i id m)

-- From a new manager, whatever events of whatever calls arrive and whatever is muted, a call has an
-- audio session exactly if a "connected" event of it started one and no "ended" event of it came
-- after: events of other calls, other states and muting do not matter.
pub sessions-history :
    (host : Bool) (inputs : List Input) (id : Str)
    → is_some (lookup id (run host inputs new_manager).sessions) ≡ history host id inputs false
unfolding has new_manager lookup
sessions-history host inputs id = has-run host inputs id new_manager
