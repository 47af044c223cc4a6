-- ===== src/Audio/Manager/Tests.antt =====
-- internal/audio/manager.go: runs on concrete events, as in internal/audio/manager_test.go.
use mathlib.Core.Path.{◌≡◌, refl}
use opencom.Base.{true, false, List, [], ◌∷◌, Str, str_eq, str_beq, codes, is_some, length}
use opencom.Base.Dict.{lookup}
use opencom.Call.Session.{StateChange}
use opencom.Audio.Manager.{AudioManager, new_manager, put_session, stop_all, set_muted, program}
use opencom.Audio.Manager.Running.{Input, event, mute, run, step, history, sessions-history}
use opencom.Audio.Manager.Closing.{stop_all-run}

abbrev change : Str → Str → StateChange
change id state = record {
  session_id = id;
  state = state;
  direction = codes "outbound";
  remote = codes "bob";
  time = 1;
  reason = [];
}

abbrev inputs : List Input
inputs =
    event true (change (codes "a") (codes "ringing"))
    ∷ event true (change (codes "a") (codes "connected"))
    ∷ event false (change (codes "b") (codes "connected"))
    ∷ mute (codes "a") true
    ∷ event true (change (codes "c") (codes "connected"))
    ∷ event true (change (codes "c") (codes "ended"))
    ∷ []

-- Stop while a session is being started: it is put into the map behind Stop, and never closed.
abbrev stopped_early : AudioManager
stopped_early = put_session (codes "a") (stop_all new_manager)

kept_behind_stop :
    (is_some (lookup (codes "a") stopped_early.sessions) ≡ true) × (stopped_early.closed ≡ [])
unfolding program str_beq
kept_behind_stop = (refl, refl)

a_runs : is_some (lookup (codes "a") (run true inputs new_manager).sessions) ≡ true
unfolding program str_beq run step
a_runs = refl

b_failed : is_some (lookup (codes "b") (run true inputs new_manager).sessions) ≡ false
unfolding program str_beq run step
b_failed = refl

unknown_mute : (set_muted (codes "z") true (run true inputs new_manager)).1 ≡ false
unfolding program str_beq run step
unknown_mute = refl

sessions-history_example :
    is_some (lookup (codes "a") (run true inputs new_manager).sessions)
    ≡ history true (codes "a") inputs false
sessions-history_example = sessions-history true inputs (codes "a")

stop_all-run_example :
    (let m = stop_all (run true inputs new_manager) in
      (m.sessions ≡ []) × (length m.closed ≡ m.started))
stop_all-run_example = stop_all-run true inputs
