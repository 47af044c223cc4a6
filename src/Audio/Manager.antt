-- ===== src/Audio/Manager.antt =====
-- internal/audio/manager.go: one audio session for each connected call. A session is its handle and
-- whether it is muted; `closed` lists the handles that Close was called on. Whether NewSession
-- succeeds is an argument, as is whether there is a Host.
pub mod Running
pub mod Closing
mod Tests
use opencom.Base.{
  ℕ, suc, ◌+◌, Bool, true, false, not, ◌||◌, Option, none, some, List, [], ◌∷◌, ◌++◌, Str, str_eq,
  ◌==◌, codes, if◌then◌else◌,
}
use opencom.Base.Dict.{Dict, lookup, insert, delete}
use opencom.Call.Session.{StateChange}

pub record AudioSession : Type 0 where
  pub handle : ℕ
  pub muted : Bool

pub record AudioManager : Type 0 where
  pub sessions : Dict Str AudioSession
  pub started : ℕ
  pub closed : List ℕ

unfoldable pub new_manager : AudioManager
new_manager = record { sessions = []; started = 0; closed = [] }

-- The part of `startSession` under its second lock: the new session in the map. Other calls can come
-- between it and the lookup under the first lock; a step of the loop has both.
abbrev pub put_session : Str → AudioManager → AudioManager
put_session id m = record m {
  sessions = insert id (record { handle = m.started; muted = false }) m.sessions;
  started = suc m.started;
}

-- `startSession` for a call that has no session yet; without a Host nothing can fail.
unfoldable pub start_new : Option AudioSession → Bool → Bool → Str → AudioManager → AudioManager
start_new (some s) host ok id m = m
start_new none host ok id m = if not host || ok then put_session id m else m

unfoldable pub start_session : Bool → Bool → Str → AudioManager → AudioManager
start_session host ok id m = start_new (lookup id m.sessions) host ok id m

unfoldable pub stop_found : Option AudioSession → Str → AudioManager → AudioManager
stop_found none id m = m
stop_found (some s) id m = record m {
  sessions = delete id m.sessions;
  closed = s.handle ∷ m.closed;
}

unfoldable pub stop_session : Str → AudioManager → AudioManager
stop_session id m = stop_found (lookup id m.sessions) id m

-- The body of the loop of `Start`.
unfoldable pub handle_event : Bool → Bool → StateChange → AudioManager → AudioManager
handle_event host ok ev m =
    if ev.state == codes "connected"
    then start_session host ok ev.session_id m
    else (if ev.state == codes "ended" then stop_session ev.session_id m else m)

unfoldable pub close_all : Dict Str AudioSession → List ℕ → List ℕ
close_all [] closed = closed
close_all (row ∷ rest) closed = close_all rest (row.1.handle ∷ closed)

-- `Stop`.
unfoldable pub stop_all : AudioManager → AudioManager
stop_all m = record m { sessions = []; closed = close_all m.sessions m.closed }

unfoldable pub mute_found : Option AudioSession → Str → Bool → AudioManager → AudioManager × Bool
mute_found none id muted m = (m, false)
mute_found (some s) id muted m =
    (record m { sessions = insert id (record s { muted = muted }) m.sessions }, true)

unfoldable pub set_muted : Str → Bool → AudioManager → AudioManager × Bool
set_muted id muted m = mute_found (lookup id m.sessions) id muted m

-- `Stats`: the session whose counters are read.
unfoldable pub stats : Str → AudioManager → Option AudioSession
stats id m = lookup id m.sessions

unfoldable pub program : Unit {0}
unfolding new_manager start_new start_session stop_found stop_session handle_event close_all
    stop_all mute_found set_muted stats lookup insert delete
program = tt
