-- ===== src/Call/Session.antt =====
-- internal/call/session.go: one call's state machine and the events it broadcasts. The clock's
-- reading `s.now()` is an argument of the methods that take it. A method that changes the state is what it
-- does under s.mu followed by its broadcast under s.subsMu; Overlap interleaves the two halves.
pub mod Lifecycle
pub mod Events
pub mod Overlap
mod Tests
use opencom.Base.{
  ℕ, ◌+◌, Bool, Option, none, some, Str, codes, if◌then◌else◌, ◌==◌, nat_eq, not, ◌⊎◌, inl, inr,
}
use opencom.Base.Hub.{Hub, empty_hub, publish, attach, detach}

pub data State : Type 0 where
  idle ringing connecting connected ended : State

-- The values of the Go constants.
abbrev pub ordinal : State → ℕ
ordinal idle = 0
ordinal ringing = 1
ordinal connecting = 2
ordinal connected = 3
ordinal ended = 4

unfoldable pub state_string : State → Str
state_string idle = codes "idle"
state_string ringing = codes "ringing"
state_string connecting = codes "connecting"
state_string connected = codes "connected"
state_string ended = codes "ended"

pub data Direction : Type 0 where
  outbound inbound : Direction

unfoldable pub direction_string : Direction → Str
direction_string outbound = codes "outbound"
direction_string inbound = codes "inbound"

pub record StateChange : Type 0 where
  pub session_id : Str
  pub state : Str
  pub direction : Str
  pub remote : Str
  pub time : ℕ
  pub reason : Str

pub record Session : Type 0 where
  pub id : Str
  pub remote : Str
  pub direction : Direction
  pub started_at : ℕ
  pub state : State
  pub reason : Str
  pub hub : Hub StateChange

-- The errors of `transition`, the second with the current state and the target.
pub data TransitionError : Type 0 where
  already_ended : TransitionError
  invalid : State → State → TransitionError

unfoldable pub new_session : Str → Str → Direction → ℕ → Session
unfolding empty_hub
new_session id remote dir now = record {
  id = id;
  remote = remote;
  direction = dir;
  started_at = now;
  state = idle;
  reason = codes "";
  hub = empty_hub;
}

unfoldable pub change : State → Str → ℕ → Session → StateChange
change target reason now s = record {
  session_id = s.id;
  state = state_string target;
  direction = direction_string s.direction;
  remote = s.remote;
  time = now;
  reason = reason;
}

unfoldable pub broadcast : StateChange → Session → Session
broadcast ev s = record s { hub = publish ev s.hub }

-- `transition` while it holds s.mu: the new state, and the error or the event that is to be broadcast.
unfoldable pub shift : State → Str → ℕ → Session → Session × (TransitionError ⊎ StateChange)
shift target reason now s =
    if ordinal s.state == ordinal ended
    then (s, inl already_ended)
    else (if not (ordinal target == ordinal s.state + 1)
        then (s, inl (invalid s.state target))
        else (record s { state = target }, inr (change target reason now s)))

-- `transition` once it has released s.mu.
unfoldable pub announce : TransitionError ⊎ StateChange → Session → Session × Option TransitionError
announce (inl err) s = (s, some err)
announce (inr ev) s = (broadcast ev s, none)

unfoldable pub transition : State → Str → ℕ → Session → Session × Option TransitionError
transition target reason now s = let (s', r) = shift target reason now s in announce r s'

unfoldable pub to_ringing : ℕ → Session → Session × Option TransitionError
to_ringing now s = transition ringing (codes "") now s

unfoldable pub to_connecting : ℕ → Session → Session × Option TransitionError
to_connecting now s = transition connecting (codes "") now s

unfoldable pub to_connected : ℕ → Session → Session × Option TransitionError
to_connected now s = transition connected (codes "") now s

-- `End` while it holds s.mu, and once it has released it.
unfoldable pub shut : Str → ℕ → Session → Session × Option StateChange
shut reason now s =
    if ordinal s.state == ordinal ended
    then (s, none)
    else (record s { state = ended; reason = reason }, some (change ended reason now s))

unfoldable pub tell : Option StateChange → Session → Session
tell none s = s
tell (some ev) s = broadcast ev s

-- `End`: it never fails.
unfoldable pub end_session : Str → ℕ → Session → Session
end_session reason now s = let (s', ev) = shut reason now s in tell ev s'

-- A buffer of 16 events.
unfoldable pub subscribe : Session → Session × ℕ
subscribe s = let (h, id) = attach 16 s.hub in (record s { hub = h }, id)

unfoldable pub unsubscribe : ℕ → Session → Session
unsubscribe id s = record s { hub = detach id s.hub }
