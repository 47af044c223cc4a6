-- ===== src/Call/Session/Overlap.antt =====
-- internal/call/session.go with calls that overlap: `transition` and `End` release s.mu before they
-- broadcast, so that other calls run between the two halves of a call.
pub mod Each
pub mod InTurn
use mathlib.Core.Path.{◌≡◌, refl, sym, subst, ◌∙◌, ap}
use mathlib.Core.List.{Perm, map-append, append-nil, append_assoc, perm_middle}
use mathlib.Core.List.Perm
use mathlib.Core.Option
use opencom.Base.{
  ℕ, zero, suc, ◌+◌, ◌≤◌, ◌<◌, ◌≢◌, ◌⊎◌, inl, inr, true, false, Option, none, some, List, [], ◌∷◌,
  ◌++◌, map, arith, Str, codes, Bool-cases, length, length-append, if◌then◌else◌, ◌==◌, nat_eq,
}
use opencom.Base.Dict.{lookup, lookup-insert}
use opencom.Base.Hub.{
  Chan, Hub, publish, publish-room, attach, attach_other, detach_other, next_id-publish,
  next_id-detach,
}
use opencom.Call.Session.{
  State, Direction, new_session, ringing, connecting, connected, ended, ordinal, state_string,
  Session, StateChange, TransitionError, shift, shut, subscribe, unsubscribe, broadcast, change,
}
use opencom.Call.Session.Lifecycle.{Op, ring, connect, establish, finish, join, leave}
use opencom.Call.Session.Events.{Stays, ordinal_le, ==_self, ==_below, states_of}

-- A session, and the events of the calls that have changed it and not yet broadcast.
pub record Shared : Type 0 where
  pub session : Session
  pub pending : List StateChange

-- The part of a call up to its broadcast, or the broadcast of one that waits.
pub data Turn : Type 0 where
  locked : Op → Turn
  send : ℕ → Turn

abbrev pub made_event : TransitionError ⊎ StateChange → Option StateChange
made_event (inl err) = none
made_event (inr ev) = some ev

unfoldable pub under_lock : Op → Session → Session × Option StateChange
under_lock (ring now) s = let (s', r) = shift ringing (codes "") now s in (s', made_event r)
under_lock (connect now) s = let (s', r) = shift connecting (codes "") now s in (s', made_event r)
under_lock (establish now) s = let (s', r) = shift connected (codes "") now s in (s', made_event r)
under_lock (finish reason now) s = shut reason now s
under_lock join s = ((subscribe s).0, none)
under_lock (leave id) s = (unsubscribe id s, none)

abbrev pub to_list {ℓ} : {A : Type ℓ} → Option A → List A
to_list none = []
to_list (some a) = a ∷ []

-- The n-th of those that wait, and the others.
unfoldable pub take_nth : ℕ → List StateChange → Option (StateChange × List StateChange)
take_nth n [] = none
take_nth zero (ev ∷ evs) = some (ev, evs)
take_nth (suc n) (ev ∷ evs) =
    Option.map (λ (r : StateChange × List StateChange). (r.0, ev ∷ r.1)) (take_nth n evs)

unfoldable pub sent : Option (StateChange × List StateChange) → Shared → Shared
sent none o = o
sent (some (ev, rest)) o = record { session = broadcast ev o.session; pending = rest }

unfoldable pub turn : Turn → Shared → Shared
turn (locked op) o =
    let (s, ev) = under_lock op o.session in
    record { session = s; pending = o.pending ++ to_list ev }
turn (send n) o = sent (take_nth n o.pending) o

unfoldable pub turns : List Turn → Shared → Shared
turns [] o = o
turns (t ∷ ts) o = turns ts (turn t o)

-- The states that the session enters.
abbrev pub entered_at : Turn → Shared → List State
entered_at t o =
    let s = (turn t o).session.state in if ordinal s == ordinal o.session.state then [] else s ∷ []

unfoldable pub all_entered : List Turn → Shared → List State
all_entered [] o = []
all_entered (t ∷ ts) o = entered_at t o ++ all_entered ts (turn t o)

abbrev pub names : List StateChange → List Str
names evs = map (λ (ev : StateChange). ev.state) evs

abbrev pub AllStay : ℕ → List Turn → Type 0
AllStay k [] = Unit
AllStay k (locked op ∷ ts) = Stays k op × AllStay k ts
AllStay k (send n ∷ ts) = AllStay k ts

unfoldable pub program : Unit {0}
unfolding under_lock take_nth sent turn turns all_entered
program = tt
