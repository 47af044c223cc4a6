-- ===== src/Call/Manager.antt =====
-- internal/call/manager.go: the registry of sessions and its fan-out. Session objects live in `heap`,
-- by reference; `registry` maps an ID to the reference that it was registered with; `forwarders` are
-- the goroutines that Register starts, each with its subscription of the session.
pub mod Forward
mod Tests
use opencom.Friends.Store.{str_ltb}
use opencom.Base.{
  map, ℕ, Bool, true, false, Option, none, some, List, [], ◌∷◌, Str, str_eq, nat_eq, ◌==◌, codes,
  if◌then◌else◌, is_some,
}
use opencom.Base.Dict.{Dict, lookup, insert, delete}
use opencom.Base.Hub.{Chan, Hub, empty_hub, try_send, publish, attach, detach}
use opencom.Call.Session.{
  Session, StateChange, Direction, inbound, outbound, subscribe, unsubscribe,
}

pub record CallManager : Type 0 where
  pub heap : Dict ℕ Session
  pub registry : Dict Str ℕ
  pub inbound_chan : Chan ℕ
  pub hub : Hub StateChange
  pub forwarders : Dict ℕ ℕ

unfoldable pub new_call_manager : Dict ℕ Session → CallManager
new_call_manager heap = record {
  heap = heap;
  registry = [];
  inbound_chan = record { cap = 16; buf = [] };
  hub = empty_hub;
  forwarders = [];
}

-- The Inbound channel: what does not fit is dropped.
unfoldable pub announce : Direction → ℕ → Chan ℕ → Chan ℕ
announce inbound ref ch = try_send ref ch
announce outbound ref ch = ch

-- `Register` of the object at a reference.
unfoldable pub register_new : Option ℕ → ℕ → Session → CallManager → CallManager
register_new (some known) ref s m = m
register_new none ref s m =
    let (s', sub) = subscribe s in
    record {
      heap = insert ref s' m.heap;
      registry = insert s.id ref m.registry;
      inbound_chan = announce s.direction ref m.inbound_chan;
      hub = m.hub;
      forwarders = insert ref sub m.forwarders;
    }

unfoldable pub register : ℕ → Session → CallManager → CallManager
register ref s m = register_new (lookup s.id m.registry) ref s m

unfoldable pub get : Str → CallManager → Option ℕ
get id m = lookup id m.registry

-- `List`: the sessions by their ID.
unfoldable pub insert_by_id : Str × ℕ → List (Str × ℕ) → List (Str × ℕ)
insert_by_id row [] = row ∷ []
insert_by_id row (other ∷ rest) =
    let later = insert_by_id row rest in
    if str_ltb other.0 row.0 then other ∷ later else row ∷ other ∷ rest

unfoldable pub sorted_rows : List (Str × ℕ) → List (Str × ℕ)
sorted_rows [] = []
sorted_rows (row ∷ rest) = insert_by_id row (sorted_rows rest)

unfoldable pub list : CallManager → List ℕ
list m = map (λ row. row.1) (sorted_rows m.registry)

unfoldable pub remove : Str → CallManager → CallManager
remove id m = record m { registry = delete id m.registry }

unfoldable pub subscribe_state_changes : CallManager → CallManager × ℕ
subscribe_state_changes m = let (h, id) = attach 32 m.hub in (record m { hub = h }, id)

unfoldable pub unsubscribe_state_changes : ℕ → CallManager → CallManager
unsubscribe_state_changes id m = record m { hub = detach id m.hub }

unfoldable pub fanout : StateChange → CallManager → CallManager
fanout ev m = record m { hub = publish ev m.hub }

-- The session once its subscriber `sub` has taken an event and `rest` is left.
unfoldable pub taken_from : ℕ → Chan StateChange → List StateChange → Session → Session
taken_from sub ch rest s = record s {
  hub = record (s.hub) { subs = insert sub (record ch { buf = rest }) s.hub.subs };
}

-- One round of the forwarder's loop; with an empty channel it waits.
unfoldable pub forward_event :
    List StateChange → Chan StateChange → ℕ → Session → ℕ → CallManager → CallManager
forward_event [] ch sub s ref m = m
forward_event (ev ∷ rest) ch sub s ref m =
    let s' = taken_from sub ch rest s in
    let m' = fanout ev m in
    if ev.state == codes "ended"
    then record m' {
      heap = insert ref (unsubscribe sub s') m.heap;
      forwarders = delete ref m.forwarders;
    }
    else record m' { heap = insert ref s' m.heap }

unfoldable pub forward_chan :
    Option (Chan StateChange) → ℕ → Session → ℕ → CallManager → CallManager
forward_chan none sub s ref m = m
forward_chan (some ch) sub s ref m = forward_event ch.buf ch sub s ref m

unfoldable pub forward_object : Option Session → ℕ → ℕ → CallManager → CallManager
forward_object none sub ref m = m
forward_object (some s) sub ref m = forward_chan (lookup sub s.hub.subs) sub s ref m

unfoldable pub forward_sub : Option ℕ → ℕ → CallManager → CallManager
forward_sub none ref m = m
forward_sub (some sub) ref m = forward_object (lookup ref m.heap) sub ref m

unfoldable pub forward : ℕ → CallManager → CallManager
forward ref m = forward_sub (lookup ref m.forwarders) ref m

unfoldable pub program : Unit {0}
unfolding new_call_manager announce register_new register get insert_by_id sorted_rows list remove
    subscribe_state_changes unsubscribe_state_changes fanout taken_from forward_event forward_chan
    forward_object forward_sub forward lookup insert delete publish attach detach empty_hub try_send
    subscribe unsubscribe
program = tt
