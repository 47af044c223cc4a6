-- ===== src/Friends/Presence.antt =====
-- internal/friends/presence.go: who is online, since when, and the events that subscribers get.
-- The clock's reading is an argument of the marks. A mark is what it does under p.mu followed by its
-- broadcast under p.subsMu; other calls between the two halves are not modelled.
pub mod Events
pub mod State
mod Tests
use opencom.Base.{
  ℕ, Bool, true, false, Option, none, some, List, [], ◌∷◌, Str, str_eq, if◌then◌else◌, not, ◌&&◌,
  is_some,
}
use opencom.Base.Dict.{Dict, lookup, insert}
use opencom.Base.Hub.{Hub, empty_hub, publish, attach, detach}

pub record PresenceEvent : Type 0 where
  pub peer_id : Str
  pub online : Bool
  pub time : ℕ

pub record Presence : Type 0 where
  pub online : Dict Str Bool
  pub last_seen : Dict Str ℕ
  pub hub : Hub PresenceEvent

unfoldable pub new_presence : Presence
new_presence = record { online = []; last_seen = []; hub = empty_hub }

-- Go's `m[k]` on a missing key is the zero value.
abbrev pub bool_or_false : Option Bool → Bool
bool_or_false none = false
bool_or_false (some b) = b

abbrev pub same_bool : Bool → Bool → Bool
same_bool true b = b
same_bool false b = not b

-- What a mark records once it is not the no-op of an unknown peer going offline.
unfoldable pub record_mark : Str → Bool → ℕ → Presence → Presence
record_mark id online now p = record p {
  online = insert id online p.online;
  last_seen = insert id now p.last_seen;
}

unfoldable pub broadcast : PresenceEvent → Presence → Presence
broadcast ev p = record p { hub = publish ev p.hub }

-- The event that a mark of a peer causes, if it changes what the map held.
abbrev pub event_of : Str → Bool → ℕ → Option Bool → Option PresenceEvent
event_of id online now prev =
    if same_bool (bool_or_false prev) online
    then none
    else some (record { peer_id = id; online = online; time = now })

-- `transition` while it holds p.mu: the maps, and the event that is to be broadcast.
unfoldable pub mark_locked : Str → Bool → ℕ → Presence → Presence × Option PresenceEvent
mark_locked id online now p =
    let prev = lookup id p.online in
    if not (is_some prev) && not online
    then (p, none)
    else (record_mark id online now p, event_of id online now prev)

-- `transition` once it has released p.mu.
unfoldable pub tell : Option PresenceEvent → Presence → Presence
tell none p = p
tell (some ev) p = broadcast ev p

unfoldable pub transition : Str → Bool → ℕ → Presence → Presence
transition id online now p = let (p', ev) = mark_locked id online now p in tell ev p'

unfoldable pub mark_online : Str → ℕ → Presence → Presence
mark_online id now p = transition id true now p

unfoldable pub mark_offline : Str → ℕ → Presence → Presence
mark_offline id now p = transition id false now p

unfoldable pub is_online : Str → Presence → Bool
is_online id p = bool_or_false (lookup id p.online)

-- `none` is the zero time.
unfoldable pub last_seen : Str → Presence → Option ℕ
last_seen id p = lookup id p.last_seen

unfoldable pub subscribe : Presence → Presence × ℕ
subscribe p = let (h, id) = attach 16 p.hub in (record p { hub = h }, id)

unfoldable pub unsubscribe : ℕ → Presence → Presence
unsubscribe id p = record p { hub = detach id p.hub }
