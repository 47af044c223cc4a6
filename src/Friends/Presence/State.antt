-- ===== src/Friends/Presence/State.antt =====
-- internal/friends/presence.go: what the maps say after any sequence of marks.
use mathlib.Core.Path.{◌≡◌, refl, ap}
use opencom.Base.{
  ℕ, Bool, true, false, Option, none, some, List, [], ◌∷◌, Str, str_eq, if◌then◌else◌, not, ◌&&◌,
  is_some, arith, ◌==◌, str_beq_iff,
}
use opencom.Base.Dict.{lookup, lookup-insert}
use opencom.Friends.Presence.{
  mark_locked, tell, Presence, new_presence, transition, mark_online, mark_offline, is_online,
  last_seen, record_mark, broadcast, bool_or_false,
}

-- A mark: the peer, whether it is reachable, and the clock.
pub record Mark : Type 0 where
  pub id : Str
  pub up : Bool
  pub now : ℕ

abbrev pub mark_as : Bool → Str → ℕ → Presence → Presence
mark_as true = mark_online
mark_as false = mark_offline

unfoldable pub mark : Mark → Presence → Presence
mark m p = mark_as m.up m.id m.now p

unfoldable pub run : List Mark → Presence → Presence
run [] p = p
run (m ∷ ms) p = run ms (mark m p)

-- What a peer's history amounts to: nothing until it first comes online, then its last mark.
abbrev pub Known : Type 0
Known = Option (Bool × ℕ)

abbrev pub after : Str → Mark → Known → Known
after id m known =
    if m.id == id
    then (if not (is_some known) && not m.up then none else some (m.up, m.now))
    else known

abbrev pub history : Str → List Mark → Known → Known
history id [] known = known
history id (m ∷ ms) known = history id ms (after id m known)

abbrev pub seen : Known → Option ℕ
seen none = none
seen (some (_, now)) = some now

abbrev pub up_now : Known → Option Bool
up_now none = none
up_now (some (up, _)) = some up

-- The two maps hold one history.
abbrev Holds : Str → Presence → Known → Type 0
Holds id p known = (lookup id p.online ≡ up_now known) × (lookup id p.last_seen ≡ seen known)

mark-Holds :
    (id : Str) (m : Mark) (p : Presence) (known : Known)
    → Holds id p known
    → Holds id (mark m p) (after id m known)
unfolding mark mark_online mark_offline transition mark_locked tell record_mark broadcast
mark-Holds id m p none h = ground (
  arith,
  str_beq_iff m.id id,
  lookup-insert m.id id m.up p.online,
  lookup-insert m.id id m.now p.last_seen,
)
mark-Holds id m p (some (up, now)) h = ground (
  arith,
  str_beq_iff m.id id,
  lookup-insert m.id id m.up p.online,
  lookup-insert m.id id m.now p.last_seen,
)

run-Holds :
    (id : Str) (ms : List Mark) (p : Presence) (known : Known)
    → Holds id p known
    → Holds id (run ms p) (history id ms known)
unfolding run
run-Holds id [] p known h = h
run-Holds id (m ∷ ms) p known h =
    run-Holds id ms (mark m p) (after id m known) (mark-Holds id m p known h)

-- After any marks of any peers, a peer is online exactly if its last mark says so, its last seen
-- time is that of its last mark, and one that never came online has left no trace in either map.
pub run-history :
    (id : Str) (ms : List Mark)
    → let p = run ms new_presence in
      (is_online id p ≡ bool_or_false (up_now (history id ms none)))
      × (last_seen id p ≡ seen (history id ms none))
      × (lookup id p.online ≡ up_now (history id ms none))
unfolding is_online last_seen
run-history id ms =
    let (on, at) = run-Holds id ms new_presence none (unfold new_presence lookup in (refl, refl)) in
    (ap bool_or_false on, at, on)
