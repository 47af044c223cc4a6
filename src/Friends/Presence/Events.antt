-- ===== src/Friends/Presence/Events.antt =====
-- internal/friends/presence.go: the events of a peer alternate.
use mathlib.Core.Path.{◌≡◌, refl, sym, subst, ◌∙◌, ap}
use opencom.Base.{
  ℕ, Bool, true, false, Option, none, some, List, [], ◌∷◌, Str, str_eq, if◌then◌else◌, not, arith,
  ◌==◌, str_beq_iff, inl, inr, Bool-cases,
}
use opencom.Base.Dict.{lookup, lookup-insert}
use opencom.Base.Hub.{Hub, publish}
use opencom.Friends.Presence.{
  mark_locked, tell, Presence, PresenceEvent, transition, mark_online, mark_offline, is_online,
  event_of, record_mark, broadcast, bool_or_false,
}
use opencom.Friends.Presence.State.{Mark, mark, mark_as, run}

-- The events that the marks of a run cause, in order.
abbrev pub cons_option {ℓ} : {A : Type ℓ} → Option A → List A → List A
cons_option none l = l
cons_option (some a) l = a ∷ l

unfoldable pub events : List Mark → Presence → List PresenceEvent
events [] p = []
events (m ∷ ms) p = cons_option (mark_locked m.id m.up m.now p).1 (events ms (mark m p))

abbrev pub publish_all : List PresenceEvent → Hub PresenceEvent → Hub PresenceEvent
publish_all [] h = h
publish_all (ev ∷ evs) h = publish_all evs (publish ev h)

publish_all-cons :
    (ev : Option PresenceEvent) (evs : List PresenceEvent) (p : Presence)
    → publish_all (cons_option ev evs) p.hub ≡ publish_all evs (tell ev p).hub
unfolding tell broadcast
publish_all-cons none evs p = refl
publish_all-cons (some ev) evs p = refl

hub-mark_locked :
    (id : Str) (online : Bool) (now : ℕ) (p : Presence)
    → (mark_locked id online now p).0.hub ≡ p.hub
unfolding mark_locked record_mark
hub-mark_locked id online now p = ground arith

-- The events about one peer flip its state, starting from `before`.
abbrev pub Alternates : Str → Bool → List PresenceEvent → Type 0
Alternates id before [] = Unit
Alternates id before (ev ∷ evs) =
    if ev.peer_id == id
    then (ev.online ≡ not before) × Alternates id (not before) evs
    else Alternates id before evs

-- A peer's state after a mark.
marked_online :
    (id k : Str) (up : Bool) (now : ℕ) (p : Presence)
    → is_online id (transition k up now p) ≡ (if k == id then up else is_online id p)
unfolding is_online transition mark_locked tell record_mark broadcast
marked_online id k up now p = ground (arith, str_beq_iff k id, lookup-insert k id up p.online)

own_event :
    (id : Str) (up : Bool) (now : ℕ) (prev : Option Bool) (evs : List PresenceEvent)
    → Alternates id up evs
    → Alternates id (bool_or_false prev) (cons_option (event_of id up now prev) evs)
own_event id false now none evs h = h
own_event id true now none evs h = rw ((str_beq_iff id id).1 refl) (refl, h)
own_event id true now (some true) evs h = h
own_event id true now (some false) evs h = rw ((str_beq_iff id id).1 refl) (refl, h)
own_event id false now (some true) evs h = rw ((str_beq_iff id id).1 refl) (refl, h)
own_event id false now (some false) evs h = h

other_event :
    (id k : Str) (before up : Bool) (now : ℕ) (prev : Option Bool) (evs : List PresenceEvent)
    → (k == id) ≡ false
    → Alternates id before evs
    → Alternates id before (cons_option (event_of k up now prev) evs)
other_event id k before false now none evs e h = h
other_event id k before true now none evs e h = rw e h
other_event id k before true now (some true) evs e h = h
other_event id k before true now (some false) evs e h = rw e h
other_event id k before false now (some true) evs e h = rw e h
other_event id k before false now (some false) evs e h = h

mark_as-transition :
    (up : Bool) (id : Str) (now : ℕ) (p : Presence) → mark_as up id now p ≡ transition id up now p
unfolding mark_online mark_offline
mark_as-transition true id now p = refl
mark_as-transition false id now p = refl

mark-transition : (m : Mark) (p : Presence) → mark m p ≡ transition m.id m.up m.now p
unfolding mark
mark-transition m p = mark_as-transition m.up m.id m.now p

mark-Alternates :
    (id k : Str) (up : Bool) (now : ℕ) (p : Presence) (evs : List PresenceEvent)
    → Alternates id (is_online id (transition k up now p)) evs
    → Alternates id (is_online id p) (cons_option (event_of k up now (lookup k p.online)) evs)
mark-Alternates id k up now p evs h = elim (Bool-cases (k == id)) [
  | inl this ↦
      subst
        (λ j.
          Alternates id (is_online id p) (cons_option (event_of j up now (lookup j p.online)) evs))
        (sym ((str_beq_iff k id).0 this))
        (unfold is_online in
          own_event id up now (lookup id p.online) evs
            (rw (marked_online id k up now p, this) at h))
  | inr other ↦
      other_event id k (is_online id p) up now (lookup k p.online) evs other
        (rw (marked_online id k up now p, other) at h)
]

event-mark_locked :
    (id : Str) (up : Bool) (now : ℕ) (p : Presence)
    → (mark_locked id up now p).1 ≡ event_of id up now (lookup id p.online)
unfolding mark_locked
event-mark_locked id up now p = ground arith

hub-mark :
    (m : Mark) (p : Presence) (evs : List PresenceEvent)
    → publish_all evs (mark m p).hub
      ≡ publish_all (cons_option (mark_locked m.id m.up m.now p).1 evs) p.hub
unfolding transition
hub-mark m p evs =
    let (p', ev) = mark_locked m.id m.up m.now p in
    ap (λ (q : Presence). publish_all evs q.hub) (mark-transition m p)
    ∙ sym (publish_all-cons ev evs p')
    ∙ ap (publish_all (cons_option ev evs)) (hub-mark_locked m.id m.up m.now p)

hub-run : (ms : List Mark) (p : Presence) → (run ms p).hub ≡ publish_all (events ms p) p.hub
unfolding run events
hub-run [] p = refl
hub-run (m ∷ ms) p = hub-run ms (mark m p) ∙ hub-mark m p (events ms (mark m p))

run-Alternates :
    (id : Str) (ms : List Mark) (p : Presence) → Alternates id (is_online id p) (events ms p)
unfolding events
run-Alternates id [] p = tt
run-Alternates id (m ∷ ms) p = rw (event-mark_locked m.id m.up m.now p) (
    mark-Alternates id m.id m.up m.now p _ (
      subst (λ q. Alternates id (is_online id q) (events ms (mark m p))) (mark-transition m p)
        (run-Alternates id ms (mark m p))))

-- Whatever marks are made of whatever peers, each broadcasting before the next one starts: the channels
-- of the subscribers are offered one event for each change of a peer's state, in order, and nothing else,
-- and the events about one peer strictly alternate between online and offline, starting with the opposite
-- of its state before the marks.
pub events-Alternates :
    (id : Str) (ms : List Mark) (p : Presence)
    → ((run ms p).hub ≡ publish_all (events ms p) p.hub)
      × Alternates id (is_online id p) (events ms p)
events-Alternates id ms p = (hub-run ms p, run-Alternates id ms p)
