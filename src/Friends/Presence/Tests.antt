-- ===== src/Friends/Presence/Tests.antt =====
-- Marks as internal/friends/presence_test.go makes them, and instances of the theorems.
use mathlib.Core.Path.{◌≡◌, refl}
use opencom.Base.{ℕ, Bool, true, false, none, List, [], ◌∷◌, map, Str, codes, str_beq, str_eq}
use opencom.Base.Dict.{lookup, insert}
use opencom.Friends.Presence.{
  mark_locked, tell, PresenceEvent, new_presence, is_online, last_seen, bool_or_false, transition,
  mark_online, mark_offline, record_mark, broadcast,
}
use opencom.Friends.Presence.State.{Mark, mark, run, history, seen, up_now, run-history}
use opencom.Friends.Presence.Events.{events}

abbrev at : Str → Bool → ℕ → Mark
at id up now = record { id = id; up = up; now = now }

-- An unknown peer goes offline, comes online twice, and goes.
abbrev marks : List Mark
marks =
    at (codes "a") false 1
    ∷ at (codes "a") true 2
    ∷ at (codes "b") true 3
    ∷ at (codes "a") true 4
    ∷ at (codes "a") false 5
    ∷ []

marks-events : map (λ (ev : PresenceEvent). ev.time) (events marks new_presence) ≡ 2 ∷ 3 ∷ 5 ∷ []
unfolding events mark new_presence lookup insert transition mark_locked tell mark_online
    mark_offline record_mark broadcast str_beq
marks-events = refl

run-history_example :
    let p = run marks new_presence in
    (is_online (codes "a") p ≡ bool_or_false (up_now (history (codes "a") marks none)))
    × (last_seen (codes "a") p ≡ seen (history (codes "a") marks none))
    × (lookup (codes "a") p.online ≡ up_now (history (codes "a") marks none))
run-history_example = run-history (codes "a") marks
