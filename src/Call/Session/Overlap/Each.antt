-- ===== src/Call/Session/Overlap/Each.antt =====
-- internal/call/session.go: what a subscriber receives when calls overlap.
use mathlib.Core.Path.{◌≡◌, refl, sym, subst, ◌∙◌, ap}
use mathlib.Core.List.{Perm, map-append, append-nil, append_assoc}
use mathlib.Core.List.Perm
use mathlib.Core.Option
use opencom.Base.{
  ℕ, zero, suc, ◌+◌, ◌≤◌, ◌<◌, inl, inr, Option, none, some, List, [], ◌∷◌, ◌++◌, map, arith, Str,
  codes, Bool-cases, length, length-append, if◌then◌else◌, ◌==◌, nat_eq,
}
use opencom.Base.Dict.{lookup, lookup-insert}
use opencom.Base.Hub.{
  Chan, publish-room, attach, attach_other, detach_other, next_id-publish, next_id-detach,
}
use opencom.Call.Session.{
  State, Direction, new_session, ringing, connecting, connected, ended, ordinal, state_string,
  Session, StateChange, shift, shut, subscribe, unsubscribe, broadcast, change,
}
use opencom.Call.Session.Lifecycle.{Op, ring, connect, establish, finish, join, leave}
use opencom.Call.Session.Events.{Stays, ordinal_le, ==_self, ==_below}
use opencom.Call.Session.Overlap.{
  Shared, Turn, locked, send, made_event, under_lock, to_list, take_nth, sent, turn, turns,
  entered_at, all_entered, names, AllStay,
}

-- What the lock's part of a call does: nothing that matters to a channel, or one event for a new state.
data Locked (k : ℕ) (s : Session) : Session × Option StateChange → Type 0 where
  quiet :
      {r : Session}
      → r.state ≡ s.state
      → lookup k r.hub.subs ≡ lookup k s.hub.subs
      → s.hub.next_id ≤ r.hub.next_id
      → Locked k s (r, none)
  moved :
      {r : Session} {ev : StateChange}
      → r.hub ≡ s.hub
      → ev.state ≡ state_string r.state
      → ordinal s.state < ordinal r.state
      → Locked k s (r, some ev)

shift-Locked :
    (k : ℕ) (target : State) (reason : Str) (now : ℕ) (s : Session)
    → Locked k s ((shift target reason now s).0, made_event (shift target reason now s).1)
unfolding shift change
shift-Locked k target reason now s = elim (Bool-cases (ordinal s.state == ordinal ended)) [
  | inl over ↦ rw over (quiet refl refl (omega arith))
  | inr live ↦ elim (Bool-cases (ordinal target == ordinal s.state + 1)) [
    | inl next ↦ rw (live, next) (moved refl refl (ground arith))
    | inr other ↦ rw (live, other) (quiet refl refl (omega arith))
  ]
]

shut-Locked : (k : ℕ) (reason : Str) (now : ℕ) (s : Session) → Locked k s (shut reason now s)
unfolding shut change
shut-Locked k reason now s = elim (Bool-cases (ordinal s.state == ordinal ended)) [
  | inl over ↦ rw over (quiet refl refl (omega arith))
  | inr live ↦ rw live (moved refl refl (ground (arith, ordinal_le s.state)))
]

under_lock-Locked :
    (k : ℕ) (op : Op) (s : Session) → Stays k op → k < s.hub.next_id → Locked k s (under_lock op s)
unfolding under_lock subscribe unsubscribe attach
under_lock-Locked k (ring now) s _ known = shift-Locked k ringing (codes "") now s
under_lock-Locked k (connect now) s _ known = shift-Locked k connecting (codes "") now s
under_lock-Locked k (establish now) s _ known = shift-Locked k connected (codes "") now s
under_lock-Locked k (finish reason now) s _ known = shut-Locked k reason now s
under_lock-Locked k join s _ known = quiet refl (attach_other 16 k s.hub known) (omega arith)
under_lock-Locked k (leave id) s other known =
    quiet refl (detach_other id k s.hub other) (rw (next_id-detach id s.hub) (omega arith))

-- A channel of 16 for which there is room: what waits in it and what is still to come are no more than
-- the states that were entered.
record KeptUp (k : ℕ) (o : Shared) (ch : Chan StateChange) : Type 0 where
  found : lookup k o.session.hub.subs ≡ some ch
  known : k < o.session.hub.next_id
  roomy : ch.cap ≡ 16
  few : length ch.buf + length o.pending ≤ ordinal o.session.state

-- What a channel has and will get.
abbrev owed : Chan StateChange → Shared → List Str
owed ch o = names (ch.buf ++ o.pending)

-- After a turn the channel has or will get the states that the turn entered, too.
abbrev Received : ℕ → Shared → Shared → Chan StateChange → List State → Type 0
Received k o o' ch new =
    (ch' : Chan StateChange) × KeptUp k o' ch'
    × Perm (owed ch' o') (owed ch o ++ map state_string new)

≡-Perm : {l m : List Str} → l ≡ m → Perm l m
≡-Perm {l} e = subst (Perm l) e (Perm.refl l)

Locked-Received :
    (k : ℕ) (o : Shared) (ch : Chan StateChange) (r : Session) (ev : Option StateChange)
    → Locked k o.session (r, ev)
    → KeptUp k o ch
    → Received k o
        (record { session = r; pending = o.pending ++ to_list ev })
        ch
        (if ordinal r.state == ordinal o.session.state then [] else r.state ∷ [])
Locked-Received k o ch r none (quiet same untouched grows) kept =
    subst
      (λ t.
        Received k o (record { session = r; pending = o.pending ++ [] }) ch
          (if ordinal t == ordinal o.session.state then [] else t ∷ []))
      (sym same)
      (rw (==_self (ordinal o.session.state)) (
        ch,
        record {
          found = untouched ∙ kept.found;
          known = omega (arith, kept.known, grows);
          roomy = kept.roomy;
          few = omega (
            arith,
            ap ordinal same,
            ap (λ (l : List StateChange). length l) (append-nil o.pending),
            kept.few,
          );
        },
        ≡-Perm (
            ap (λ l. names (ch.buf ++ l)) (append-nil o.pending)
            ∙ sym (append-nil (names (ch.buf ++ o.pending)))),
      ))
Locked-Received k o ch r (some ev) (moved still named up) kept =
    rw (==_below (ordinal o.session.state) (ordinal r.state) up) (
      ch,
      record {
        found = rw still kept.found;
        known = rw still kept.known;
        roomy = kept.roomy;
        few = omega (arith, length-append o.pending (ev ∷ []), kept.few, up);
      },
      ≡-Perm (
          ap names (sym (append_assoc ch.buf o.pending (ev ∷ [])))
          ∙ map-append (λ (e : StateChange). e.state) (ch.buf ++ o.pending) (ev ∷ [])
          ∙ ap (λ n. names (ch.buf ++ o.pending) ++ n ∷ []) named),
    )

-- The rest of the events once one is taken out.
abbrev Taken : List StateChange → StateChange × List StateChange → Type 0
Taken evs r = Perm (r.0 ∷ r.1) evs × (length evs ≡ length r.1 + 1)

taken_inj : {a b : StateChange × List StateChange} → some a ≡ some b → a ≡ b
taken_inj q = cc

take_nth-Taken :
    (n : ℕ) (evs : List StateChange) (r : StateChange × List StateChange)
    → take_nth n evs ≡ some r
    → Taken evs r
unfolding take_nth
take_nth-Taken n [] r h = cc
take_nth-Taken zero (e ∷ evs) r h =
    subst (Taken (e ∷ evs)) (taken_inj h) (Perm.refl (e ∷ evs), omega arith)
take_nth-Taken (suc n) (e ∷ evs) r h = go (take_nth n evs) (take_nth-Taken n evs) h
  where
    go :
        (o : Option (StateChange × List StateChange))
        → ((x : StateChange × List StateChange) → o ≡ some x → Taken evs x)
        → Option.map (λ (x : StateChange × List StateChange). (x.0, e ∷ x.1)) o ≡ some r
        → Taken (e ∷ evs) r
    go none later h' = cc
    go (some (x, xs)) later h' =
        let (same, count) = later (x, xs) refl in
        subst (Taken (e ∷ evs)) (taken_inj h')
          (Perm.trans (Perm.swap e x xs) (Perm.cons e same), omega (arith, count))

abbrev Gives : Option (StateChange × List StateChange) → Shared → Type 0
Gives none o = Unit
Gives (some r) o = Taken o.pending r

state-sent :
    (r : Option (StateChange × List StateChange)) (o : Shared)
    → (sent r o).session.state ≡ o.session.state
unfolding sent broadcast
state-sent none o = refl
state-sent (some r) o = refl

sent-Received :
    (k : ℕ) (o : Shared) (ch : Chan StateChange) (r : Option (StateChange × List StateChange))
    → Gives r o
    → KeptUp k o ch
    → Received k o (sent r o) ch []
unfolding sent broadcast
sent-Received k o ch none _ kept = (ch, kept, ≡-Perm (sym (append-nil (owed ch o))))
sent-Received k o ch (some (ev, rest)) (same, count) kept = (
  record ch { buf = ch.buf ++ ev ∷ [] },
  record {
    found =
        publish-room ev k o.session.hub ch kept.found
          (omega (arith, kept.roomy, kept.few, count, ordinal_le o.session.state));
    known = rw (next_id-publish ev o.session.hub) kept.known;
    roomy = kept.roomy;
    few = omega (arith, length-append ch.buf (ev ∷ []), count, kept.few);
  },
  Perm.trans (≡-Perm (ap names (append_assoc ch.buf (ev ∷ []) rest))) (
      Perm.trans (Perm.map (λ (e : StateChange). e.state) (Perm.append_left ch.buf same))
        (≡-Perm (sym (append-nil (owed ch o))))),
)

take_nth-Gives :
    (n : ℕ) (o : Shared) (r : Option (StateChange × List StateChange))
    → take_nth n o.pending ≡ r
    → Gives r o
take_nth-Gives n o none q = tt
take_nth-Gives n o (some r) q = take_nth-Taken n o.pending r q

turn-Received :
    (k : ℕ) (t : Turn) (o : Shared) (ch : Chan StateChange)
    → AllStay k (t ∷ [])
    → KeptUp k o ch
    → Received k o (turn t o) ch (entered_at t o)
unfolding turn
turn-Received k (locked op) o ch stays kept =
    Locked-Received k o ch (under_lock op o.session).0 (under_lock op o.session).1
      (under_lock-Locked k op o.session stays.0 kept.known) kept
turn-Received k (send n) o ch _ kept =
    subst (Received k o (sent (take_nth n o.pending) o) ch) {x = []}
      (rw (state-sent (take_nth n o.pending) o, ==_self (ordinal o.session.state)) refl)
      (sent-Received k o ch (take_nth n o.pending) (take_nth-Gives n o (take_nth n o.pending) refl)
        kept)

AllStay-split :
    (k : ℕ) (t : Turn) (ts : List Turn) → AllStay k (t ∷ ts) → AllStay k (t ∷ []) × AllStay k ts
AllStay-split k (locked op) ts a = ((a.0, tt), a.1)
AllStay-split k (send n) ts a = (tt, a)

turns-Received :
    (k : ℕ) (ts : List Turn) (o : Shared) (ch : Chan StateChange)
    → AllStay k ts
    → KeptUp k o ch
    → Received k o (turns ts o) ch (all_entered ts o)
unfolding turns all_entered
turns-Received k [] o ch _ kept = (ch, kept, ≡-Perm (sym (append-nil (owed ch o))))
turns-Received k (t ∷ ts) o ch stays kept =
    let (now, later) = AllStay-split k t ts stays in
    let (mid, kept', got) = turn-Received k t o ch now kept in
    let (last, kept'', rest) = turns-Received k ts (turn t o) mid later kept' in
    (
      last,
      kept'',
      Perm.trans rest (
          Perm.trans (Perm.append_right (map state_string (all_entered ts (turn t o))) got) (
            ≡-Perm (
              append_assoc (owed ch o) _ _
              ∙ ap (λ l. owed ch o ++ l)
                  (sym (map-append state_string (entered_at t o) (all_entered ts (turn t o))))))),
    )

-- Each event that waits is of another state that was entered.
abbrev Counted : Shared → Type 0
Counted o = length o.pending ≤ ordinal o.session.state

under_lock_counts :
    (op : Op) (s : Session)
    → length (to_list (under_lock op s).1) + ordinal s.state ≤ ordinal (under_lock op s).0.state
unfolding under_lock shift shut subscribe unsubscribe
under_lock_counts (ring now) s = ground arith
under_lock_counts (connect now) s = ground arith
under_lock_counts (establish now) s = ground arith
under_lock_counts (finish reason now) s = ground (arith, ordinal_le s.state)
under_lock_counts join s = omega arith
under_lock_counts (leave id) s = omega arith

sent-Counted :
    (r : Option (StateChange × List StateChange)) (o : Shared)
    → Gives r o
    → Counted o
    → Counted (sent r o)
unfolding sent broadcast
sent-Counted none o _ c = c
sent-Counted (some r) o g c = omega (arith, g.1, c)

turn-Counted : (t : Turn) (o : Shared) → Counted o → Counted (turn t o)
unfolding turn
turn-Counted (locked op) o c = omega (
  arith,
  length-append o.pending (to_list (under_lock op o.session).1),
  under_lock_counts op o.session,
  c,
)
turn-Counted (send n) o c =
    sent-Counted (take_nth n o.pending) o (take_nth-Gives n o (take_nth n o.pending) refl) c

turns-Counted : (ts : List Turn) (o : Shared) → Counted o → Counted (turns ts o)
unfolding turns
turns-Counted [] o c = c
turns-Counted (t ∷ ts) o c = turns-Counted ts (turn t o) (turn-Counted t o c)

-- A session after some turns, and then with one more subscriber.
abbrev pub before_join : Str → Str → Direction → ℕ → List Turn → Shared
before_join id remote side created ts =
    turns ts (record { session = new_session id remote side created; pending = [] })

abbrev pub subscription : Shared → ℕ
subscription o = (subscribe o.session).1

abbrev pub joined : Shared → Shared
joined o = record o { session = (subscribe o.session).0 }

joined-KeptUp :
    (o : Shared) → Counted o → KeptUp (subscription o) (joined o) (record { cap = 16; buf = [] })
unfolding subscribe attach
joined-KeptUp o c = record {
  found = ground (
    arith,
    lookup-insert o.session.hub.next_id o.session.hub.next_id (record { cap = 16; buf = [] })
        o.session.hub.subs,
  );
  known = omega arith;
  roomy = refl;
  few = omega (arith, c);
}

-- However the calls on a new session overlap, their broadcasts in any order: a subscriber that does
-- not unsubscribe, even if it reads nothing, loses no event and gets none twice. What is in its channel
-- and what the calls under way have still to send is, up to the order, what they had still to send when
-- it subscribed, and the name of every state that the session has entered since, once each.
pub subscriber_misses_none :
    (id remote : Str) (side : Direction) (created : ℕ) (earlier later : List Turn)
    → AllStay (subscription (before_join id remote side created earlier)) later
    → let o = before_join id remote side created earlier in
      let o' = turns later (joined o) in
      (ch : Chan StateChange) × (lookup (subscription o) o'.session.hub.subs ≡ some ch)
      × Perm
          (names (ch.buf ++ o'.pending))
          (names o.pending ++ map state_string (all_entered later (joined o)))
subscriber_misses_none id remote side created earlier later stays =
    let o = before_join id remote side created earlier in
    let counted =
      turns-Counted earlier (record { session = new_session id remote side created; pending = [] })
        (omega arith) in
    let (ch, kept, got) =
      turns-Received (subscription o) later (joined o) (record { cap = 16; buf = [] }) stays
        (joined-KeptUp o counted) in
    (ch, kept.found, got)
