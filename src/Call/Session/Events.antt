-- ===== src/Call/Session/Events.antt =====
-- internal/call/session.go: what a subscriber of a session receives when calls do not overlap.
use mathlib.Core.Path.{◌≡◌, refl, sym, subst, ◌∙◌, ap}
use mathlib.Core.List.{map-append, append-nil, append_assoc}
use opencom.Base.{
  ℕ, ◌+◌, ◌≤◌, ◌<◌, ◌≢◌, ◌⊎◌, inl, inr, true, false, none, some, List, [], ◌∷◌, ◌++◌, map, arith,
  Str, codes, Bool-cases, length, length-append, if◌then◌else◌, ◌==◌, nat_eq,
}
use opencom.Base.Dict.{lookup, lookup-insert}
use opencom.Base.Hub.{
  Chan, publish, publish-room, attach, attach_other, detach_other, next_id-publish, next_id-detach,
}
use opencom.Call.Session.{
  shift, announce, shut, tell, State, ringing, connecting, connected, ended, ordinal, state_string,
  Session, StateChange, transition, to_ringing, to_connecting, to_connected, end_session, subscribe,
  unsubscribe, broadcast, change,
}
use opencom.Call.Session.Lifecycle.{Op, ring, connect, establish, finish, join, leave, step, run}

-- The states that a run enters, in order.
abbrev pub entered_by : Op → Session → List State
entered_by op s = let t = (step op s).state in if ordinal t == ordinal s.state then [] else t ∷ []

unfoldable pub entered : List Op → Session → List State
entered [] s = []
entered (op ∷ ops) s = entered_by op s ++ entered ops (step op s)

-- A step that changes the state publishes one event with the state's name; another call leaves
-- the channels alone.
abbrev Shape : Session → Session → Type 0
Shape s r =
    (r ≡ s)
    ⊎ ((ev : StateChange) × (r.hub ≡ publish ev s.hub)
        × (ev.state ≡ state_string r.state)
        × (ordinal s.state < ordinal r.state))

pub ordinal_le : (s : State) → ordinal s ≤ 4
ordinal_le s = ground arith

pub ==_self : (n : ℕ) → (n == n) ≡ true
==_self n = ground arith

pub ==_below : (m n : ℕ) → m < n → (n == m) ≡ false
==_below m n h = ground arith

end_session_moves :
    (reason : Str) (now : ℕ) (s : Session)
    → (ordinal s.state == ordinal ended) ≡ false
    → end_session reason now s
      ≡ broadcast (change ended reason now s) (record s { state = ended; reason = reason })
unfolding end_session shut tell
end_session_moves reason now s live = ground arith

transition_moves :
    (target : State) (reason : Str) (now : ℕ) (s : Session)
    → (ordinal s.state == ordinal ended) ≡ false
    → (ordinal target == ordinal s.state + 1) ≡ true
    → transition target reason now s
      ≡ (broadcast (change target reason now s) (record s { state = target }), none)
unfolding transition shift announce
transition_moves target reason now s live next = ground arith

transition-Shape :
    (target : State) (reason : Str) (now : ℕ) (s : Session)
    → Shape s (transition target reason now s).0
transition-Shape target reason now s = elim (Bool-cases (ordinal s.state == ordinal ended)) [
  | inl over ↦ inl (unfold transition shift announce in ground arith)
  | inr live ↦ elim (Bool-cases (ordinal target == ordinal s.state + 1)) [
    | inl next ↦
        rw (transition_moves target reason now s live next)
          (unfold broadcast change in inr (change target reason now s, refl, refl, ground arith))
    | inr other ↦ inl (unfold transition shift announce in ground arith)
  ]
]

end_session-Shape : (reason : Str) (now : ℕ) (s : Session) → Shape s (end_session reason now s)
end_session-Shape reason now s = elim (Bool-cases (ordinal s.state == ordinal ended)) [
  | inl over ↦ inl (unfold end_session shut tell in ground arith)
  | inr live ↦ rw (end_session_moves reason now s live) (
      unfold broadcast change in
      inr (change ended reason now s, refl, refl, ground (arith, ordinal_le s.state)))
]

-- A channel of 16 that has kept up: fewer events wait than states were entered.
record KeptUp (k : ℕ) (s : Session) (ch : Chan StateChange) : Type 0 where
  found : lookup k s.hub.subs ≡ some ch
  known : k < s.hub.next_id
  roomy : ch.cap ≡ 16
  few : length ch.buf ≤ ordinal s.state

abbrev pub states_of : Chan StateChange → List Str
states_of ch = map (λ (ev : StateChange). ev.state) ch.buf

-- After one call the channel has the states that the call entered.
abbrev Received : ℕ → Session → Session → Chan StateChange → List State → Type 0
Received k s r ch new =
    (ch' : Chan StateChange) × KeptUp k r ch'
    × (states_of ch' ≡ states_of ch ++ map state_string new)

Shape-Received :
    (k : ℕ) (s r : Session) (ch : Chan StateChange)
    → Shape s r
    → KeptUp k s ch
    → Received k s r ch (if ordinal r.state == ordinal s.state then [] else r.state ∷ [])
Shape-Received k s r ch (inl same) kept =
    rw same (rw (==_self (ordinal s.state)) (ch, kept, sym (append-nil (states_of ch))))
Shape-Received k s r ch (inr (ev, published, named, up)) kept =
    rw (==_below (ordinal s.state) (ordinal r.state) up) (
      record ch { buf = ch.buf ++ ev ∷ [] },
      record {
        found = rw published (
            publish-room ev k s.hub ch kept.found
              (omega (arith, kept.roomy, kept.few, ordinal_le s.state)));
        known = rw (published, next_id-publish) kept.known;
        roomy = kept.roomy;
        few = omega (arith, length-append ch.buf (ev ∷ []), kept.few);
      },
      map-append (λ (e : StateChange). e.state) ch.buf (ev ∷ [])
          ∙ ap (λ n. states_of ch ++ n ∷ []) named,
    )

-- The call is not this subscription's own `Unsubscribe`.
abbrev pub Stays : ℕ → Op → Type 0
Stays k (leave id) = id ≢ k
Stays k _ = Unit

quiet-Received :
    (k : ℕ) (s r : Session) (ch : Chan StateChange)
    → r.state ≡ s.state
    → lookup k r.hub.subs ≡ lookup k s.hub.subs
    → s.hub.next_id ≤ r.hub.next_id
    → KeptUp k s ch
    → Received k s r ch (if ordinal r.state == ordinal s.state then [] else r.state ∷ [])
quiet-Received k s r ch same untouched grows kept =
    subst (λ t. Received k s r ch (if ordinal t == ordinal s.state then [] else t ∷ [])) (sym same)
      (rw (==_self (ordinal s.state)) (
        ch,
        record {
          found = untouched ∙ kept.found;
          known = omega (arith, kept.known);
          roomy = kept.roomy;
          few = omega (arith, ap ordinal same, kept.few);
        },
        sym (append-nil (states_of ch)),
      ))

step-Received :
    (k : ℕ) (op : Op) (s : Session) (ch : Chan StateChange)
    → Stays k op
    → KeptUp k s ch
    → Received k s (step op s) ch (entered_by op s)
unfolding step to_ringing to_connecting to_connected subscribe unsubscribe
step-Received k (ring now) s ch _ kept =
    Shape-Received k s _ ch (transition-Shape ringing (codes "") now s) kept
step-Received k (connect now) s ch _ kept =
    Shape-Received k s _ ch (transition-Shape connecting (codes "") now s) kept
step-Received k (establish now) s ch _ kept =
    Shape-Received k s _ ch (transition-Shape connected (codes "") now s) kept
step-Received k (finish reason now) s ch _ kept =
    Shape-Received k s _ ch (end_session-Shape reason now s) kept
step-Received k join s ch _ kept =
    quiet-Received k s (subscribe s).0 ch refl (attach_other 16 k s.hub kept.known)
      (unfold attach in omega arith) kept
step-Received k (leave id) s ch other kept =
    quiet-Received k s (unsubscribe id s) ch refl (detach_other id k s.hub other)
      (rw (next_id-detach id s.hub) (omega arith)) kept

abbrev pub AllStay : ℕ → List Op → Type 0
AllStay k [] = Unit
AllStay k (op ∷ ops) = Stays k op × AllStay k ops

run-Received :
    (k : ℕ) (ops : List Op) (s : Session) (ch : Chan StateChange)
    → AllStay k ops
    → KeptUp k s ch
    → Received k s (run ops s) ch (entered ops s)
unfolding run entered
run-Received k [] s ch _ kept = (ch, kept, sym (append-nil (states_of ch)))
run-Received k (op ∷ ops) s ch stays kept =
    let (mid, kept', got) = step-Received k op s ch stays.0 kept in
    let (last, kept'', later) = run-Received k ops (step op s) mid stays.1 kept' in
    (
      last,
      kept'',
      later
          ∙ ap (λ l. l ++ map state_string (entered ops (step op s))) got
          ∙ append_assoc (states_of ch) _ _
          ∙ ap (λ l. states_of ch ++ l)
              (sym (map-append state_string (entered_by op s) (entered ops (step op s)))),
    )

subscribe-KeptUp :
    (s : Session) → KeptUp (subscribe s).1 (subscribe s).0 (record { cap = 16; buf = [] })
unfolding subscribe attach
subscribe-KeptUp s = record {
  found =
      ground (
        arith,
        lookup-insert s.hub.next_id s.hub.next_id (record { cap = 16; buf = [] }) s.hub.subs,
      );
  known = omega arith;
  roomy = refl;
  few = omega arith;
}

-- With each call one step, broadcast included.
pub run_sees_all :
    (s : Session) (ops : List Op)
    → AllStay (subscribe s).1 ops
    → (ch : Chan StateChange) × (lookup (subscribe s).1 (run ops (subscribe s).0).hub.subs
        ≡ some ch)
      × (map (λ (ev : StateChange). ev.state) ch.buf
          ≡ map state_string (entered ops (subscribe s).0))
run_sees_all s ops stays =
    let (ch, kept, got) =
      run-Received (subscribe s).1 ops (subscribe s).0 _ stays (subscribe-KeptUp s) in
    (ch, kept.found, got)
