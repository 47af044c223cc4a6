-- ===== src/Call/Session/Lifecycle.antt =====
-- internal/call/session.go: the states that a session goes through.
use mathlib.Core.Path.{◌≡◌, refl, sym, subst, ◌∙◌}
use opencom.Base.{ℕ, ◌+◌, ◌≢◌, ◌⊎◌, inl, inr, some, List, [], ◌∷◌, arith, Str}
use opencom.Call.Session.{
  shift, announce, shut, tell, State, idle, ringing, connecting, connected, ended, ordinal, Session,
  TransitionError, already_ended, invalid, transition, to_ringing, to_connecting, to_connected,
  end_session, subscribe, unsubscribe, broadcast,
}

-- The calls that a session's users make.
pub data Op : Type 0 where
  ring : ℕ → Op
  connect : ℕ → Op
  establish : ℕ → Op
  finish : Str → ℕ → Op
  join : Op
  leave : ℕ → Op

unfoldable pub step : Op → Session → Session
step (ring now) s = (to_ringing now s).0
step (connect now) s = (to_connecting now s).0
step (establish now) s = (to_connected now s).0
step (finish reason now) s = end_session reason now s
step join s = (subscribe s).0
step (leave id) s = unsubscribe id s

unfoldable pub run : List Op → Session → Session
run [] s = s
run (op ∷ ops) s = run ops (step op s)

-- The diagram of the state machine.
infix 40 ◌⟶◌ ◌⟶*◌
pub data ◌⟶◌ : State → State → Type 0 where
  rings : idle ⟶ ringing
  answers : ringing ⟶ connecting
  opens : connecting ⟶ connected
  ends : {s : State} → s ≢ ended → s ⟶ ended

pub data ◌⟶*◌ (s : State) : State → Type 0 where
  here : s ⟶* s
  next : {t u : State} → s ⟶* t → t ⟶ u → s ⟶* u

join_paths : {s t u : State} → s ⟶* t → t ⟶* u → s ⟶* u
join_paths p here = p
join_paths p (next q e) = next (join_paths p q) e

ordinal-injective : (s t : State) → ordinal s ≡ ordinal t → s ≡ t
ordinal-injective s t e = ground arith

step-edge : (op : Op) (s : Session) → (s.state ⟶ (step op s).state) ⊎ ((step op s).state ≡ s.state)
unfolding step to_ringing to_connecting to_connected transition shift announce end_session shut tell
    broadcast subscribe unsubscribe
step-edge (ring now) s = grind (arith, rings)
step-edge (connect now) s = grind (arith, answers)
step-edge (establish now) s = grind (arith, opens)
step-edge (finish reason now) s = grind (arith, ends)
step-edge join s = inr refl
step-edge (leave id) s = inr refl

step-⟶* : (op : Op) (s : Session) → s.state ⟶* (step op s).state
step-⟶* op s = elim (step-edge op s) [
  | inl edge ↦ next here edge
  | inr same ↦ subst (λ t. s.state ⟶* t) (sym same) here
]

-- Whatever calls are made in whatever order, a session moves along the diagram only: it rings
-- before it connects, connects before it is connected, and may end from any state.
pub run-⟶* : (ops : List Op) (s : Session) → s.state ⟶* (run ops s).state
unfolding run
run-⟶* [] s = here
run-⟶* (op ∷ ops) s = join_paths (step-⟶* op s) (run-⟶* ops (step op s))

step_ended :
    (op : Op) (s : Session)
    → s.state ≡ ended
    → ((step op s).state ≡ ended) × ((step op s).reason ≡ s.reason)
unfolding step to_ringing to_connecting to_connected transition shift announce end_session shut tell
    subscribe unsubscribe
step_ended (ring now) s h = ground arith
step_ended (connect now) s h = ground arith
step_ended (establish now) s h = ground arith
step_ended (finish reason now) s h = ground arith
step_ended join s h = (h, refl)
step_ended (leave id) s h = (h, refl)

run_ended :
    (ops : List Op) (s : Session)
    → s.state ≡ ended
    → ((run ops s).state ≡ ended) × ((run ops s).reason ≡ s.reason)
unfolding run
run_ended [] s h = (h, refl)
run_ended (op ∷ ops) s h =
    let (still, same) = step_ended op s h in
    let (final, kept) = run_ended ops (step op s) still in (final, kept ∙ same)

pub end_session_ends :
    (reason : Str) (now : ℕ) (s : Session)
    → s.state ≢ ended
    → ((end_session reason now s).state ≡ ended) × ((end_session reason now s).reason ≡ reason)
unfolding end_session shut tell broadcast
end_session_ends reason now s h = grind (arith, ordinal-injective s.state ended)

-- `End` wins once and for all: a session that has not ended takes the reason of the first `End`,
-- and no later call of any kind changes its state or that reason.
pub first_end_wins :
    (reason : Str) (now : ℕ) (s : Session) (ops : List Op)
    → s.state ≢ ended
    → let final = run (finish reason now ∷ ops) s in (final.state ≡ ended) × (final.reason ≡ reason)
unfolding run step
first_end_wins reason now s ops h =
    let (over, noted) = end_session_ends reason now s h in
    let (final, kept) = run_ended ops (end_session reason now s) over in (final, kept ∙ noted)

-- A refused transition leaves the session as it was, and is refused exactly when the target is
-- not the state that follows; the error tells an ended session from a wrong order.
pub transition_refused :
    (target : State) (reason : Str) (now : ℕ) (s : Session) {err : TransitionError}
    → (transition target reason now s).1 ≡ some err
    → ((transition target reason now s).0 ≡ s)
      × (((s.state ≡ ended) × (err ≡ already_ended))
          ⊎ ((ordinal target ≢ ordinal s.state + 1) × (err ≡ invalid s.state target)))
unfolding transition shift announce
transition_refused target reason now s h = grind (arith, ordinal-injective s.state ended)
