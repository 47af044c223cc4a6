-- ===== src/Call/Engine/Scanner.antt =====
-- internal/call/streams.go: what runScanner leaves behind, whatever the remote peer sends.
use mathlib.Core.Path.{◌≡◌, refl, ◌∙◌, subst}
use opencom.Base.{
  ℕ, Bool, true, false, ◌≢◌, Option, none, some, List, [], ◌∷◌, ◌++◌, Str, str_eq, nat_eq, codes,
  ◌==◌, if◌then◌else◌, map, arith, Bool-cases, inl, inr,
}
use opencom.Base.Dict.{lookup, delete, inserted, deleted}
use opencom.Call.Session.{
  shift, announce, shut, tell, Session, State, ended, transition, to_connecting, to_connected,
  end_session, broadcast,
}
use opencom.Call.Session.Lifecycle.{end_session_ends}
use opencom.Call.Manager.{get, remove}
use opencom.Call.Engine.{
  Message, MessageType, invite, accept, decline, hangup, other, Engine, put, close_link,
  close_bound, unbind_and_close, forget,
}
use opencom.Call.Engine.Reader.{
  Ending, Line, dispatch, handle_line, leave, after_line, ending_reason, read_ending, read_line,
  run_scanner,
}

-- The call with this ID has ended for a reason, and nothing in the engine or the registry knows it.
pub record Forgotten (ref : ℕ) (id reason : Str) (e : Engine) : Type 0 where
  pub object : Session
  pub kept : lookup ref e.calls.heap ≡ some object
  pub named : object.id ≡ id
  pub over : object.state ≡ ended
  pub why : object.reason ≡ reason
  pub no_stream : lookup id e.streams ≡ none
  pub no_encoder : lookup id e.encs ≡ none
  pub unlisted : get id e.calls ≡ none

-- And no goroutine reads its stream.
abbrev pub Gone : ℕ → Str → Str → Engine → Type 0
Gone ref id reason e = Forgotten ref id reason e × (lookup ref e.readers ≡ none)

-- The reason that a message of the call `id` ends it with, if it does.
unfoldable pub reason_of : MessageType → Str → Option Str
reason_of decline reason = some (codes "declined: " ++ reason)
reason_of hangup reason = some reason
reason_of _ reason = none

unfoldable pub decisive : Str → Option Message → Option Str
decisive id none = none
decisive id (some m) = if m.call_id == id then reason_of m.kind m.reason else none

unfoldable pub first_or : List (Option Str) → Str → Str
first_or [] last = last
first_or (none ∷ l) last = first_or l last
first_or (some reason ∷ l) last = reason

calls-close_bound : (o : Option ℕ) (e : Engine) → (close_bound o e).calls ≡ e.calls
unfolding close_bound close_link
calls-close_bound none e = refl
calls-close_bound (some l) e = refl

streams-close_bound : (o : Option ℕ) (e : Engine) → (close_bound o e).streams ≡ e.streams
unfolding close_bound close_link
streams-close_bound none e = refl
streams-close_bound (some l) e = refl

encs-close_bound : (o : Option ℕ) (e : Engine) → (close_bound o e).encs ≡ e.encs
unfolding close_bound close_link
encs-close_bound none e = refl
encs-close_bound (some l) e = refl

readers-close_bound : (o : Option ℕ) (e : Engine) → (close_bound o e).readers ≡ e.readers
unfolding close_bound close_link
readers-close_bound none e = refl
readers-close_bound (some l) e = refl

module _ (ref : ℕ) (id reason : Str) (s : Session) (e : Engine) where
  pub forget-Forgotten :
      s.id ≡ id
      → s.state ≡ ended
      → s.reason ≡ reason
      → lookup ref e.calls.heap ≡ some s
      → Forgotten ref id reason (forget id e)
  unfolding forget unbind_and_close remove get
  forget-Forgotten same over why at =
      let o = lookup id e.streams in
      let e' = record e { streams = delete id e.streams; encs = delete id e.encs } in
      record {
        object = s;
        kept = rw (calls-close_bound o e') at;
        named = same;
        over = over;
        why = why;
        no_stream = rw (streams-close_bound o e') (deleted id e.streams);
        no_encoder = rw (encs-close_bound o e') (deleted id e.encs);
        unlisted = rw (calls-close_bound o e') (deleted id e.calls.registry);
      }

  pub forget-Gone :
      s.id ≡ id
      → s.state ≡ ended
      → s.reason ≡ reason
      → lookup ref e.calls.heap ≡ some s
      → lookup ref e.readers ≡ none
      → Gone ref id reason (forget id e)
  forget-Gone same over why at gone =
      let o = lookup id e.streams in
      let e' = record e { streams = delete id e.streams; encs = delete id e.encs } in
      (
        forget-Forgotten same over why at,
        unfold forget unbind_and_close in (rw (readers-close_bound o e') gone),
      )

pub leave-Gone :
    (ref : ℕ) (id reason : Str) (s : Session) (e : Engine)
    → s.id ≡ id
    → s.state ≡ ended
    → s.reason ≡ reason
    → Gone ref id reason (leave ref s e)
unfolding leave put
leave-Gone ref id reason s e same over why =
    subst (λ i. Gone ref i reason (leave ref s e)) same
      (forget-Gone ref s.id reason s (record (put ref s e) { readers = delete ref e.readers }) refl
        over why (inserted ref s e.calls.heap) (deleted ref e.readers))

pub stored : (ref : ℕ) (s : Session) (e : Engine) → lookup ref (put ref s e).calls.heap ≡ some s
unfolding put
stored ref s e = inserted ref s e.calls.heap

pub id-end_session : (reason : Str) (now : ℕ) (s : Session) → (end_session reason now s).id ≡ s.id
unfolding end_session shut tell broadcast
id-end_session reason now s = ground arith

-- What one line does to a session that has not ended: it goes on, not ended, with no reason given,
-- or it has ended for the reason that the line gives.
data Handled (id : Str) : Option Str → Session × Bool → Type 0 where
  goes_on : {s : Session} → s.id ≡ id → s.state ≢ ended → Handled id none (s, true)
  stops :
      {s : Session} {reason : Str}
      → s.id ≡ id
      → s.state ≡ ended
      → s.reason ≡ reason
      → Handled id (some reason) (s, false)

transition_live :
    (target : State) (reason : Str) (now : ℕ) (s : Session)
    → target ≢ ended
    → s.state ≢ ended
    → ((transition target reason now s).0.id ≡ s.id)
      × ((transition target reason now s).0.state ≢ ended)
unfolding transition shift announce broadcast
transition_live target reason now s t h = ground arith

end_session-stops :
    (reason : Str) (now : ℕ) (s : Session)
    → s.state ≢ ended
    → Handled s.id (some reason) (end_session reason now s, false)
end_session-stops reason now s h =
    let (over, why) = end_session_ends reason now s h in
    stops (id-end_session reason now s) over why

dispatch-Handled :
    (kind : MessageType) (m : Message) (t0 t1 : ℕ) (s : Session)
    → s.state ≢ ended
    → Handled s.id (reason_of kind m.reason) (dispatch kind m t0 t1 s)
unfolding dispatch reason_of to_connecting to_connected
dispatch-Handled accept m t0 t1 s h =
    let (id0, live0) = transition_live State.connecting (codes "") t0 s (λ e. ground arith) h in
    let s0 = (transition State.connecting (codes "") t0 s).0 in
    let (id1, live1) = transition_live State.connected (codes "") t1 s0 (λ e. ground arith) live0 in
    goes_on (id1 ∙ id0) live1
dispatch-Handled decline m t0 t1 s h = end_session-stops _ t0 s h
dispatch-Handled hangup m t0 t1 s h = end_session-stops _ t0 s h
dispatch-Handled invite m t0 t1 s h = goes_on refl h
dispatch-Handled (other text) m t0 t1 s h = goes_on refl h

handle_line-Handled :
    (o : Option Message) (t0 t1 : ℕ) (s : Session)
    → s.state ≢ ended
    → Handled s.id (decisive s.id o) (handle_line o t0 t1 s)
unfolding handle_line decisive
handle_line-Handled none t0 t1 s h = goes_on refl h
handle_line-Handled (some m) t0 t1 s h = elim (Bool-cases (m.call_id == s.id)) [
  | inl same ↦ rw same (dispatch-Handled m.kind m t0 t1 s h)
  | inr differs ↦ rw differs (goes_on refl h)
]

module _ (unmarshal : Str → Option Message) where
  -- The reason of the first line that declines or hangs up this call, or else the stream's ending.
  unfoldable pub verdict : Str → List Line → Ending → Str
  verdict id lines ending =
      first_or (map (λ (l : Line). decisive id (unmarshal l.text)) lines) (ending_reason ending)

  abbrev Scans : ℕ → Str → List Line → Ending → ℕ → Engine → Type 0
  Scans ref id lines ending now e =
      Gone ref id (verdict id lines ending) (run_scanner unmarshal lines ending now ref e)

  -- What is left of the loop after a line, by what the line did.
  after_line-Gone :
      {o : Option Str} {p : Session × Bool} (ref : ℕ) (id : Str) (lines : List Line)
      (ending : Ending) (now : ℕ) (e : Engine)
      → Handled id o p
      → ((s : Session) → s.id ≡ id → s.state ≢ ended → Scans ref id lines ending now (put ref s e))
      → let last = map (λ (l : Line). decisive id (unmarshal l.text)) lines in
        let r = after_line p.1 ref p.0 e in
        Gone ref id
          (first_or (o ∷ last) (ending_reason ending))
          (if r.1 then run_scanner unmarshal lines ending now ref r.0 else r.0)
  unfolding after_line first_or verdict
  after_line-Gone ref id lines ending now e (goes_on {s} same live) ih = ih s same live
  after_line-Gone ref id lines ending now e (stops {s} {reason} same over why) ih =
      leave-Gone ref id reason s e same over why

  -- The scanner of a call that has not ended, over any lines and however the stream stops: the call
  -- has ended for the reason of the first line that declines it or hangs it up, or else for the
  -- stream's ending; its stream and encoder are unbound, the manager does not list it and the
  -- goroutine is gone.
  pub run_scanner-Gone :
      (lines : List Line) (ending : Ending) (now ref : ℕ) (s : Session) (e : Engine)
      → lookup ref e.calls.heap ≡ some s
      → s.state ≢ ended
      → Gone ref s.id (verdict s.id lines ending) (run_scanner unmarshal lines ending now ref e)
  unfolding run_scanner read_ending read_line verdict first_or
  run_scanner-Gone [] ending now ref s e at live =
      let (over, why) = end_session_ends (ending_reason ending) now s live in
      rw at (
        leave-Gone ref s.id (ending_reason ending) (end_session (ending_reason ending) now s) e
          (id-end_session (ending_reason ending) now s) over why)
  run_scanner-Gone (line ∷ lines) ending now ref s e at live = rw at (
      after_line-Gone ref s.id lines ending now e
        (handle_line-Handled (unmarshal line.text) line.t0 line.t1 s live)
        (λ s' same live'.
          rw (← same)
            (run_scanner-Gone lines ending now ref s' (put ref s' e) (stored ref s' e) live')))
