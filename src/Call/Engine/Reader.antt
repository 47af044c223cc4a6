-- ===== src/Call/Engine/Reader.antt =====
-- internal/call/streams.go: runScanner and handleStream.

use opencom.Base.{
  ℕ, Bool, true, false, not, ◌&&◌, ◌||◌, Option, none, some, List, [], ◌∷◌, ◌++◌, Str, str_eq,
  nat_eq, codes, ◌==◌, if◌then◌else◌,
}
use opencom.Base.Dict.{lookup, insert, delete}
use opencom.Call.Session.{
  Session, inbound, TransitionError, new_session, to_ringing, to_connecting, to_connected,
  end_session,
}
use opencom.Call.Engine.{
  MessageType, Message, Link, Engine, put, close_link, reset_link, forget, admit, invite, accept,
  decline, hangup, other,
}

-- One message of runScanner's loop: the session, and whether the loop goes on.
unfoldable pub dispatch : MessageType → Message → ℕ → ℕ → Session → Session × Bool
dispatch accept m t0 t1 s = ((to_connected t1 (to_connecting t0 s).0).0, true)
dispatch decline m t0 t1 s = (end_session (codes "declined: " ++ m.reason) t0 s, false)
dispatch hangup m t0 t1 s = (end_session m.reason t0 s, false)
dispatch invite m t0 t1 s = (s, true)
dispatch (other text) m t0 t1 s = (s, true)

unfoldable pub handle_line : Option Message → ℕ → ℕ → Session → Session × Bool
handle_line none t0 t1 s = (s, true)
handle_line (some m) t0 t1 s =
    if not (m.call_id == s.id) then (s, true) else dispatch m.kind m t0 t1 s

-- The deferred calls of runScanner, and the goroutine's end.
unfoldable pub leave : ℕ → Session → Engine → Engine
leave ref s e = forget s.id (record (put ref s e) { readers = delete ref e.readers })

unfoldable pub after_line : Bool → ℕ → Session → Engine → Engine × Bool
after_line true ref s e = (put ref s e, true)
after_line false ref s e = (leave ref s e, false)

-- How the scanner stops: the end of the stream, context.Canceled, or another error.
pub data Ending : Type 0 where
  end_of_stream cancelled : Ending
  failed : Str → Ending

unfoldable pub ending_reason : Ending → Str
ending_reason end_of_stream = codes "remote disconnected"
ending_reason cancelled = codes "remote disconnected"
ending_reason (failed err) = codes "stream error: " ++ err

-- A line with the two readings of the clock that its handling may take.
pub record Line : Type 0 where
  pub text : Str
  pub t0 : ℕ
  pub t1 : ℕ

unfoldable pub read_ending : Option Session → Ending → ℕ → ℕ → Engine → Engine
read_ending none ending now ref e = e
read_ending (some s) ending now ref e = leave ref (end_session (ending_reason ending) now s) e

unfoldable pub ringing_inbound : Option TransitionError → ℕ → ℕ → Session → Engine → Engine
ringing_inbound (some err) ref l s e = close_link l (put ref s e)
ringing_inbound none ref l s e = record (put ref s e) { readers = insert ref l e.readers }

unfoldable pub ring_inbound : Option Session → ℕ → ℕ → ℕ → Engine → Engine
ring_inbound none ref l now e = e
ring_inbound (some s) ref l now e =
    let (s', err) = to_ringing now s in ringing_inbound err ref l s' e

unfoldable pub receive_call : Message → Str → ℕ → ℕ → ℕ → ℕ → Engine → Engine
receive_call m remote ref l created now e =
    let e' = admit (new_session m.call_id remote inbound created) ref l e in
    ring_inbound (lookup ref e'.calls.heap) ref l now e'

abbrev pub is_invite : MessageType → Bool
is_invite invite = true
is_invite _ = false

unfoldable pub first_message : Option Message → Str → ℕ → ℕ → ℕ → ℕ → Engine → Engine
first_message none remote ref l created now e = reset_link l e
first_message (some m) remote ref l created now e =
    if not (is_invite m.kind) || m.call_id == []
    then reset_link l e
    else (if not (m.caller == []) && not (m.caller == remote)
        then reset_link l e
        else receive_call m remote ref l created now e)

module _ (unmarshal : Str → Option Message) where
  unfoldable pub read_line : Option Session → Line → ℕ → Engine → Engine × Bool
  read_line none line ref e = (e, false)
  read_line (some s) line ref e =
      let (s', more) = handle_line (unmarshal line.text) line.t0 line.t1 s in
      after_line more ref s' e

  -- `runScanner`, over the lines that the scanner yields until it stops.
  unfoldable pub run_scanner : List Line → Ending → ℕ → ℕ → Engine → Engine
  run_scanner [] ending now ref e = read_ending (lookup ref e.calls.heap) ending now ref e
  run_scanner (line ∷ lines) ending now ref e =
      let (e', more) = read_line (lookup ref e.calls.heap) line ref e in
      let rest = run_scanner lines ending now ref e' in if more then rest else e'

  unfoldable pub scanned : Option Str → Str → ℕ → ℕ → ℕ → ℕ → Engine → Engine
  scanned none remote ref l created now e = reset_link l e
  scanned (some line) remote ref l created now e =
      first_message (unmarshal line) remote ref l created now e

  -- `handleStream` up to its call of runScanner; `line` is what the first Scan yields.
  unfoldable pub handle_stream : Option Str → Link → ℕ → ℕ → ℕ → ℕ → Engine → Engine
  handle_stream line link ref l created now e =
      scanned line link.remote ref l created now (record e { links = insert l link e.links })

unfoldable pub reader : Unit {0}
unfolding dispatch handle_line leave after_line ending_reason read_ending ringing_inbound
    ring_inbound receive_call first_message read_line run_scanner scanned handle_stream
reader = tt
