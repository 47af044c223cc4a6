-- ===== src/Call/Engine.antt =====
-- internal/call/streams.go and protocol.go: the engine that drives sessions by messages. Session
-- objects are those of the manager's heap, streams live in `links`, both by reference; a reference
-- given to an operation is that of the object that it makes. JSON's reading of a line is the
-- parameter `unmarshal`. A method that takes the engine's lock in parts is one step here.
pub mod Dial
pub mod Reader
pub mod Scanner
pub mod Place
pub mod Live
pub mod Inbound
pub mod Dialogue
pub mod Duplicate
mod Tests
use mathlib.Core.Option
use opencom.Base.{
  ℕ, Bool, true, false, not, ◌&&◌, ◌||◌, Option, none, some, List, [], ◌∷◌, ◌++◌, Str, str_eq,
  nat_eq, codes, ◌==◌, if◌then◌else◌, ◌⊎◌, inl, inr,
}
use opencom.Base.Dict.{Dict, lookup, insert, delete, adjust}
use opencom.Call.Session.{
  Session, Direction, inbound, outbound, TransitionError, new_session, to_ringing, to_connecting,
  to_connected, end_session,
}
use opencom.Call.Manager.{CallManager, register, remove}

-- `other` is any other text on the wire.
pub data MessageType : Type 0 where
  invite accept decline hangup : MessageType
  other : Str → MessageType

pub record Message : Type 0 where
  pub kind : MessageType
  pub call_id : Str
  pub reason : Str
  pub caller : Str

-- A network.Stream: its peer, what was written on it, and the error of a further write.
pub record Link : Type 0 where
  pub remote : Str
  pub sent : List Message
  pub write_error : Option Str
  pub closed : Bool
  pub was_reset : Bool

pub data EngineError : Type 0 where
  no_stream : Str → EngineError
  write_failed : Str → EngineError
  sending_invite sending_accept : EngineError → EngineError
  not_inbound : Str → EngineError
  bad_transition : TransitionError → EngineError

-- `readers` are the goroutines in runScanner, by the session that they serve.
pub record Engine : Type 0 where
  pub calls : CallManager
  pub streams : Dict Str ℕ
  pub encs : Dict Str ℕ
  pub links : Dict ℕ Link
  pub readers : Dict ℕ ℕ
  pub listening : Bool

unfoldable pub new_engine : CallManager → Engine
new_engine m = record {
  calls = m;
  streams = [];
  encs = [];
  links = [];
  readers = [];
  listening = false;
}

unfoldable pub start : Engine → Engine
start e = record e { listening = true }

unfoldable pub error_text : EngineError → Str
error_text (no_stream id) = codes "no stream for session " ++ id
error_text (write_failed err) = err
error_text _ = []

-- The session object at a reference.
unfoldable pub put : ℕ → Session → Engine → Engine
put ref s e = record e { calls = record (e.calls) { heap = insert ref s e.calls.heap } }

unfoldable pub close_link : ℕ → Engine → Engine
close_link l e = record e { links = adjust l (λ (k : Link). record k { closed = true }) e.links }

unfoldable pub reset_link : ℕ → Engine → Engine
reset_link l e = record e {
  links = adjust l (λ (k : Link). record k { closed = true; was_reset = true }) e.links;
}

unfoldable pub bind : Str → ℕ → Engine → Engine
bind id l e = record e { streams = insert id l e.streams; encs = insert id l e.encs }

unfoldable pub close_bound : Option ℕ → Engine → Engine
close_bound none e = e
close_bound (some l) e = close_link l e

unfoldable pub unbind_and_close : Str → Engine → Engine
unbind_and_close id e =
    close_bound (lookup id e.streams)
      (record e { streams = delete id e.streams; encs = delete id e.encs })

-- A call's stream and its place in the manager, given up together.
unfoldable pub forget : Str → Engine → Engine
forget id e = let e' = unbind_and_close id e in record e' { calls = remove id e'.calls }

-- The error of a write on a stream.
unfoldable pub link_error : Option Link → Option Str
link_error none = some (codes "stream closed")
link_error (some link) = if link.closed then some (codes "stream closed") else link.write_error

unfoldable pub encode_on : Option Str → ℕ → Message → Engine → Engine × Option EngineError
encode_on (some err) l m e = (e, some (write_failed err))
encode_on none l m e = (
  record e { links = adjust l (λ (k : Link). record k { sent = k.sent ++ m ∷ [] }) e.links },
  none,
)

unfoldable pub write_to : Option ℕ → Str → Message → Engine → Engine × Option EngineError
write_to none id m e = (e, some (no_stream id))
write_to (some l) id m e = encode_on (link_error (lookup l e.links)) l m e

unfoldable pub write : Str → Message → Engine → Engine × Option EngineError
write id m e = write_to (lookup id e.encs) id m e

abbrev pub invite_message : Str → Str → Message
invite_message id self = record { kind = invite; call_id = id; reason = []; caller = self }

abbrev pub accept_message : Str → Message
accept_message id = record { kind = accept; call_id = id; reason = []; caller = [] }

abbrev pub hangup_message : Str → Str → Message
hangup_message id reason = record { kind = hangup; call_id = id; reason = reason; caller = [] }

-- `Place` once the stream is open: `self` is the host's ID, `ref` and `l` the new objects.
unfoldable pub ringing_outbound :
    Option TransitionError → ℕ → ℕ → Session → Engine → Engine × Option EngineError
ringing_outbound (some err) ref l s e = (put ref s e, some (bad_transition err))
ringing_outbound none ref l s e = (record (put ref s e) { readers = insert ref l e.readers }, none)

unfoldable pub ring_outbound : Option Session → ℕ → ℕ → ℕ → Engine → Engine × Option EngineError
ring_outbound none ref l now e = (e, none)
ring_outbound (some s) ref l now e =
    let (s', err) = to_ringing now s in ringing_outbound err ref l s' e

unfoldable pub give_up_call : Option Session → Str → EngineError → ℕ → ℕ → Engine → Engine
give_up_call none id err ref now e = forget id e
give_up_call (some s) id err ref now e =
    forget id (put ref (end_session (codes "failed to send INVITE: " ++ error_text err) now s) e)

unfoldable pub invited : Option EngineError → Str → ℕ → ℕ → ℕ → Engine → Engine × Option EngineError
invited (some err) id ref l now e =
    (give_up_call (lookup ref e.calls.heap) id err ref now e, some (sending_invite err))
invited none id ref l now e = ring_outbound (lookup ref e.calls.heap) ref l now e

-- A new session object, bound to its stream and registered.
unfoldable pub admit : Session → ℕ → ℕ → Engine → Engine
admit s ref l e =
    let e' = bind s.id l (put ref s e) in record e' { calls = register ref s e'.calls }

unfoldable pub open_call :
    Str → Str → Str → Link → ℕ → ℕ → ℕ → ℕ → Engine → Engine × Option EngineError
open_call id remote self link ref l created now e =
    let s = new_session id remote outbound created in
    let (e', err) =
      write id (invite_message id self)
        (admit s ref l (record e { links = insert l link e.links })) in
    invited err id ref l now e'

-- `Accept`.
unfoldable pub accepted :
    Option TransitionError → ℕ → Session → ℕ → Engine → Engine × Option EngineError
accepted (some err) ref s now e = (e, some (bad_transition err))
accepted none ref s now e =
    let (s', err) = to_connected now s in (put ref s' e, Option.map bad_transition err)

unfoldable pub accept_written :
    Option EngineError → ℕ → Session → ℕ → ℕ → Engine → Engine × Option EngineError
accept_written (some err) ref s t0 t1 e = (e, some (sending_accept err))
accept_written none ref s t0 t1 e =
    let (s', err) = to_connecting t0 s in accepted err ref s' t1 (put ref s' e)

abbrev pub is_inbound : Direction → Bool
is_inbound inbound = true
is_inbound outbound = false

unfoldable pub accept_call : ℕ → Session → ℕ → ℕ → Engine → Engine × Option EngineError
accept_call ref s t0 t1 e =
    let (e', err) = write s.id (accept_message s.id) e in
    if not (is_inbound s.direction)
    then (e, some (not_inbound s.id))
    else accept_written err ref s t0 t1 e'

unfoldable pub accept_found : Option Session → ℕ → ℕ → ℕ → Engine → Engine × Option EngineError
accept_found none ref t0 t1 e = (e, none)
accept_found (some s) ref t0 t1 e = accept_call ref s t0 t1 e

-- Accept of the session object at a reference; there is always one.
unfoldable pub accept_at : ℕ → ℕ → ℕ → Engine → Engine × Option EngineError
accept_at ref t0 t1 e = accept_found (lookup ref e.calls.heap) ref t0 t1 e

-- `Hangup`: a failed write is logged only.
unfoldable pub hang_up : ℕ → Session → Str → ℕ → Engine → Engine
hang_up ref s reason now e =
    forget s.id (put ref (end_session reason now s) (write s.id (hangup_message s.id reason) e).0)

unfoldable pub hang_up_found : Option Session → ℕ → Str → ℕ → Engine → Engine
hang_up_found none ref reason now e = e
hang_up_found (some s) ref reason now e = hang_up ref s reason now e

unfoldable pub hang_up_at : ℕ → Str → ℕ → Engine → Engine
hang_up_at ref reason now e = hang_up_found (lookup ref e.calls.heap) ref reason now e

-- `Stop`.
unfoldable pub close_all : Dict Str ℕ → Engine → Engine
close_all [] e = e
close_all (entry ∷ bound) e = close_all bound (close_link entry.1 e)

unfoldable pub stop : Engine → Engine
stop e = close_all e.streams (record e { listening = false; streams = []; encs = [] })

unfoldable pub program : Unit {0}
unfolding new_engine start error_text put close_link reset_link bind close_bound unbind_and_close
    forget link_error encode_on write_to write ringing_outbound ring_outbound give_up_call invited
    admit open_call accepted accept_written accept_call accept_found accept_at hang_up hang_up_found
    hang_up_at close_all stop
program = tt
