-- ===== src/Call/Engine/Place.antt =====
-- internal/call/streams.go: Place, its dial and its call together, and what it leaves on each branch.
use mathlib.Core.Path.{◌≡◌, refl, sym, ◌∙◌, ap}
use opencom.Base.{
  ℕ, Option, none, some, [], ◌∷◌, ◌++◌, Str, str_eq, nat_eq, codes, ◌⊎◌, ◌≢◌, inl, inr, arith,
}
use opencom.Base.Dict.{lookup, insert, adjust, lookup-adjust, same_key, inserted}
use opencom.Call.Session.{
  shift, announce, Session, State, outbound, idle, ringing, ended, transition, new_session,
  to_ringing, end_session, subscribe, broadcast,
}
use opencom.Call.Session.Lifecycle.{end_session_ends}
use opencom.Call.Manager.{register, register_new, get}
use opencom.Call.Engine.{
  Link, Engine, EngineError, sending_invite, write_failed, error_text, put, bind, admit, write,
  write_to, encode_on, link_error, invite_message, invited, ring_outbound, ringing_outbound,
  give_up_call, open_call,
}
use opencom.Call.Engine.Dial.{Dialer, Host, DialError, dial}
use opencom.Call.Engine.Dial.Bounded.{Dialled, dial-Dialled}
use opencom.Call.Engine.Scanner.{Gone, forget-Gone, stored, id-end_session}

pub data PlaceError : Type 0 where
  opening : DialError → PlaceError
  calling : EngineError → PlaceError

abbrev pub calling_error : Option EngineError → Option PlaceError
calling_error none = none
calling_error (some err) = some (calling err)

-- `Place` after the dial. The read loop starts at once.
unfoldable pub placed :
    DialError ⊎ Link → Str → Str → Str → ℕ → ℕ → ℕ → ℕ → Engine → Engine × Option PlaceError
placed (inl err) id remote self ref l created now e = (e, some (opening err))
placed (inr link) id remote self ref l created now e =
    let (e', err) = open_call id remote self link ref l created now e in (e', calling_error err)

-- `Place`; `id` is what NewCallID returns.
unfoldable pub place :
    {R : Type 0}
    → Host R Link
    → Str
    → Str
    → Str
    → ℕ
    → ℕ
    → ℕ
    → ℕ
    → Dialer R × Engine
    → (Dialer R × Engine) × Option PlaceError
place host id remote self ref l created now (d, e) =
    let (d', answer) = dial host remote d in
    let (e', err) = placed answer id remote self ref l created now e in ((d', e'), err)

-- A session that has entered a state, otherwise who it was.
pub record Entered (target : State) (s s' : Session) : Type 0 where
  pub state : s'.state ≡ target
  pub id : s'.id ≡ s.id
  pub remote : s'.remote ≡ s.remote
  pub direction : s'.direction ≡ s.direction

pub to_ringing-Entered :
    (now : ℕ) (s : Session)
    → s.state ≡ idle
    → Entered ringing s (to_ringing now s).0 × ((to_ringing now s).1 ≡ none)
unfolding to_ringing transition shift announce broadcast
to_ringing-Entered now s h = (
  record {
    state = ground arith;
    id = ground arith;
    remote = ground arith;
    direction = ground arith;
  },
  ground arith,
)

-- A new session in the engine and in the manager, bound to its stream.
pub record Admitted (s : Session) (ref l : ℕ) (e : Engine) : Type 0 where
  pub object : Session
  pub kept : lookup ref e.calls.heap ≡ some object
  pub same : Entered s.state s object
  pub listed : get s.id e.calls ≡ some ref
  pub stream : lookup s.id e.streams ≡ some l
  pub encoder : lookup s.id e.encs ≡ some l

pub admit-Admitted :
    (s : Session) (ref l : ℕ) (e : Engine)
    → get s.id e.calls ≡ none
    → Admitted s ref l (admit s ref l e)
unfolding admit put bind get register
admit-Admitted s ref l e fresh = rw fresh (
    unfold register_new subscribe in
    record {
      object = (subscribe s).0;
      kept = inserted ref (subscribe s).0 (insert ref s e.calls.heap);
      same = record { state = refl; id = refl; remote = refl; direction = refl };
      listed = inserted s.id ref e.calls.registry;
      stream = inserted s.id l e.streams;
      encoder = inserted s.id l e.encs;
    })

links-admit : (s : Session) (ref l : ℕ) (e : Engine) → (admit s ref l e).links ≡ e.links
unfolding admit put bind
links-admit s ref l e = refl

-- A call that rings at the other side: its session, its place in the manager, its stream with the
-- INVITE behind what was written before, and its reader.
pub record Calling (id remote self : Str) (link : Link) (ref l : ℕ) (e : Engine) : Type 0 where
  pub object : Session
  pub kept : lookup ref e.calls.heap ≡ some object
  pub state : object.state ≡ ringing
  pub named : object.id ≡ id
  pub peer : object.remote ≡ remote
  pub side : object.direction ≡ outbound
  pub listed : get id e.calls ≡ some ref
  pub stream : lookup id e.streams ≡ some l
  pub encoder : lookup id e.encs ≡ some l
  pub reader : lookup ref e.readers ≡ some l
  pub written :
      lookup l e.links ≡ some (record link { sent = link.sent ++ invite_message id self ∷ [] })

-- What Place leaves: the ringing call, or an error with the call forgotten.
pub data Opened (id remote self : Str) (link : Link) (ref l : ℕ)
    : Engine × Option EngineError → Type 0 where
  calls :
      {e : Engine}
      → link_error (some link) ≡ none
      → Calling id remote self link ref l e
      → Opened id remote self link ref l (e, none)
  fails :
      {e : Engine} (text : Str)
      → link_error (some link) ≡ some text
      → Gone ref id (codes "failed to send INVITE: " ++ text) e
      → Opened id remote self link ref l (e, some (sending_invite (write_failed text)))

module _ (id remote self : Str) (link : Link) (ref l created now : ℕ) where
  rings :
      (e : Engine) (s : Session)
      → link_error (some link) ≡ none
      → lookup ref e.calls.heap ≡ some s
      → Entered idle (new_session id remote outbound created) s
      → get id e.calls ≡ some ref
      → lookup id e.streams ≡ some l
      → lookup id e.encs ≡ some l
      → lookup l e.links ≡ some (record link { sent = link.sent ++ invite_message id self ∷ [] })
      → Opened id remote self link ref l (ring_outbound (some s) ref l now e)
  unfolding ring_outbound ringing_outbound put get new_session
  rings e s open_link at same listed stream encoder written =
      let (up, fine) = to_ringing-Entered now s same.state in
      rw fine (
        calls open_link (record {
          object = (to_ringing now s).0;
          kept = inserted ref (to_ringing now s).0 e.calls.heap;
          state = up.state;
          named = up.id ∙ same.id;
          peer = up.remote ∙ same.remote;
          side = up.direction ∙ same.direction;
          listed = listed;
          stream = stream;
          encoder = encoder;
          reader = inserted ref l e.readers;
          written = written;
        }))

  gives_up :
      (text : Str) (e : Engine) (s : Session)
      → s.id ≡ id
      → s.state ≢ ended
      → lookup ref e.readers ≡ none
      → Gone ref id
          (codes "failed to send INVITE: " ++ text)
          (give_up_call (some s) id (write_failed text) ref now e)
  unfolding give_up_call error_text
  gives_up text e s same live idle_ref =
      let reason = codes "failed to send INVITE: " ++ text in
      let (over, why) = end_session_ends reason now s live in
      let s' = end_session reason now s in
      let named : s'.id ≡ id = id-end_session reason now s ∙ same in
      forget-Gone ref id reason s' (put ref s' e) named over why (stored ref s' e)
        (unfold put in idle_ref)

  encoded-Opened :
      (o : Option Str) (e : Engine)
      → Admitted (new_session id remote outbound created) ref l e
      → link_error (some link) ≡ o
      → lookup l e.links ≡ some link
      → lookup ref e.readers ≡ none
      → let r = encode_on o l (invite_message id self) e in
        Opened id remote self link ref l (invited r.1 id ref l now r.0)
  unfolding encode_on invited new_session
  encoded-Opened (some text) e a answer at idle_ref = rw (a.kept) (
      fails text answer
        (gives_up text e a.object a.same.id (λ over. ground (arith, over, a.same.state)) idle_ref))
  encoded-Opened none e a answer at idle_ref =
      let add = λ (k : Link). record k { sent = k.sent ++ invite_message id self ∷ [] } in
      rw (a.kept) (
        rings (record e { links = adjust l add e.links }) a.object answer a.kept a.same a.listed
          a.stream a.encoder (lookup-adjust l l add e.links ∙ rw (same_key l, at) refl))

  -- Opening a call under an ID that the manager does not list and with a session object that is new:
  -- either it rings, its session outbound, listed and bound, the INVITE written and the reader
  -- started, or the INVITE could not be written and the call has ended and is forgotten.
  pub open_call-Opened :
      (e : Engine)
      → get id e.calls ≡ none
      → lookup ref e.readers ≡ none
      → Opened id remote self link ref l (open_call id remote self link ref l created now e)
  unfolding open_call write write_to
  open_call-Opened e fresh idle_ref =
      let e0 = record e { links = insert l link e.links } in
      let s = new_session id remote outbound created in
      let a = admit-Admitted s ref l e0 (unfold new_session in fresh) in
      let enc : lookup id (admit s ref l e0).encs ≡ some l = unfold new_session in a.encoder in
      let at : lookup l (admit s ref l e0).links ≡ some link =
        ap (lookup l) (links-admit s ref l e0) ∙ inserted l link e.links in
      rw enc (
        encoded-Opened (link_error (lookup l (admit s ref l e0).links)) (admit s ref l e0) a
          (sym (ap link_error at)) at (unfold admit put bind in idle_ref))

-- What Place leaves: after a failed dial the calls as they were, and otherwise what `Opened` says.
pub data Placed {R : Type 0} (host : Host R Link) (id remote self : Str) (ref l : ℕ) (d : Dialer R)
    (e : Engine) : (Dialer R × Engine) × Option PlaceError → Type 0 where
  undialled :
      {d' : Dialer R} {err : DialError}
      → Dialled host remote d (d', inl err)
      → Placed host id remote self ref l d e ((d', e), some (opening err))
  dialled :
      {d' : Dialer R} {e' : Engine} {err : Option EngineError} (link : Link)
      → Dialled host remote d (d', inr link)
      → Opened id remote self link ref l (e', err)
      → Placed host id remote self ref l d e ((d', e'), calling_error err)

module _ {R : Type 0} (host : Host R Link) (id remote self : Str) (ref l created now : ℕ) where
  placed-Placed :
      (answer : DialError ⊎ Link) (d d' : Dialer R) (e : Engine)
      → Dialled host remote d (d', answer)
      → get id e.calls ≡ none
      → lookup ref e.readers ≡ none
      → let (e', err) = placed answer id remote self ref l created now e in
        Placed host id remote self ref l d e ((d', e'), err)
  unfolding placed
  placed-Placed (inl err) d d' e reach fresh idle_ref = undialled reach
  placed-Placed (inr link) d d' e reach fresh idle_ref =
      dialled link reach (open_call-Opened id remote self link ref l created now e fresh idle_ref)

  -- Place under a new ID and with a new session object: a failed dial changes no call and gives the
  -- dial's error; after a dial either the call rings at the peer, its session outbound, listed and
  -- bound, the INVITE written and its reader started, which is so exactly when the stream takes a
  -- write, or it has ended and is forgotten and the write's error is returned.
  pub place-Placed :
      (d : Dialer R) (e : Engine)
      → get id e.calls ≡ none
      → lookup ref e.readers ≡ none
      → Placed host id remote self ref l d e (place host id remote self ref l created now (d, e))
  unfolding place
  place-Placed d e fresh idle_ref =
      placed-Placed (dial host remote d).1 d (dial host remote d).0 e (dial-Dialled host remote d)
        fresh idle_ref
