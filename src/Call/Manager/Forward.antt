-- ===== src/Call/Manager/Forward.antt =====
-- internal/call/manager.go: a session's events reach every subscriber of the manager, and then the
-- forwarder ends.
use mathlib.Core.Path.{◌≡◌, refl, sym, ◌∙◌, ap}
use opencom.Base.{
  ℕ, suc, zero, ◌+◌, ◌<◌, true, false, none, some, List, [], ◌∷◌, ◌++◌, str_eq, nat_eq, ◌==◌, codes,
  arith, length, length-append, All,
}
use opencom.Base.Dict.{lookup, insert, delete, lookup-insert, lookup-delete}
use opencom.Base.Hub.{Chan, publish, publish-room}
use opencom.Call.Session.{Session, StateChange, unsubscribe}
use opencom.Call.Manager.{
  CallManager, fanout, taken_from, forward_event, forward_chan, forward_object, forward_sub,
  forward,
}

append_middle {ℓ} : {A : Type ℓ} (x : A) (l m : List A) → (l ++ x ∷ []) ++ m ≡ l ++ x ∷ m
append_middle x [] m = refl
append_middle x (y ∷ l) m = ap (◌∷◌ y) (append_middle x l m)

same_key : (n : ℕ) → (n == n) ≡ true
same_key n = (nat_eq.eqb_iff n n).1 refl

-- The forwarder of the session at `ref` runs and has `pending` before it; the manager's subscriber
-- `k` has `seen` waiting in its channel.
pub record Pending (ref k : ℕ) (pending seen : List StateChange) (m : CallManager) : Type 0 where
  pub sub : ℕ
  pub session : Session
  pub chan : Chan StateChange
  pub out : Chan StateChange
  pub runs : lookup ref m.forwarders ≡ some sub
  pub object : lookup ref m.heap ≡ some session
  pub from : lookup sub session.hub.subs ≡ some chan
  pub waiting : chan.buf ≡ pending
  pub to : lookup k m.hub.subs ≡ some out
  pub room : out.cap ≡ 32
  pub got : out.buf ≡ seen

-- The forwarder is done: it is gone, has unsubscribed, and the subscriber has `seen`.
pub record Delivered (ref k : ℕ) (seen : List StateChange) (m : CallManager) : Type 0 where
  pub out : Chan StateChange
  pub gone : lookup ref m.forwarders ≡ none
  pub to : lookup k m.hub.subs ≡ some out
  pub got : out.buf ≡ seen

module _ (ref k : ℕ) where
  forward-eq :
      (ev : StateChange) (rest seen : List StateChange) (m : CallManager)
      (p : Pending ref k (ev ∷ rest) seen m)
      → forward ref m ≡ forward_event (ev ∷ rest) p.chan p.sub p.session ref m
  unfolding forward forward_sub forward_object forward_chan
  forward-eq ev rest seen m p = rw (p.runs, p.object, p.from, p.waiting) refl

  sent :
      (ev : StateChange) (pending seen : List StateChange) (m : CallManager)
      (p : Pending ref k pending seen m)
      → length seen < 32
      → lookup k (publish ev m.hub).subs ≡ some (record (p.out) { buf = p.out.buf ++ ev ∷ [] })
  sent ev pending seen m p fits =
      publish-room ev k m.hub p.out p.to (omega (arith, ap length p.got, p.room))

  forward_next :
      (ev : StateChange) (rest seen : List StateChange) (m : CallManager)
      → Pending ref k (ev ∷ rest) seen m
      → length seen < 32
      → (ev.state == codes "ended") ≡ false
      → Pending ref k rest (seen ++ ev ∷ []) (forward ref m)
  forward_next ev rest seen m p fits going =
      let s' = taken_from p.sub p.chan rest p.session in
      let m' : CallManager = record (fanout ev m) { heap = insert ref s' m.heap } in
      let e : forward ref m ≡ m' =
        forward-eq ev rest seen m p ∙ (unfold forward_event in (rw going refl)) in
      rw e (record {
        sub = p.sub;
        session = s';
        chan = record (p.chan) { buf = rest };
        out = record (p.out) { buf = p.out.buf ++ ev ∷ [] };
        runs = unfold fanout in p.runs;
        object = lookup-insert ref ref s' m.heap ∙ rw (same_key ref) refl;
        from =
            unfold taken_from in
            (lookup-insert p.sub p.sub (record (p.chan) { buf = rest }) p.session.hub.subs
              ∙ rw (same_key p.sub) refl);
        waiting = refl;
        to = unfold fanout in (sent ev (ev ∷ rest) seen m p fits);
        room = p.room;
        got = ap (λ l. l ++ ev ∷ []) p.got;
      })

  forward_last :
      (ev : StateChange) (rest seen : List StateChange) (m : CallManager)
      → Pending ref k (ev ∷ rest) seen m
      → length seen < 32
      → (ev.state == codes "ended") ≡ true
      → Delivered ref k (seen ++ ev ∷ []) (forward ref m)
  forward_last ev rest seen m p fits over =
      let s' = taken_from p.sub p.chan rest p.session in
      let m' : CallManager = record (fanout ev m) {
        heap = insert ref (unsubscribe p.sub s') m.heap;
        forwarders = delete ref m.forwarders;
      } in
      let e : forward ref m ≡ m' =
        forward-eq ev rest seen m p ∙ (unfold forward_event in (rw over refl)) in
      rw e (record {
        out = record (p.out) { buf = p.out.buf ++ ev ∷ [] };
        gone = lookup-delete ref ref m.forwarders ∙ rw (same_key ref) refl;
        to = unfold fanout in (sent ev (ev ∷ rest) seen m p fits);
        got = ap (λ l. l ++ ev ∷ []) p.got;
      })

  -- So many rounds of the forwarder's loop.
  unfoldable pub rounds : ℕ → CallManager → CallManager
  rounds zero m = m
  rounds (suc n) m = rounds n (forward ref m)

  abbrev pub Going : StateChange → Type 0
  Going ev = (ev.state == codes "ended") ≡ false

  -- A session's events up to and with "ended", waiting in the forwarder's channel, reach a subscriber
  -- of the manager in their order, behind what it has not read yet, if its 32 places are enough; the
  -- forwarder takes one round for each, and then it is gone.
  pub rounds-Delivered :
      (evs : List StateChange) (last : StateChange) (seen : List StateChange) (m : CallManager)
      → All Going evs
      → (last.state == codes "ended") ≡ true
      → Pending ref k (evs ++ last ∷ []) seen m
      → length seen + length evs < 32
      → Delivered ref k (seen ++ (evs ++ last ∷ [])) (rounds (suc (length evs)) m)
  unfolding rounds
  rounds-Delivered [] last seen m going over p fits =
      forward_last last [] seen m p (omega (arith, fits)) over
  rounds-Delivered (ev ∷ evs) last seen m going over p fits =
      rw (sym (append_middle ev seen (evs ++ last ∷ []))) (
        rounds-Delivered evs last (seen ++ ev ∷ []) (forward ref m) going.1 over
          (forward_next ev (evs ++ last ∷ []) seen m p (omega (arith, fits)) going.0)
          (omega (arith, fits, length-append seen (ev ∷ []))))
