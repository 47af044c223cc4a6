-- ===== src/Call/Engine/Dialogue.antt =====
-- internal/call/streams.go: the engines of the two peers of one call, each reading what the other
-- writes.
use mathlib.Core.Path.{◌≡◌, refl, sym, ◌∙◌, ap, subst}
use opencom.Base.{
  true, ℕ, List, [], ◌∷◌, ◌++◌, ◌≢◌, Option, none, some, Str, str_eq, nat_eq, inr, arith,
}
use opencom.Base.Dict.{lookup}
use opencom.Call.Session.{inbound, outbound, ringing, connected, ended}
use opencom.Call.Manager.{get}
use opencom.Call.Engine.{
  Message, Link, Engine, EngineError, link_error, invite_message, accept_message, hangup_message,
  accept_at, hang_up_at,
}
use opencom.Call.Engine.Reader.{Line, handle_stream, read_line}
use opencom.Call.Engine.Scanner.{Forgotten, Gone}
use opencom.Call.Engine.Place.{Calling}
use opencom.Call.Engine.Live.{
  Live, with_sent, accept_at-Live, hang_up_at-Forgotten, links-hang_up_at, read_line-accept,
  read_line-hangup,
}
use opencom.Call.Engine.Inbound.{Offers, Heard, refused, answered, Answering, handle_stream-Heard}

-- The message that was written last on a stream.
abbrev pub last_of : List Message → Option Message
last_of [] = none
last_of (m ∷ []) = some m
last_of (m ∷ k ∷ sent) = last_of (k ∷ sent)

abbrev pub last_sent : Option Link → Option Message
last_sent none = none
last_sent (some link) = last_of link.sent

last_of-append : (sent : List Message) (m : Message) → last_of (sent ++ m ∷ []) ≡ some m
last_of-append [] m = refl
last_of-append (k ∷ []) m = refl
last_of-append (k ∷ n ∷ sent) m = last_of-append (n ∷ sent) m

last_sent-hang_up :
    (m : Message) (link : Link)
    → last_sent (some (record (with_sent m link) { closed = true })) ≡ some m
last_sent-hang_up m link = last_of-append link.sent m

module _ (unmarshal : Str → Option Message) (marshal : Message → Str) where
  -- JSON reads this message back.
  abbrev pub Carries : Message → Type 0
  Carries m = unmarshal (marshal m) ≡ some m

  abbrev pub line_of : Message → ℕ → ℕ → Line
  line_of m t0 t1 = record { text = marshal m; t0 = t0; t1 = t1 }

  -- The reader of a session takes one line.
  abbrev pub hears : ℕ → Line → Engine → Engine
  hears ref line e = (read_line unmarshal (lookup ref e.calls.heap) line ref e).0

  -- The reader of a session takes the line that holds a message, if there is one.
  abbrev pub hears_message : ℕ → Option Message → ℕ → ℕ → Engine → Engine
  hears_message ref none t0 t1 e = e
  hears_message ref (some m) t0 t1 e = hears ref (line_of m t0 t1) e

  offer-Answering :
      (id remote : Str) (link : Link) (ref l created now : ℕ) (e e' : Engine)
      → Heard unmarshal (some (marshal (invite_message id remote))) link ref l e e'
      → Carries (invite_message id remote)
      → id ≢ []
      → link.remote ≡ remote
      → Answering link.remote id ref l link e'
  offer-Answering id remote link ref l created now e _ (refused none_offered) wire named peer =
      absurd (
        none_offered (invite_message id remote) (record {
          text = marshal (invite_message id remote);
          scanned = refl;
          parsed = wire;
          invites = record { kind = refl; named = named; caller = inr (sym peer) };
        }))
  offer-Answering id remote link ref l created now e e' (answered m o a) wire named peer =
      let text : marshal (invite_message id remote) ≡ o.text = some-inj o.scanned in
      let same : invite_message id remote ≡ m =
        some-inj_m (sym wire ∙ ap unmarshal text ∙ o.parsed) in
      subst (λ (k : Message). Answering link.remote k.call_id ref l link e') (sym same) a
    where
      some-inj : {a b : Str} → some a ≡ some b → a ≡ b
      some-inj h = cc

      some-inj_m : {a b : Message} → some a ≡ some b → a ≡ b
      some-inj_m h = cc

-- The caller's engine once its INVITE is on the wire.
calling_live :
    {id remote self : Str} {link : Link} {ref l : ℕ} {e : Engine}
    → Calling id remote self link ref l e
    → link_error (some link) ≡ none
    → Live outbound ringing id ref l (with_sent (invite_message id self) link) e
unfolding link_error
calling_live c ok = record {
  object = c.object;
  kept = c.kept;
  now_in = c.state;
  named = c.named;
  directed = c.side;
  listed = c.listed;
  stream = c.stream;
  encoder = c.encoder;
  writes_on = c.written;
  writable = ok;
}

module _ (unmarshal : Str → Option Message) (marshal : Message → Str) (id caller callee : Str)
    (link_a link_b : Link) (ref_a l_a ref_b l_b : ℕ) where
  -- What JSON, the streams and the registries must be for the call.
  pub record Wired (a b : Engine) : Type 0 where
    pub calling : Calling id callee caller link_a ref_a l_a a
    pub a_writes : link_error (some link_a) ≡ none
    pub b_writes : link_error (some link_b) ≡ none
    pub b_peer : link_b.remote ≡ caller
    pub named : id ≢ []
    pub fresh : get id b.calls ≡ none
    pub invite_read :
        unmarshal (marshal (invite_message id caller)) ≡ some (invite_message id caller)
    pub accept_read : unmarshal (marshal (accept_message id)) ≡ some (accept_message id)

  abbrev pub rings_at : ℕ → ℕ → Engine → Engine
  rings_at created now b =
      handle_stream unmarshal (some (marshal (invite_message id caller))) link_b ref_b l_b created
        now b

  -- Both sides connected, no error at the callee, and what each stream carries.
  pub record Talking (a b : Engine) (err : Option EngineError) : Type 0 where
    pub caller_side :
        Live outbound connected id ref_a l_a (with_sent (invite_message id caller) link_a) a
    pub callee_side : Live inbound connected id ref_b l_b (with_sent (accept_message id) link_b) b
    pub no_error : err ≡ none

  -- A call placed by one engine and accepted at the other: when the callee's engine reads the INVITE
  -- and accepts, and the caller's engine reads the ACCEPT, the call is connected on both sides.
  pub accepted-Talking :
      (created now t0 t1 u0 u1 : ℕ) (a b : Engine)
      → Wired a b
      → let b' = accept_at ref_b t0 t1 (rings_at created now b) in
        let a' =
          hears unmarshal marshal ref_a (line_of unmarshal marshal (accept_message id) u0 u1) a in
        Talking a' b'.0 b'.1
  accepted-Talking created now t0 t1 u0 u1 a b w =
      let offered =
        handle_stream-Heard unmarshal link_b ref_b l_b created now
          (some (marshal (invite_message id caller))) b (fresh_id w) w.b_writes in
      let answering =
        offer-Answering unmarshal marshal id caller link_b ref_b l_b created now b
          (rings_at created now b) offered w.invite_read w.named w.b_peer in
      let (connected_b, fine) = accept_at-Live t0 t1 (rings_at created now b) answering.live in
      let connected_a =
        read_line-accept unmarshal (line_of unmarshal marshal (accept_message id) u0 u1) a
          w.accept_read (calling_live w.calling w.a_writes) in
      record { caller_side = connected_a; callee_side = connected_b; no_error = fine }
    where
      fresh_id :
          Wired a b
          → (m : Message)
          → Offers unmarshal (some (marshal (invite_message id caller))) link_b.remote m
          → get m.call_id b.calls ≡ none
      fresh_id w m o =
          let text : marshal (invite_message id caller) ≡ o.text = cc (o.scanned) in
          let same : invite_message id caller ≡ m = cc (w.invite_read, text, o.parsed) in
          subst (λ (k : Message). get k.call_id b.calls ≡ none) same w.fresh

  -- Whichever side of a connected call hangs up, its engine has forgotten the call, and once the other
  -- has read what the first side's stream carries last, which is the HANGUP with the reason that was
  -- given, the call has ended there too with that reason, and that engine and registry have forgotten it.
  pub hang_up-Forgotten :
      (reason : Str) (now t0 t1 : ℕ) (a b : Engine) (err : Option EngineError)
      → Talking a b err
      → unmarshal (marshal (hangup_message id reason)) ≡ some (hangup_message id reason)
      → let a' = hang_up_at ref_a reason now a in
        let b' = hang_up_at ref_b reason now b in
        let heard = λ (ref l : ℕ) (from to : Engine).
          hears_message unmarshal marshal ref (last_sent (lookup l from.links)) t0 t1 to in
        ((Forgotten ref_a id reason a') × (Gone ref_b id reason (heard ref_b l_a a' b)))
        × ((Forgotten ref_b id reason b') × (Gone ref_a id reason (heard ref_a l_b b' a)))
  hang_up-Forgotten reason now t0 t1 a b err t wire =
      let line = line_of unmarshal marshal (hangup_message id reason) t0 t1 in
      let live : connected ≢ ended = λ e. ground arith in
      (
        (
          hang_up_at-Forgotten reason now a t.caller_side live,
          rw
              (
                links-hang_up_at reason now a t.caller_side,
                last_sent-hang_up (hangup_message id reason)
                    (with_sent (invite_message id caller) link_a),
              )
              (read_line-hangup unmarshal reason line b wire t.callee_side live),
        ),
        (
          hang_up_at-Forgotten reason now b t.callee_side live,
          rw
              (
                links-hang_up_at reason now b t.callee_side,
                last_sent-hang_up (hangup_message id reason) (with_sent (accept_message id) link_b),
              )
              (read_line-hangup unmarshal reason line a wire t.caller_side live),
        ),
      )
