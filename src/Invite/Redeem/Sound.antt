-- ===== src/Invite/Redeem/Sound.antt =====
-- internal/invite/manager.go: what RedeemURL has checked when it returns a friend, and what it leaves when
-- it fails.
use mathlib.Core.Path.{◌≡◌, refl, sym, ◌∙◌, ap, subst}
use opencom.Base.{ℕ, Bool, true, false, not, Option, none, some, Str, str_eq, ◌==◌, ◌⊎◌, inl, inr}
use opencom.Base.Result.{or_error, >>=-inr, check-inr, or_error-inr}
use opencom.Friends.Store.{
  Friend, StoreError, Store as FriendStore, add as add_friend, get_by_peer_id,
}
use opencom.Friends.Store.Lookup.{get-add, step_failed}
use opencom.Friends.Store.Valid.{add_op, step}
use opencom.Invite.Url.{UrlPayload, Unicode, parse_url, verify_url}
use opencom.Invite.Url.Signing.{Authentic, verify_url-Authentic}
use opencom.Invite.Handshake.{Response, Manager, type_reject, type_accept}
use opencom.Invite.Redeem.{InviteCrypto, url_keys, Host}
use opencom.Invite.Redeem.Invitee.{
  RedeemError, RedeemWorld, Target, Net, map_error, in_past, url_target, hello_of, ask, inviter,
  added_friend, add_inviter, dial_and_handshake, redeem_target, redeem_url, parse_addrs,
}

map_error-inr :
    {E F : Type 0} {A : Type 0} (f : E → F) (m : E ⊎ A) {a : A} → map_error f m ≡ inr a → m ≡ inr a
map_error-inr f (inl e) h = cc
map_error-inr f (inr a) h = cc

inr-inj : {E A : Type 0} {a b : A} → ◌≡◌ {A = E ⊎ A} (inr a) (inr b) → a ≡ b
inr-inj h = cc

module _ (c : InviteCrypto) where
  -- The target of a URL is that of a payload whose signature has been checked.
  pub record UrlChecked (u : Unicode) (url : Str) (now : ℕ) (t : Target) : Type 0 where
    pub payload : UrlPayload
    pub key : c.PubKey
    pub parsed : parse_url u url ≡ inr payload
    pub in_time : in_past c now payload.expires_at ≡ false
    pub authentic : Authentic (url_keys c) payload key
    pub code : t.code ≡ payload.code
    pub inviter_id : t.inviter_id ≡ payload.peer_id
    pub addresses : t.addresses ≡ payload.addresses
    pub public_key : t.public_key ≡ payload.public_key

  false_of : (b : Bool) → not b ≡ true → b ≡ false
  false_of true h = cc
  false_of false h = refl

  url_target-UrlChecked :
      (u : Unicode) (url : Str) (now : ℕ) (t : Target)
      → url_target c u url now ≡ inr t
      → UrlChecked u url now t
  unfolding url_target
  url_target-UrlChecked u url now t h =
      let (p, e1, h1) = >>=-inr (map_error RedeemError.bad_url (parse_url u url)) _ h in
      let (fresh, h2) = check-inr (not (in_past c now p.expires_at)) RedeemError.url_expired _ h1 in
      let (key, e3, h3) =
        >>=-inr (map_error RedeemError.unverified (verify_url (url_keys c) p)) _ h2 in
      let (id, e4, h4) =
        >>=-inr (or_error RedeemError.no_peer_id (c.id_from_public_key key)) _ h3 in
      let a =
        verify_url-Authentic (url_keys c) p key
          (map_error-inr RedeemError.unverified (verify_url (url_keys c) p) e3) in
      let same_id : id ≡ p.peer_id =
        id_of
          (sym (or_error-inr RedeemError.no_peer_id (c.id_from_public_key key) e4) ∙ a.identity) in
      subst (UrlChecked u url now) (inr-inj h4) (record {
        payload = p;
        key = key;
        parsed = map_error-inr RedeemError.bad_url (parse_url u url) e1;
        in_time = false_of (in_past c now p.expires_at) fresh;
        authentic = a;
        code = refl;
        inviter_id = same_id;
        addresses = refl;
        public_key = refl;
      })
    where
      id_of : {a b : Str} → some a ≡ some b → a ≡ b
      id_of q = cc

  -- The inviter has answered the hello with an accept.
  pub record Answered (net : Net) (h : Host c) (t : Target) (resp : Response) : Type 0 where
    pub own_key : Str
    pub says : net.responds t.inviter_id (hello_of c h t.code own_key) ≡ some resp
    pub accepts : resp.type ≡ type_accept

  ask-Answered :
      (net : Net) (h : Host c) (t : Target) (resp : Response)
      → ask c net h t ≡ inr resp
      → Answered net h t resp
  unfolding ask
  ask-Answered net h t resp e =
      let (opens, h1) =
        check-inr (net.opens (parse_addrs net.is_multiaddr t.addresses) t.inviter_id)
          RedeemError.cannot_open _ e in
      let (key, e2, h2) =
        >>=-inr (or_error RedeemError.no_own_key (c.marshal_public_key h.pub_key)) _ h1 in
      let (sends, h3) =
        check-inr (net.sends (hello_of c h t.code key)) RedeemError.cannot_send _ h2 in
      let (r, e4, h4) =
        >>=-inr
          (or_error RedeemError.no_response (net.responds t.inviter_id (hello_of c h t.code key))) _
          h3 in
      let (kept, h5) =
        check-inr (not (r.type == type_reject)) (RedeemError.rejected r.reason) _ h4 in
      let (accepts, h6) = check-inr (r.type == type_accept) (RedeemError.unexpected r.type) _ h5 in
      subst (Answered net h t) (inr-inj h6) (record {
        own_key = key;
        says =
            or_error-inr RedeemError.no_response
              (net.responds t.inviter_id (hello_of c h t.code key)) e4;
        accepts = (str_eq.eqb_iff r.type type_accept).0 accepts;
      })

  -- What stands behind a friend that redeeming a URL returns.
  pub record Redeemed (net : Net) (h : Host c) (w : RedeemWorld) (u : Unicode) (url : Str)
      (m' : Manager) (f : Friend) : Type 0 where
    pub target : Target
    pub checked : UrlChecked u url w.now_unix target
    pub response : Response
    pub answer : Answered net h target response
    pub friend : f ≡ inviter c w target response
    pub found : get_by_peer_id target.inviter_id m'.friends.friends ≡ some f
    pub saved : m'.friends.disk ≡ m'.friends.friends

  -- What a redemption that returns an error leaves.
  pub record Unchanged (m m' : Manager) (err : RedeemError) : Type 0 where
    pub store : m'.store ≡ m.store
    pub subs : m'.redeem_subs ≡ m.redeem_subs
    pub file : m'.friends.disk ≡ m.friends.disk
    pub memory : (m'.friends ≡ m.friends) ⊎ (err ≡ RedeemError.not_added StoreError.write_failed)

  -- The two ways that RedeemURL can go.
  pub data Outcome (net : Net) (h : Host c) (w : RedeemWorld) (u : Unicode) (url : Str)
      (m : Manager) : Manager × (RedeemError ⊎ Friend) → Type 0 where
    succeeds :
        {m' : Manager} {f : Friend}
        → Redeemed net h w u url m' f
        → Outcome net h w u url m (m', inr f)
    fails :
        {m' : Manager} {err : RedeemError}
        → Unchanged m m' err
        → Outcome net h w u url m (m', inl err)

  same : (m : Manager) (err : RedeemError) → Unchanged m m err
  same m err = record { store = refl; subs = refl; file = refl; memory = inl refl }

  module _ (net : Net) (h : Host c) (w : RedeemWorld) (u : Unicode) (url : Str) (m : Manager) where
    not_saved :
        (f : Friend) (o : Option StoreError) (s : FriendStore) (err : StoreError)
        → o ≡ some err
        → (s.disk ≡ m.friends.disk) × ((err ≡ StoreError.write_failed) ⊎ (s ≡ m.friends))
        → Unchanged m (record m { friends = s }) (RedeemError.not_added err)
    not_saved f o s err e (file, inl failed) = record {
      store = refl;
      subs = refl;
      file = file;
      memory = inr (ap RedeemError.not_added failed);
    }
    not_saved f o s err e (file, inr kept) = record {
      store = refl;
      subs = refl;
      file = file;
      memory = inl kept;
    }

    added_friend-Outcome :
        (t : Target) (resp : Response) (fr : FriendStore × Option StoreError)
        → UrlChecked u url w.now_unix t
        → Answered net h t resp
        → (fr.1 ≡ none
            → (get_by_peer_id t.inviter_id fr.0.friends ≡ some (inviter c w t resp))
              × (fr.0.disk ≡ fr.0.friends))
        → ((err : StoreError)
            → fr.1 ≡ some err
            → (fr.0.disk ≡ m.friends.disk) × ((err ≡ StoreError.write_failed) ⊎ (fr.0 ≡ m.friends)))
        → Outcome net h w u url m (added_friend c fr (inviter c w t resp) m)
    unfolding added_friend
    added_friend-Outcome t resp (friends, none) checked answer ok bad =
        let (found, saved) = ok refl in
        succeeds (record {
          target = t;
          checked = checked;
          response = resp;
          answer = answer;
          friend = refl;
          found = found;
          saved = saved;
        })
    added_friend-Outcome t resp (friends, some err) checked answer ok bad =
        fails (not_saved (inviter c w t resp) (some err) friends err refl (bad err refl))

    add_inviter-Outcome :
        (t : Target) (o : RedeemError ⊎ Response)
        → ask c net h t ≡ o
        → UrlChecked u url w.now_unix t
        → Outcome net h w u url m (add_inviter c o w t m)
    unfolding add_inviter step
    add_inviter-Outcome t (inl err) e checked = fails (same m err)
    add_inviter-Outcome t (inr resp) e checked =
        let f = inviter c w t resp in
        added_friend-Outcome t resp (add_friend w.friend_ok f m.friends) checked
          (ask-Answered net h t resp e)
          (λ added.
            let (by_name, by_id, file) = get-add w.friend_ok f m.friends added in
            (
              by_id t.inviter_id ∙ rw ((str_eq.eqb_iff t.inviter_id t.inviter_id).1 refl) refl,
              file,
            ))
          (λ err failed. step_failed (add_op w.friend_ok f) m.friends failed)

    redeem_target-Outcome :
        (o : RedeemError ⊎ Target)
        → url_target c u url w.now_unix ≡ o
        → Outcome net h w u url m (redeem_target c o net h w m)
    unfolding redeem_target dial_and_handshake
    redeem_target-Outcome (inl err) e = fails (same m err)
    redeem_target-Outcome (inr t) e =
        add_inviter-Outcome t (ask c net h t) refl (url_target-UrlChecked u url w.now_unix t e)

    -- RedeemURL either returns a friend, who is then the peer of a URL that parses, is not past its
    -- expiry and carries a valid signature under that peer's key, who has answered the code's hello
    -- with an accept, and who is in the friends list and its file; or it returns an error, and the
    -- invites, the subscribers and the friends file are as they were, the friends in memory too unless
    -- the error is that of the write.
    pub redeem_url-Outcome : Outcome net h w u url m (redeem_url c net h w u url m)
    unfolding redeem_url
    redeem_url-Outcome = redeem_target-Outcome (url_target c u url w.now_unix) refl
