-- ===== src/Invite/Redeem/Created.antt =====
-- internal/invite/manager.go: what Create leaves.
use mathlib.Core.Path.{◌≡◌, sym, ◌∙◌, subst}
use opencom.Base.{
  ℕ, ◌+◌, ◌/◌, ◌^◌, ◌<◌, ◌≤◌, Bool, true, false, some, Str, str_eq, nat_eq, ◌⊎◌, inr, arith, length,
}
use opencom.Base.Int.{ℤ, pos, negsuc}
use opencom.Base.Dict.{Dict, inserted}
use opencom.Base.Result.{or_error, >>=-inr, or_error-inr}
use opencom.Base.Decimal.{Int64}
use opencom.Invite.Store
use opencom.Invite.Url.{UrlPayload, Unicode, sign_url}
use opencom.Invite.Handshake.{Manager}
use opencom.Invite.Redeem.{
  InviteCrypto, url_keys, second, max_ttl, clamp_ttl, Draw, code_of, CreateWorld, CreateResult,
  CreateError, Host, payload_of, new_entry, store_and_publish, create,
}
use opencom.Invite.Redeem.Invitee.{record_target, url_target}
use opencom.Invite.Redeem.Targets.{
  LawfulHost, inviter_target, url_target-Created, record_target-publish,
}

clamp_ttl-le : (ttl : ℤ) → clamp_ttl ttl ≤ max_ttl
unfolding clamp_ttl
clamp_ttl-le (pos n) = ground arith
clamp_ttl-le (negsuc n) = omega arith

module _ (c : InviteCrypto) where
  -- What a successful Create has done.
  pub record Created (h : Host c) (w : CreateWorld) (m : Manager) (table : Dict Str Str) (key : Str)
      (r : CreateResult × Manager × Dict Str Str) : Type 0 where
    pub draw : Draw
    pub signed : UrlPayload
    pub signs :
        sign_url (url_keys c) (payload_of c h key (code_of draw) (w.now + clamp_ttl w.ttl)) h.priv
        ≡ some signed
    pub whole :
        r ≡ store_and_publish c h w (code_of draw) (w.now + clamp_ttl w.ttl) key signed m table

  create-Created :
      (h : Host c) (w : CreateWorld) (m : Manager) (table : Dict Str Str) (key : Str)
      (r : CreateResult × Manager × Dict Str Str)
      → c.marshal_public_key h.pub_key ≡ some key
      → create c h w m table ≡ inr r
      → Created h w m table key r
  unfolding create
  create-Created h w m table key r mk e =
      let (draw, e0, h0) = >>=-inr (or_error CreateError.no_code w.random) _ e in
      let (key', e1, h1) =
        >>=-inr (or_error CreateError.no_public_key (c.marshal_public_key h.pub_key)) _ h0 in
      let (signed, e2, h2) =
        >>=-inr
          (or_error CreateError.no_signature (
            sign_url (url_keys c) (payload_of c h key' (code_of draw) (w.now + clamp_ttl w.ttl))
              h.priv))
          _ h1 in
      let same : key' ≡ key =
        key_of
          (sym (or_error-inr CreateError.no_public_key (c.marshal_public_key h.pub_key) e1) ∙ mk) in
      subst (λ k. Created h w m table k r) same
        (record {
          draw = draw;
          signed = signed;
          signs =
              or_error-inr CreateError.no_signature
                (sign_url (url_keys c)
                  (payload_of c h key' (code_of draw) (w.now + clamp_ttl w.ttl)) h.priv)
                e2;
          whole = sym (result_of h2);
        })
    where
      key_of : {a b : Str} → some a ≡ some b → a ≡ b
      key_of q = cc

      result_of :
          {a b : CreateResult × Manager × Dict Str Str}
          → ◌≡◌ {A = CreateError ⊎ (CreateResult × Manager × Dict Str Str)} (inr a) (inr b)
          → a ≡ b
      result_of q = cc

  -- An invite as Create leaves it.
  pub record Invited (h : Host c) (key : Str) (w : CreateWorld) (u : Unicode) (now : ℕ)
      (r : CreateResult) (m : Manager) (table : Dict Str Str) : Type 0 where
    pub stored :
        Store.get r.code m.store.entries ≡ some (new_entry c r.code r.expires_at w.now_created)
    pub by_url : url_target c u r.url now ≡ inr (inviter_target c h key r.code)
    pub by_code :
        r.published ≡ true → record_target c r.code now table ≡ inr (inviter_target c h key r.code)

  stored-add :
      (ok : Bool) (e : Store.Entry) (s : Store.Store)
      → Store.get e.code (Store.add ok e s).0.entries ≡ some e
  unfolding Store.add Store.finish Store.flush Store.get
  stored-add true e s = inserted e.code e s.entries
  stored-add false e s = inserted e.code e s.entries

  expiry-Int64 : (now : ℕ) (ttl : ℤ) → now < 2 ^ 63 → Int64 (pos ((now + clamp_ttl ttl) / second))
  expiry-Int64 now ttl h = let most : clamp_ttl ttl ≤ max_ttl = clamp_ttl-le ttl in omega arith

  store_and_publish-Invited :
      (h : Host c) (key : Str) (w : CreateWorld) (u : Unicode) (now : ℕ) (d : Draw) (q : UrlPayload)
      (m : Manager) (table : Dict Str Str)
      → LawfulHost c h key
      → Int64 (pos ((w.now + clamp_ttl w.ttl) / second))
      → ((n : Str) → w.nonce ≡ some n → length n ≡ 24)
      → now ≤ (w.now + clamp_ttl w.ttl) / second
      → sign_url (url_keys c) (payload_of c h key (code_of d) (w.now + clamp_ttl w.ttl)) h.priv
        ≡ some q
      → let s = store_and_publish c h w (code_of d) (w.now + clamp_ttl w.ttl) key q m table in
        Invited h key w u now s.0 s.1 s.2
  unfolding store_and_publish
  store_and_publish-Invited h key w u now d q m table l small ln fresh e =
      let expires = w.now + clamp_ttl w.ttl in
      record {
        stored = stored-add w.add_ok (new_entry c (code_of d) expires w.now_created) m.store;
        by_url = url_target-Created c h key d expires q u now l small fresh e;
        by_code =
            record_target-publish c w.nonce h key (code_of d) expires w.put_ok table now l fresh ln;
      }

  -- When Create succeeds, for a host whose key signs and seals lawfully, with a name, an ID and addresses
  -- of lines, then at any time that is not past the expiry the code is in the store, unused and with the
  -- expiry that is returned; RedeemURL finds the host by the URL, with its addresses and key; and if the
  -- record was published, with a nonce of 24 bytes, Redeem finds the same by the code.
  pub create-Invited :
      (h : Host c) (key : Str) (w : CreateWorld) (u : Unicode) (now : ℕ) (m m' : Manager)
      (table table' : Dict Str Str) (r : CreateResult)
      → LawfulHost c h key
      → w.now < 2 ^ 63
      → ((n : Str) → w.nonce ≡ some n → length n ≡ 24)
      → create c h w m table ≡ inr (r, m', table')
      → now ≤ r.expires_at / second
      → Invited h key w u now r m' table'
  create-Invited h key w u now m m' table table' r l early ln e fresh =
      let made = create-Created h w m table key (r, m', table') l.marshals e in
      subst
        (λ (x : CreateResult × Manager × Dict Str Str).
          now ≤ x.0.expires_at / second → Invited h key w u now x.0 x.1 x.2)
        (sym made.whole)
        (λ fresh'.
          store_and_publish-Invited h key w u now made.draw made.signed m table l
            (expiry-Int64 w.now w.ttl early) ln (unfold store_and_publish in fresh') made.signs)
        fresh
