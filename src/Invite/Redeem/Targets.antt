-- ===== src/Invite/Redeem/Targets.antt =====
-- internal/invite/manager.go: what Redeem and RedeemURL find, of a host that publishes.
use mathlib.Core.Path.{◌≡◌, refl, sym, ◌∙◌, ap}
use opencom.Base.{
  ℕ, ◌/◌, ◌≤◌, ◌≢◌, Bool, true, false, Option, none, some, List, [], ◌∷◌, Str, str_eq, nat_eq, ◌==◌,
  ◌⊎◌, inl, inr, arith, All, length,
}
use opencom.Base.Int.{pos, ltb_ℤ}
use opencom.Base.Dict.{Dict, insert, inserted}
use opencom.Base.Result.{◌>>=◌, or_error}
use opencom.Base.Decimal.{Int64}
use opencom.Base.Base64
use opencom.Base.Base64.{std_encoding, Bytes}
use opencom.Base.Base64.RoundTrip.{std_encoding-Lawful, decode-encode_base64}
use opencom.Base.Base64.Symbols.{encode-std_Bytes}
use opencom.Invite.Code.{Code}
use opencom.Invite.Code.Generate.{generate-IsCode}
use opencom.Invite.Url.{UrlPayload, Unicode, url_canonical_bytes, sign_url, format_url, verify_url}
use opencom.Invite.Url.RoundTrip.{Line, Formattable, parse_url-format_url}
use opencom.Invite.Url.Signing.{Signer, Names, sign_url-Signed, verify_url-sign_url}
use opencom.Invite.Record.{EncodeError, encode_record, derive_dht_key, derive_encryption_key}
use opencom.Invite.Record.Sealed.{RecordLaws, decode_record-encode_record}
use opencom.Invite.Redeem.{
  InviteCrypto, url_keys, record_ciphers, second, Draw, code_of, Host, payload_of, record_of,
  publish,
}
use opencom.Invite.Redeem.Invitee.{Target, decode_pub_key, record_target, in_past, url_target}

module _ (c : InviteCrypto) where
  -- What the code relies on of a host's keys, and what its names and addresses must be for a URL.
  pub record LawfulHost (h : Host c) (key : Str) : Type 0 where
    pub marshals : c.marshal_public_key h.pub_key ≡ some key
    pub parses : c.unmarshal_public_key key ≡ some h.pub_key
    pub identity : c.id_from_public_key h.pub_key ≡ some h.id
    pub key_bytes : Bytes key
    pub key_nonempty : key ≢ []
    pub signs : Signer (url_keys c) h.priv h.pub_key
    pub seals : RecordLaws (record_ciphers c) h.priv h.pub_key
    pub id_bytes : Bytes h.id
    pub id_nonempty : h.id ≢ []
    pub name_bytes : Bytes h.display_name
    pub first : Str
    pub more : List Str
    pub addresses : h.invite_addrs ≡ first ∷ more
    pub lines : All Line (first ∷ more)

  host-Names :
      (h : Host c) (key : Str) (code : Code) (expires : ℕ)
      → LawfulHost h key
      → Names (url_keys c) h.pub_key (payload_of c h key code expires)
  host-Names h key code expires l = record {
    key_bytes = key;
    in_base64 = refl;
    bytes = l.key_bytes;
    nonempty = l.key_nonempty;
    parses = l.parses;
    identity = l.identity;
  }

  signed_Formattable :
      (h : Host c) (key : Str) (d : Draw) (expires : ℕ) (sig : Str)
      → LawfulHost h key
      → Int64 (pos (expires / second))
      → Formattable (record (payload_of c h key (code_of d) expires) {
        signature = Base64.encode std_encoding sig;
      })
  signed_Formattable h key d expires sig l small = record {
    peer_id = l.id_bytes;
    peer_id_nonempty = l.id_nonempty;
    public_key = encode-std_Bytes key;
    first = l.first;
    more = l.more;
    addresses = l.addresses;
    lines = l.lines;
    display_name = l.name_bytes;
    code = generate-IsCode d.b0 d.b1 d.b2 d.b3 d.b4;
    expires_at = small;
    signature = encode-std_Bytes sig;
  }

  -- The inviter, as both ways of redeeming find it.
  abbrev pub inviter_target : Host c → Str → Code → Target
  inviter_target h key code = record {
    code = code;
    inviter_id = h.id;
    addresses = h.invite_addrs;
    public_key = Base64.encode std_encoding key;
  }

  not_in_past : (now n : ℕ) → now ≤ n → in_past c now (pos n) ≡ false
  not_in_past now n h = ground arith

  url_target-signed :
      (h : Host c) (key : Str) (d : Draw) (expires : ℕ) (sig : Str) (u : Unicode) (now : ℕ)
      → LawfulHost h key
      → Int64 (pos (expires / second))
      → now ≤ expires / second
      → verify_url (url_keys c) (record (payload_of c h key (code_of d) expires) {
        signature = Base64.encode std_encoding sig;
      })
        ≡ inr h.pub_key
      → url_target c u
          (format_url (record (payload_of c h key (code_of d) expires) {
            signature = Base64.encode std_encoding sig;
          }))
          now
        ≡ inr (inviter_target h key (code_of d))
  unfolding url_target
  url_target-signed h key d expires sig u now l small fresh verified =
      rw
        (
          parse_url-format_url u
              (record (payload_of c h key (code_of d) expires) {
                signature = Base64.encode std_encoding sig;
              })
              (signed_Formattable h key d expires sig l small),
          not_in_past now (expires / second) fresh,
          verified,
          l.identity,
        )
        refl

  -- The URL of an invite leads to the inviter.
  pub url_target-Created :
      (h : Host c) (key : Str) (d : Draw) (expires : ℕ) (q : UrlPayload) (u : Unicode) (now : ℕ)
      → LawfulHost h key
      → Int64 (pos (expires / second))
      → now ≤ expires / second
      → sign_url (url_keys c) (payload_of c h key (code_of d) expires) h.priv ≡ some q
      → url_target c u (format_url q) now ≡ inr (inviter_target h key (code_of d))
  url_target-Created h key d expires q u now l small fresh e =
      let p = payload_of c h key (code_of d) expires in
      let s =
        sign_url-Signed (url_keys c) (c.sign h.priv (url_canonical_bytes p)) h.priv p q refl
          (unfold sign_url in e) in
      let verified =
        verify_url-sign_url (url_keys c) h.priv h.pub_key p q l.signs
          (host-Names h key (code_of d) expires l) e in
      ap (λ x. url_target c u (format_url x) now) s.whole
      ∙ url_target-signed h key d expires s.sig u now l small fresh
          (ap (verify_url (url_keys c)) (sym s.whole) ∙ verified)

  publish-true :
      (e : EncodeError ⊎ Str) (ok : Bool) (key : Str) (table : Dict Str Str)
      → (publish c e ok key table).1 ≡ true
      → (blob : Str) × (e ≡ inr blob) × ((publish c e ok key table).0 ≡ insert key blob table)
  unfolding publish
  publish-true (inl err) ok key table h = cc
  publish-true (inr blob) false key table h = cc
  publish-true (inr blob) true key table h = (blob, refl, refl)

  decode_pub_key-host :
      (h : Host c) (key : Str)
      → LawfulHost h key
      → decode_pub_key c (Base64.encode std_encoding key) ≡ inr h.pub_key
  unfolding decode_pub_key
  decode_pub_key-host h key l =
      rw (decode-encode_base64 std_encoding std_encoding-Lawful key l.key_bytes, l.parses) refl

  record_target-blob :
      (h : Host c) (key : Str) (code : Code) (expires : ℕ) (nonce blob : Str) (table : Dict Str Str)
      (now : ℕ)
      → LawfulHost h key
      → now ≤ expires / second
      → length nonce ≡ 24
      → encode_record
          (record_ciphers c)
          (record_of c h key expires)
          (derive_encryption_key (record_ciphers c) code)
          h.priv
          (some nonce)
        ≡ inr blob
      → record_target c code now (insert (derive_dht_key (record_ciphers c) code) blob table)
        ≡ inr (inviter_target h key code)
  unfolding record_target
  record_target-blob h key code expires nonce blob table now l fresh ln e =
      let r = record_of c h key expires in
      let enc_key = derive_encryption_key (record_ciphers c) code in
      let (raw, current, late) =
        decode_record-encode_record (record_ciphers c) r enc_key nonce h.priv h.pub_key blob now
          l.seals e ln in
      let in_time : ltb_ℤ (pos (expires / second)) (pos now) ≡ false = ground arith in
      let same_id : (h.id == h.id) ≡ true = (str_eq.eqb_iff h.id h.id).1 refl in
      rw
        (
          inserted (derive_dht_key (record_ciphers c) code) blob table,
          raw,
          decode_pub_key-host h key l,
          current refl in_time,
          l.identity,
          same_id,
        )
        refl

  pub record_target-publish :
      (o : Option Str) (h : Host c) (key : Str) (code : Code) (expires : ℕ) (ok : Bool)
      (table : Dict Str Str) (now : ℕ)
      → LawfulHost h key
      → now ≤ expires / second
      → ((n : Str) → o ≡ some n → length n ≡ 24)
      → let r =
          publish c
            (encode_record
              (record_ciphers c)
              (record_of c h key expires)
              (derive_encryption_key (record_ciphers c) code)
              h.priv
              o)
            ok
            (derive_dht_key (record_ciphers c) code)
            table in
        r.1 ≡ true → record_target c code now r.0 ≡ inr (inviter_target h key code)
  record_target-publish none h key code expires ok table now l fresh ln published =
      let (blob, e, stored) =
        publish-true
          (encode_record (record_ciphers c) (record_of c h key expires)
            (derive_encryption_key (record_ciphers c) code) h.priv none)
          ok (derive_dht_key (record_ciphers c) code) table published in
      absurd
        (no_nonce {blob = blob} (c.marshal (record_of c h key expires)) (unfold encode_record in e))
    where
      no_nonce :
          {blob : Str} (o : Option Str)
          → (or_error EncodeError.marshal_error o >>= λ plaintext. inl EncodeError.nonce_error)
            ≡ inr blob
          → ⊥
      no_nonce none q = cc
      no_nonce (some p) q = cc
  record_target-publish (some nonce) h key code expires ok table now l fresh ln published =
      let (blob, e, stored) =
        publish-true
          (encode_record (record_ciphers c) (record_of c h key expires)
            (derive_encryption_key (record_ciphers c) code) h.priv (some nonce))
          ok (derive_dht_key (record_ciphers c) code) table published in
      ap (record_target c code now) stored
      ∙ record_target-blob h key code expires nonce blob table now l fresh (ln nonce refl) e
