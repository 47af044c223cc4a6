-- ===== src/Invite/Url/Signing.antt =====
-- internal/invite/url.go: VerifyURL accepts what SignURL signs, and what it has checked of a payload that
-- it accepts.
use mathlib.Core.Path.{◌≡◌, refl, sym, ◌∙◌, ap, subst}
use opencom.Base.{
  ◌≢◌, Bool, true, false, not, Option, none, some, [], ◌∷◌, Str, str_eq, ◌==◌, ◌⊎◌, inr,
}
use opencom.Base.Result.{or_error, >>=-inr, check-inr, or_error-inr}
use opencom.Base.Base64.{std_encoding, encode, decode, Bytes}
use opencom.Base.Base64.RoundTrip.{std_encoding-Lawful, decode-encode_base64}
use opencom.Base.Base64.Symbols.{encode-nonempty}
use opencom.Base.Query.{is_empty}
use opencom.Invite.Url.{
  UrlPayload, UrlKeys, VerifyError, holds, url_canonical_bytes, signed_payload, sign_url,
  verify_url,
}
use opencom.Invite.Url.RoundTrip.{not_empty}

filled : (s : Str) → not (is_empty s) ≡ true → s ≢ []
filled [] h e = cc
filled (c ∷ s) h e = cc

module _ (k : UrlKeys) where
  -- What the code relies on: a signature verifies under its key's public key, and is a string of bytes.
  pub record Signer (priv : k.PrivKey) (pub_key : k.PubKey) : Type 0 where
    pub verify-sign : (m s : Str) → k.sign priv m ≡ some s → k.verify pub_key m s ≡ some true
    pub bytes : (m s : Str) → k.sign priv m ≡ some s → Bytes s
    pub nonempty : (m s : Str) → k.sign priv m ≡ some s → s ≢ []

  -- The payload names its signer: the key in base64 and the peer ID that is derived from it.
  pub record Names (pub_key : k.PubKey) (p : UrlPayload) : Type 0 where
    pub key_bytes : Str
    pub in_base64 : p.public_key ≡ encode std_encoding key_bytes
    pub bytes : Bytes key_bytes
    pub nonempty : key_bytes ≢ []
    pub parses : k.unmarshal_public_key key_bytes ≡ some pub_key
    pub identity : k.id_from_public_key pub_key ≡ some p.peer_id

  -- What SignURL returns.
  pub record Signed (priv : k.PrivKey) (p q : UrlPayload) : Type 0 where
    pub sig : Str
    pub signs : k.sign priv (url_canonical_bytes p) ≡ some sig
    pub whole : q ≡ record p { signature = encode std_encoding sig }

  pub sign_url-Signed :
      (o : Option Str) (priv : k.PrivKey) (p q : UrlPayload)
      → k.sign priv (url_canonical_bytes p) ≡ o
      → signed_payload k o p ≡ some q
      → Signed priv p q
  unfolding signed_payload
  sign_url-Signed none priv p q e h = cc
  sign_url-Signed (some sig) priv p q e h = record { sig = sig; signs = e; whole = cc }

  canonical_ignores :
      (p : UrlPayload) (sig : Str)
      → url_canonical_bytes (record p { signature = sig }) ≡ url_canonical_bytes p
  unfolding url_canonical_bytes
  canonical_ignores p sig = refl

  verifies :
      (priv : k.PrivKey) (pub_key : k.PubKey) (p : UrlPayload) (sig : Str)
      → Signer priv pub_key
      → Names pub_key p
      → k.sign priv (url_canonical_bytes p) ≡ some sig
      → verify_url k (record p { signature = encode std_encoding sig }) ≡ inr pub_key
  unfolding verify_url
  verifies priv pub_key p sig s n e =
      let key_filled : not (is_empty p.public_key) ≡ true =
        not_empty p.public_key
          (λ z. encode-nonempty std_encoding n.key_bytes n.nonempty (sym n.in_base64 ∙ z)) in
      let key_back : decode std_encoding p.public_key ≡ some n.key_bytes =
        ap (decode std_encoding) n.in_base64
        ∙ decode-encode_base64 std_encoding std_encoding-Lawful n.key_bytes n.bytes in
      let same_id : (p.peer_id == p.peer_id) ≡ true = (str_eq.eqb_iff p.peer_id p.peer_id).1 refl in
      rw
        (
          key_filled,
          not_empty (encode std_encoding sig)
              (encode-nonempty std_encoding sig (s.nonempty (url_canonical_bytes p) sig e)),
          key_back,
          n.parses,
          n.identity,
          same_id,
          decode-encode_base64 std_encoding std_encoding-Lawful sig
              (s.bytes (url_canonical_bytes p) sig e),
          canonical_ignores p (encode std_encoding sig),
          s.verify-sign (url_canonical_bytes p) sig e,
        )
        refl

  -- VerifyURL returns the signer's public key for a payload that SignURL has signed, if the payload
  -- carries that key and the peer ID that is derived from it.
  pub verify_url-sign_url :
      (priv : k.PrivKey) (pub_key : k.PubKey) (p q : UrlPayload)
      → Signer priv pub_key
      → Names pub_key p
      → sign_url k p priv ≡ some q
      → verify_url k q ≡ inr pub_key
  unfolding sign_url
  verify_url-sign_url priv pub_key p q s n h =
      let signed = sign_url-Signed (k.sign priv (url_canonical_bytes p)) priv p q refl h in
      ap (verify_url k) signed.whole ∙ verifies priv pub_key p signed.sig s n signed.signs

  -- What VerifyURL has checked of a payload.
  pub record Authentic (p : UrlPayload) (pub_key : k.PubKey) : Type 0 where
    pub key_bytes : Str
    pub sig : Str
    pub key_text : decode std_encoding p.public_key ≡ some key_bytes
    pub parses : k.unmarshal_public_key key_bytes ≡ some pub_key
    pub identity : k.id_from_public_key pub_key ≡ some p.peer_id
    pub signature_text : decode std_encoding p.signature ≡ some sig
    pub verified : k.verify pub_key (url_canonical_bytes p) sig ≡ some true
    pub has_key : p.public_key ≢ []
    pub has_signature : p.signature ≢ []

  holds-some : (o : Option Bool) → holds o ≡ true → o ≡ some true
  holds-some none h = cc
  holds-some (some true) h = refl
  holds-some (some false) h = cc

  key_of : {a b : k.PubKey} → ◌≡◌ {A = VerifyError ⊎ k.PubKey} (inr a) (inr b) → a ≡ b
  key_of h = cc

  -- A payload that VerifyURL accepts, with the key that it returns: the key is that of the payload's
  -- base64 text, the peer ID is the one derived from it, and the signature verifies under it over
  -- the canonical bytes; neither text is empty.
  pub verify_url-Authentic :
      (p : UrlPayload) (pub_key : k.PubKey) → verify_url k p ≡ inr pub_key → Authentic p pub_key
  unfolding verify_url
  verify_url-Authentic p pub_key h =
      let (key_filled, h1) =
        check-inr (not (is_empty p.public_key)) VerifyError.missing_public_key _ h in
      let (sig_filled, h2) =
        check-inr (not (is_empty p.signature)) VerifyError.missing_signature _ h1 in
      let (key_bytes, e3, h3) =
        >>=-inr (or_error VerifyError.bad_key_text (decode std_encoding p.public_key)) _ h2 in
      let (found, e4, h4) =
        >>=-inr (or_error VerifyError.bad_key (k.unmarshal_public_key key_bytes)) _ h3 in
      let (derived, e5, h5) =
        >>=-inr (or_error VerifyError.no_peer_id (k.id_from_public_key found)) _ h4 in
      let (same_id, h6) = check-inr (derived == p.peer_id) VerifyError.pubkey_mismatch _ h5 in
      let (sig, e7, h7) =
        >>=-inr (or_error VerifyError.bad_signature_text (decode std_encoding p.signature)) _ h6 in
      let (valid, h8) =
        check-inr (holds (k.verify found (url_canonical_bytes p) sig)) VerifyError.signature_invalid
          _ h7 in
      subst (Authentic p) (key_of h8) (record {
        key_bytes = key_bytes;
        sig = sig;
        key_text = or_error-inr VerifyError.bad_key_text (decode std_encoding p.public_key) e3;
        parses = or_error-inr VerifyError.bad_key (k.unmarshal_public_key key_bytes) e4;
        identity =
            or_error-inr VerifyError.no_peer_id (k.id_from_public_key found) e5
            ∙ ap some ((str_eq.eqb_iff derived p.peer_id).0 same_id);
        signature_text =
            or_error-inr VerifyError.bad_signature_text (decode std_encoding p.signature) e7;
        verified = holds-some (k.verify found (url_canonical_bytes p) sig) valid;
        has_key = filled p.public_key key_filled;
        has_signature = filled p.signature sig_filled;
      })
