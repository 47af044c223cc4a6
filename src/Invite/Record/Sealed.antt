-- ===== src/Invite/Record/Sealed.antt =====
-- internal/invite/record.go: both decoders read what `Encode` writes.
use mathlib.Core.Path.{◌≡◌, refl, sym, ◌∙◌, ap}
use opencom.Base.{
  ℕ, ◌+◌, true, false, some, ◌++◌, Str, ltb, nat_eq, ◌==◌, length, take, drop, ◌⊎◌, inl, inr, arith,
  length-append, take-prefix, drop-prefix,
}
use opencom.Base.Int.{pos, ltb_ℤ}
use opencom.Base.Result.{or_error, >>=-inr, check-inr, or_error-inr}
use opencom.Invite.Record.{
  InviteRecord, RecordCiphers, EncodeError, DecodeError, encode_record, open_record, decode_record,
  decode_unverified,
}

module _ (c : RecordCiphers) where
  -- What the code relies on of the ciphers and of JSON.
  pub record RecordLaws (priv : c.PrivKey) (pub_key : c.PubKey) : Type 0 where
    pub verify-sign : (m s : Str) → c.sign priv m ≡ some s → c.verify pub_key m s ≡ some true
    pub open-seal : (key nonce p : Str) → c.open_sealed key nonce (c.seal key nonce p) ≡ some p
    pub length-seal : (key nonce p : Str) → length (c.seal key nonce p) ≡ length p + 16
    pub unmarshal-marshal :
        (r : InviteRecord) (p : Str) → c.marshal r ≡ some p → c.unmarshal p ≡ some r

  -- What `Encode` returns when it succeeds.
  pub record Sealed (r : InviteRecord) (key nonce : Str) (priv : c.PrivKey) (blob : Str)
      : Type 0 where
    pub plaintext : Str
    pub sig : Str
    pub written : c.marshal r ≡ some plaintext
    pub signed : c.sign priv (nonce ++ c.seal key nonce plaintext) ≡ some sig
    pub sig_length : length sig ≡ 64
    pub whole : blob ≡ sig ++ (nonce ++ c.seal key nonce plaintext)

  inr-inj : {a b : Str} → ◌≡◌ {A = EncodeError ⊎ Str} (inr a) (inr b) → a ≡ b
  inr-inj h = cc

  encode_record-Sealed :
      (r : InviteRecord) (key nonce : Str) (priv : c.PrivKey) (blob : Str)
      → encode_record c r key priv (some nonce) ≡ inr blob
      → Sealed r key nonce priv blob
  unfolding encode_record
  encode_record-Sealed r key nonce priv blob h =
      let (p, e1, h1) = >>=-inr (or_error EncodeError.marshal_error (c.marshal r)) _ h in
      let (sig, e2, h2) =
        >>=-inr (or_error EncodeError.sign_error (c.sign priv (nonce ++ c.seal key nonce p))) _
          h1 in
      let (size, h3) =
        check-inr (length sig == 64) (EncodeError.signature_length (length sig)) _ h2 in
      record {
        plaintext = p;
        sig = sig;
        written = or_error-inr EncodeError.marshal_error (c.marshal r) e1;
        signed = or_error-inr EncodeError.sign_error (c.sign priv (nonce ++ c.seal key nonce p)) e2;
        sig_length = (nat_eq.eqb_iff (length sig) 64).0 size;
        whole = sym (inr-inj h3);
      }

  long_enough :
      (r : InviteRecord) (key nonce : Str) (priv : c.PrivKey) (pub_key : c.PubKey) (blob : Str)
      → RecordLaws priv pub_key
      → Sealed r key nonce priv blob
      → length nonce ≡ 24
      → ltb (length blob) 104 ≡ false
  long_enough r key nonce priv pub_key blob laws s ln =
      let ct = c.seal key nonce s.plaintext in
      ground (
        arith,
        ap length s.whole,
        length-append s.sig (nonce ++ ct),
        length-append nonce ct,
        laws.length-seal key nonce s.plaintext,
        s.sig_length,
        ln,
      )

  -- The parts of a blob.
  signed_part :
      (r : InviteRecord) (key nonce : Str) (priv : c.PrivKey) (blob : Str)
      (s : Sealed r key nonce priv blob)
      → (take 64 blob ≡ s.sig) × (drop 64 blob ≡ nonce ++ c.seal key nonce s.plaintext)
  signed_part r key nonce priv blob s =
      let signed = nonce ++ c.seal key nonce s.plaintext in
      (
        ap (take 64) s.whole ∙ take-prefix 64 s.sig signed s.sig_length,
        ap (drop 64) s.whole ∙ drop-prefix 64 s.sig signed s.sig_length,
      )

  open_record-seal :
      (r : InviteRecord) (key nonce : Str) (priv : c.PrivKey) (pub_key : c.PubKey) (plaintext : Str)
      → RecordLaws priv pub_key
      → c.marshal r ≡ some plaintext
      → length nonce ≡ 24
      → open_record c (nonce ++ c.seal key nonce plaintext) key ≡ inr r
  unfolding open_record
  open_record-seal r key nonce priv pub_key plaintext laws written ln =
      let ct = c.seal key nonce plaintext in
      rw
        (
          take-prefix 24 nonce ct ln,
          drop-prefix 24 nonce ct ln,
          laws.open-seal key nonce plaintext,
          laws.unmarshal-marshal r plaintext written,
        )
        refl

  -- What `Encode` writes with a nonce of 24 bytes is read back under the same key: by DecodeUnverified
  -- whatever its version and expiry, and by `Decode` under the signer's public key if the version is
  -- the current one and the time is not past the expiry, but as expired if it is.
  pub decode_record-encode_record :
      (r : InviteRecord) (key nonce : Str) (priv : c.PrivKey) (pub_key : c.PubKey) (blob : Str)
      (now : ℕ)
      → RecordLaws priv pub_key
      → encode_record c r key priv (some nonce) ≡ inr blob
      → length nonce ≡ 24
      → (decode_unverified c blob key ≡ inr r)
        × (r.version ≡ 1
            → ltb_ℤ r.expires_at (pos now) ≡ false
            → decode_record c blob key pub_key now ≡ inr r)
        × (r.version ≡ 1
            → ltb_ℤ r.expires_at (pos now) ≡ true
            → decode_record c blob key pub_key now ≡ inl DecodeError.expired)
  unfolding decode_record decode_unverified
  decode_record-encode_record r key nonce priv pub_key blob now laws h ln =
      let s = encode_record-Sealed r key nonce priv blob h in
      let (sig, signed) = signed_part r key nonce priv blob s in
      let enough = long_enough r key nonce priv pub_key blob laws s ln in
      let opened = open_record-seal r key nonce priv pub_key s.plaintext laws s.written ln in
      let genuine = laws.verify-sign (nonce ++ c.seal key nonce s.plaintext) s.sig s.signed in
      let current = λ (v : r.version ≡ 1). (nat_eq.eqb_iff r.version 1).1 v in
      (
        rw (enough, signed) opened,
        λ v fresh. rw (enough, signed, sig, genuine, opened) (simp (current v, fresh) refl),
        λ v late. rw (enough, signed, sig, genuine, opened) (simp (current v, late) refl),
      )
