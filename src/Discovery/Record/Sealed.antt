-- ===== src/Discovery/Record/Sealed.antt =====
-- internal/discovery/record.go: `Decode` reads what `Encode` writes, and accepts nothing unsigned.
use mathlib.Core.Path.{◌≡◌, refl, sym, ◌∙◌, ap}
use opencom.Base.{
  ℕ, ◌+◌, ◌≤◌, Bool, true, false, Option, none, some, ◌++◌, Str, ltb, nat_eq, length, take, drop,
  inl, inr, arith, length-append, Bool-cases, take-prefix, drop-prefix,
}
use opencom.Discovery.Record.{
  Record, Ciphers, attach_signature, encode_with, encode_text, encode, is_stale, decode_record,
  decode_text, decode_verified, decode,
}

module _ (c : Ciphers) where
  -- What the code relies on: a signature verifies under its key's public key, a sealed text opens
  -- under the same key and nonce and is 16 bytes longer, and JSON reads back what it writes.
  pub record Laws : Type 0 where
    pub verify-sign :
        (k : c.PrivKey) (m s : Str)
        → c.sign k m ≡ some s
        → c.verify (c.get_public k) m s ≡ some true
    pub open-seal : (key nonce p : Str) → c.open_sealed key nonce (c.seal key nonce p) ≡ some p
    pub length-seal : (key nonce p : Str) → length (c.seal key nonce p) ≡ length p + 16
    pub unmarshal-marshal : (r : Record) (p : Str) → c.marshal r ≡ some p → c.unmarshal p ≡ some r

  -- What `Encode` returns when it succeeds.
  record Encoded (r : Record) (key nonce : Str) (k : c.PrivKey) (blob : Str) : Type 0 where
    plaintext : Str
    sig : Str
    written : c.marshal r ≡ some plaintext
    signed : c.sign k (nonce ++ c.seal key nonce plaintext) ≡ some sig
    sig_length : length sig ≡ 64
    whole : blob ≡ sig ++ (nonce ++ c.seal key nonce plaintext)

  attach_signature-Encoded :
      (o : Option Str) (r : Record) (key nonce : Str) (k : c.PrivKey) (blob p : Str)
      → c.marshal r ≡ some p
      → c.sign k (nonce ++ c.seal key nonce p) ≡ o
      → attach_signature c o (nonce ++ c.seal key nonce p) ≡ inr blob
      → Encoded r key nonce k blob
  unfolding attach_signature
  attach_signature-Encoded none r key nonce k blob p e es h = cc
  attach_signature-Encoded (some sig) r key nonce k blob p e es h = record {
    plaintext = p;
    sig = sig;
    written = e;
    signed = es;
    sig_length = ground arith;
    whole = ground arith;
  }

  encode_text-Encoded :
      (o : Option Str) (r : Record) (key nonce : Str) (k : c.PrivKey) (blob : Str)
      → c.marshal r ≡ o
      → encode_text c o (some nonce) key k ≡ inr blob
      → Encoded r key nonce k blob
  unfolding encode_text encode_with
  encode_text-Encoded none r key nonce k blob e h = cc
  encode_text-Encoded (some p) r key nonce k blob e h =
      attach_signature-Encoded (c.sign k (nonce ++ c.seal key nonce p)) r key nonce k blob p e refl
        h

  encode-Encoded :
      (r : Record) (key nonce : Str) (k : c.PrivKey) (blob : Str)
      → encode c r key k (some nonce) ≡ inr blob
      → Encoded r key nonce k blob
  unfolding encode
  encode-Encoded r key nonce k blob h = encode_text-Encoded (c.marshal r) r key nonce k blob refl h

  decode_parts :
      (sig nonce ct key : Str) (pub_key : c.PubKey) (now max_age : ℕ)
      → length sig ≡ 64
      → length nonce ≡ 24
      → 16 ≤ length ct
      → decode c (sig ++ (nonce ++ ct)) key pub_key now max_age
        ≡ decode_verified c (c.verify pub_key (nonce ++ ct) sig) (nonce ++ ct) key now max_age
  unfolding decode
  decode_parts sig nonce ct key pub_key now max_age ls ln lc =
      let size : length (sig ++ (nonce ++ ct)) ≡ length sig + (length nonce + length ct) =
        length-append sig (nonce ++ ct) ∙ ap (λ n. length sig + n) (length-append nonce ct) in
      let enough : ltb (length (sig ++ (nonce ++ ct))) 104 ≡ false = ground (arith, size) in
      rw (enough, drop-prefix 64 sig (nonce ++ ct) ls, take-prefix 64 sig (nonce ++ ct) ls) refl

  fresh_record :
      (r : Record) (now max_age : ℕ)
      → r.version ≡ 1
      → is_stale now max_age r.timestamp ≡ false
      → decode_record (some r) now max_age ≡ inr r
  unfolding decode_record
  fresh_record r now max_age v f = ground arith

  -- What `Encode` writes with a nonce of 24 bytes, `Decode` reads back under the same encryption key
  -- and the signer's public key, if the version is the current one and the record is not stale.
  pub decode-encode :
      (laws : Laws) (r : Record) (key nonce : Str) (k : c.PrivKey) (blob : Str) (now max_age : ℕ)
      → encode c r key k (some nonce) ≡ inr blob
      → length nonce ≡ 24
      → r.version ≡ 1
      → is_stale now max_age r.timestamp ≡ false
      → decode c blob key (c.get_public k) now max_age ≡ inr r
  unfolding decode_verified decode_text
  decode-encode laws r key nonce k blob now max_age h ln v f =
      let e = encode-Encoded r key nonce k blob h in
      let ct = c.seal key nonce e.plaintext in
      ap (λ b. decode c b key (c.get_public k) now max_age) e.whole
      ∙ decode_parts e.sig nonce ct key (c.get_public k) now max_age e.sig_length ln
          (omega (arith, laws.length-seal key nonce e.plaintext))
      ∙ rw
          (
            laws.verify-sign k (nonce ++ ct) e.sig e.signed,
            take-prefix 24 nonce ct ln,
            drop-prefix 24 nonce ct ln,
            laws.open-seal key nonce e.plaintext,
            laws.unmarshal-marshal r e.plaintext e.written,
          )
          (fresh_record r now max_age v f)

  -- What `Decode` has checked of a record that it returns.
  pub record Genuine (blob key : Str) (pub_key : c.PubKey) (now max_age : ℕ) (r : Record)
      : Type 0 where
    pub verified : c.verify pub_key (drop 64 blob) (take 64 blob) ≡ some true
    pub plaintext : Str
    pub opened :
        c.open_sealed key (take 24 (drop 64 blob)) (drop 24 (drop 64 blob)) ≡ some plaintext
    pub parsed : c.unmarshal plaintext ≡ some r
    pub current : r.version ≡ 1
    pub fresh : is_stale now max_age r.timestamp ≡ false
    pub long_enough : 104 ≤ length blob

  -- What the last two checks let through.
  record Read (o : Option Record) (now max_age : ℕ) (r : Record) : Type 0 where
    found : o ≡ some r
    version_one : r.version ≡ 1
    not_stale : is_stale now max_age r.timestamp ≡ false

  decode_record-Read :
      (o : Option Record) (now max_age : ℕ) (r : Record)
      → decode_record o now max_age ≡ inr r
      → Read o now max_age r
  unfolding decode_record
  decode_record-Read none now max_age r h = cc
  decode_record-Read (some rec) now max_age r h =
      let same : rec ≡ r = ground arith in
      let one : rec.version ≡ 1 = ground arith in
      let fresh : is_stale now max_age rec.timestamp ≡ false = ground arith in
      record {
        found = ap some same;
        version_one = ap (λ (x : Record). x.version) (sym same) ∙ one;
        not_stale = ap (λ (x : Record). is_stale now max_age x.timestamp) (sym same) ∙ fresh;
      }

  decode_text-Genuine :
      (o : Option Str) (blob key : Str) (pub_key : c.PubKey) (now max_age : ℕ) (r : Record)
      → 104 ≤ length blob
      → c.verify pub_key (drop 64 blob) (take 64 blob) ≡ some true
      → c.open_sealed key (take 24 (drop 64 blob)) (drop 24 (drop 64 blob)) ≡ o
      → decode_text c o now max_age ≡ inr r
      → Genuine blob key pub_key now max_age r
  unfolding decode_text
  decode_text-Genuine none blob key pub_key now max_age r long v e h = cc
  decode_text-Genuine (some p) blob key pub_key now max_age r long v e h =
      let read = decode_record-Read (c.unmarshal p) now max_age r h in
      record {
        verified = v;
        plaintext = p;
        opened = e;
        parsed = read.found;
        current = read.version_one;
        fresh = read.not_stale;
        long_enough = long;
      }

  decode_verified-Genuine :
      (o : Option Bool) (blob key : Str) (pub_key : c.PubKey) (now max_age : ℕ) (r : Record)
      → 104 ≤ length blob
      → c.verify pub_key (drop 64 blob) (take 64 blob) ≡ o
      → decode_verified c o (drop 64 blob) key now max_age ≡ inr r
      → Genuine blob key pub_key now max_age r
  unfolding decode_verified
  decode_verified-Genuine none blob key pub_key now max_age r long v h = cc
  decode_verified-Genuine (some false) blob key pub_key now max_age r long v h = cc
  decode_verified-Genuine (some true) blob key pub_key now max_age r long v h =
      decode_text-Genuine (c.open_sealed key (take 24 (drop 64 blob)) (drop 24 (drop 64 blob))) blob
        key pub_key now max_age r long v refl h

  -- A record that `Decode` returns is that of a blob with room for a signature, a nonce and a tag,
  -- whose signature verifies under the given key, whose text opens under the encryption key and is
  -- JSON of that record, of the current version and not stale.
  pub decode-Genuine :
      (blob key : Str) (pub_key : c.PubKey) (now max_age : ℕ) (r : Record)
      → decode c blob key pub_key now max_age ≡ inr r
      → Genuine blob key pub_key now max_age r
  unfolding decode
  decode-Genuine blob key pub_key now max_age r h = elim (Bool-cases (ltb (length blob) 104)) [
    | inl short ↦ absurd (ground (arith, h, short))
    | inr long ↦
        decode_verified-Genuine (c.verify pub_key (drop 64 blob) (take 64 blob)) blob key pub_key
          now max_age r (ground arith) refl (ground (arith, h, long))
  ]
