-- ===== src/Discovery/Record.antt =====
-- internal/discovery/record.go: the signed and encrypted record. The cipher, the signature and JSON's
-- text of a record are the parameter `Ciphers`; byte strings are lists of numbers, and the key of
-- chacha20poly1305.NewX has its 32 bytes by its type.
pub mod Sealed
mod Tests
use opencom.Base.{
  ℕ, ◌+◌, ◌-◌, ◌*◌, ◌^◌, Bool, true, false, not, Option, none, some, List, [], ◌∷◌, ◌++◌, Str,
  if◌then◌else◌, ltb, nat_eq, ◌==◌, length, take, drop, ◌⊎◌, inl, inr,
}
use opencom.Base.Int.{ℤ, pos, negsuc}

pub record Record : Type 0 where
  pub version : ℕ
  pub addresses : List Str
  pub timestamp : ℤ

abbrev pub record_version : ℕ
record_version = 1

abbrev pub signature_len : ℕ
signature_len = 64

abbrev pub nonce_len : ℕ
nonce_len = 24

-- With the 16 bytes of chacha20poly1305.Overhead.
abbrev pub min_blob_len : ℕ
min_blob_len = signature_len + nonce_len + 16

pub data EncodeError : Type 0 where
  marshal_error nonce_error sign_error : EncodeError
  signature_length : ℕ → EncodeError

pub data DecodeError : Type 0 where
  signature_invalid stale malformed_record : DecodeError
  unsupported_version : ℕ → DecodeError

-- `verify` is `none` where Verify returns an error, and so are the others.
pub record Ciphers : Type 1 where
  pub PrivKey : Type 0
  pub PubKey : Type 0
  pub get_public : PrivKey → PubKey
  pub sign : PrivKey → Str → Option Str
  pub verify : PubKey → Str → Str → Option Bool
  pub seal : Str → Str → Str → Str
  pub open_sealed : Str → Str → Str → Option Str
  pub marshal : Record → Option Str
  pub unmarshal : Str → Option Record

-- time.Since(time.Unix(timestamp, 0)) > maxAge, in nanoseconds.
unfoldable pub is_stale : ℕ → ℕ → ℤ → Bool
is_stale now max_age (pos t) = ltb (t * 10 ^ 9 + max_age) now
is_stale now max_age (negsuc t) = ltb max_age (now + (t + 1) * 10 ^ 9)

unfoldable pub decode_record : Option Record → ℕ → ℕ → DecodeError ⊎ Record
decode_record none now max_age = inl malformed_record
decode_record (some rec) now max_age =
    if not (rec.version == record_version)
    then inl (unsupported_version rec.version)
    else (if is_stale now max_age rec.timestamp then inl stale else inr rec)

module _ (c : Ciphers) where
  -- `Encode` after the call of Sign.
  unfoldable pub attach_signature : Option Str → Str → EncodeError ⊎ Str
  attach_signature none signed = inl sign_error
  attach_signature (some sig) signed =
      if not (length sig == signature_len)
      then inl (signature_length (length sig))
      else inr (sig ++ signed)

  unfoldable pub encode_with : Option Str → Str → c.PrivKey → Str → EncodeError ⊎ Str
  encode_with none enc_key signer plaintext = inl nonce_error
  encode_with (some nonce) enc_key signer plaintext =
      let signed = nonce ++ c.seal enc_key nonce plaintext in
      attach_signature (c.sign signer signed) signed

  unfoldable pub encode_text : Option Str → Option Str → Str → c.PrivKey → EncodeError ⊎ Str
  encode_text none random enc_key signer = inl marshal_error
  encode_text (some plaintext) random enc_key signer = encode_with random enc_key signer plaintext

  -- `Encode`; `random` is what rand.Read puts in the nonce.
  unfoldable pub encode : Record → Str → c.PrivKey → Option Str → EncodeError ⊎ Str
  encode r enc_key signer random = encode_text (c.marshal r) random enc_key signer

  unfoldable pub decode_text : Option Str → ℕ → ℕ → DecodeError ⊎ Record
  decode_text none now max_age = inl signature_invalid
  decode_text (some plaintext) now max_age = decode_record (c.unmarshal plaintext) now max_age

  unfoldable pub decode_verified : Option Bool → Str → Str → ℕ → ℕ → DecodeError ⊎ Record
  decode_verified none signed enc_key now max_age = inl signature_invalid
  decode_verified (some false) signed enc_key now max_age = inl signature_invalid
  decode_verified (some true) signed enc_key now max_age =
      decode_text (c.open_sealed enc_key (take nonce_len signed) (drop nonce_len signed)) now
        max_age

  unfoldable pub decode : Str → Str → c.PubKey → ℕ → ℕ → DecodeError ⊎ Record
  decode blob enc_key signer_pub now max_age =
      let signed = drop signature_len blob in
      let rest =
        decode_verified (c.verify signer_pub signed (take signature_len blob)) signed enc_key now
          max_age in
      if ltb (length blob) min_blob_len then inl malformed_record else rest

unfoldable pub program : Unit {0}
unfolding attach_signature encode_with encode_text encode is_stale decode_record decode_text
    decode_verified decode
program = tt
