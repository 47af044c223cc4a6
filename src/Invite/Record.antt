-- ===== src/Invite/Record.antt =====
-- internal/invite/record.go: the encrypted invite record. The ciphers, the signature, SHA-256, HKDF and
-- JSON's text of a record are the parameter `RecordCiphers`.
pub mod Sealed
use opencom.Base.{
  ℕ, ◌+◌, ◌/◌, ◌%◌, Bool, true, false, not, Option, none, some, List, [], ◌∷◌, ◌++◌, Str, codes,
  if◌then◌else◌, ltb, nat_eq, ◌==◌, length, take, drop, ◌⊎◌, inl, inr,
}
use opencom.Base.Int.{ℤ, pos, ltb_ℤ}
use opencom.Base.Result.{◌>>=◌, ◌>>◌, check, or_error}
use opencom.Invite.Code.{Code}

abbrev pub record_version : ℕ
record_version = 1

pub record InviteRecord : Type 0 where
  pub version : ℕ
  pub peer_id : Str
  pub public_key : Str
  pub addresses : List Str
  pub display_name : Str
  pub expires_at : ℤ

pub data EncodeError : Type 0 where
  marshal_error nonce_error sign_error : EncodeError
  signature_length : ℕ → EncodeError

pub data DecodeError : Type 0 where
  signature_invalid expired malformed_record : DecodeError
  unsupported_version : ℕ → DecodeError

abbrev pub dht_key_prefix : Str
dht_key_prefix = codes "/opencom-invite/v1/"

abbrev pub dht_key_domain : Str
dht_key_domain = codes "opencom-invite-v1"

abbrev pub record_key_info : Str
record_key_info = codes "opencom-invite-record-v1"

abbrev pub signature_len : ℕ
signature_len = 64

abbrev pub nonce_len : ℕ
nonce_len = 24

-- With the 16 bytes of chacha20poly1305.Overhead.
abbrev pub min_blob_len : ℕ
min_blob_len = signature_len + nonce_len + 16

pub record RecordCiphers : Type 1 where
  pub PrivKey : Type 0
  pub PubKey : Type 0
  pub sign : PrivKey → Str → Option Str
  pub verify : PubKey → Str → Str → Option Bool
  pub seal : Str → Str → Str → Str
  pub open_sealed : Str → Str → Str → Option Str
  pub marshal : InviteRecord → Option Str
  pub unmarshal : Str → Option InviteRecord
  pub sha256 : Str → Str
  pub hkdf : Str → Str → Str

-- encoding/hex.
abbrev pub hex_char : ℕ → ℕ
hex_char n = if ltb n 10 then n + b'0' else n + 87

unfoldable pub hex_encode : Str → Str
hex_encode [] = []
hex_encode (c ∷ s) = hex_char (c / 16) ∷ hex_char (c % 16) ∷ hex_encode s

abbrev pub holds : Option Bool → Bool
holds none = false
holds (some b) = b

module _ (c : RecordCiphers) where
  unfoldable pub derive_dht_key : Code → Str
  derive_dht_key code = dht_key_prefix ++ hex_encode (c.sha256 (dht_key_domain ++ code))

  unfoldable pub derive_encryption_key : Code → Str
  derive_encryption_key code = c.hkdf code record_key_info

  -- `Encode`; `random` is what rand.Read puts in the nonce.
  unfoldable pub encode_record : InviteRecord → Str → c.PrivKey → Option Str → EncodeError ⊎ Str
  encode_record r enc_key signer random = do
    plaintext ← or_error marshal_error (c.marshal r)
    nonce ← or_error nonce_error random
    sig ← or_error sign_error (c.sign signer (nonce ++ c.seal enc_key nonce plaintext))
    check (length sig == signature_len) (signature_length (length sig))
    inr (sig ++ (nonce ++ c.seal enc_key nonce plaintext))

  -- The part that both decoders share: the signed bytes opened and parsed.
  unfoldable pub open_record : Str → Str → DecodeError ⊎ InviteRecord
  open_record signed enc_key = do
    plaintext ←
        or_error signature_invalid
          (c.open_sealed enc_key (take nonce_len signed) (drop nonce_len signed))
    or_error malformed_record (c.unmarshal plaintext)

  -- `Decode` at a time in Unix seconds.
  unfoldable pub decode_record : Str → Str → c.PubKey → ℕ → DecodeError ⊎ InviteRecord
  decode_record blob enc_key signer_pub now = do
    check (not (ltb (length blob) min_blob_len)) malformed_record
    check (holds (c.verify signer_pub (drop signature_len blob) (take signature_len blob)))
        signature_invalid
    rec ← open_record (drop signature_len blob) enc_key
    check (rec.version == record_version) (unsupported_version rec.version)
    check (not (ltb_ℤ rec.expires_at (pos now))) expired
    inr rec

  unfoldable pub decode_unverified : Str → Str → DecodeError ⊎ InviteRecord
  decode_unverified blob enc_key = do
    check (not (ltb (length blob) min_blob_len)) malformed_record
    open_record (drop signature_len blob) enc_key

unfoldable pub program : Unit {0}
unfolding hex_encode derive_dht_key derive_encryption_key encode_record open_record decode_record
    decode_unverified
program = tt
