-- ===== src/Invite/Url/Tests.antt =====
-- internal/invite/url.go: an invite of alice, as a URL and back.
use mathlib.Core.Path.{◌≡◌, refl, subst}
use opencom.Base.{
  ℕ, ◌<◌, ◌≢◌, true, some, [], ◌∷◌, ◌++◌, Str, str_beq, codes, arith, inl, inr, every, All-of_every,
  ltb, ltb→lt, not, ◌==◌, nat_eq, str_eq, str_beq_iff,
}
use opencom.Base.Int.{pos}
use opencom.Base.Text
use opencom.Base.Text.{Free}
use opencom.Base.Query
use opencom.Base.Base64
use opencom.Base.Decimal
use opencom.Friends.Store.{str_ltb}
use opencom.Invite.Code
use opencom.Invite.Url
use opencom.Invite.Code.Parse.{parse-IsCode}
use opencom.Base.Decimal.{Int64}
use opencom.Base.Base64.{std_encoding, encode, Bytes}
use opencom.Invite.Code.Alphabet.{IsCode}
use opencom.Invite.Url.{
  UrlPayload, UrlKeys, Unicode, UrlError, format_url, parse_url, sign_url, signed_payload,
  verify_url, url_canonical_bytes,
}
use opencom.Invite.Url.RoundTrip.{Line, Formattable, parse_url-format_url}
use opencom.Invite.Url.Canonical.{Plain, SameSigned, url_canonical_bytes_inj}
use opencom.Invite.Url.Signing.{Signer, Names, Authentic, verify_url-sign_url, verify_url-Authentic}

abbrev unicode : Unicode
unicode = record { lower = λ s. s; runes = λ s. s; upper = λ c. c }

-- A display name with a space, a line break and a byte that is not ASCII.
abbrev payload : UrlPayload
payload = record {
  peer_id = codes "alice";
  public_key = encode std_encoding (codes "key");
  addresses = codes "/ip4/1" ∷ codes "/ip4/2" ∷ [];
  display_name = codes "Al & " ++ (b'\n' ∷ 200 ∷ []);
  code = codes "0123ABCD";
  expires_at = pos 1_700_000_000;
  signature = codes "c2ln";
}

values-Bytes : (s : Str) → every (λ c. ltb c 256) s ≡ true → Bytes s
values-Bytes s h = All-of_every (λ c. c < 256) (λ c. ltb c 256) s (λ c e. ltb→lt c 256 e) h

no_breaks : (s : Str) → every (λ c. not (c == b'\n')) s ≡ true → Free b'\n' s
no_breaks s h =
    All-of_every (λ c. c ≢ b'\n') (λ c. not (c == b'\n')) s
      (λ c e. ground (arith, e, nat_eq.eqb_iff c b'\n')) h

line :
    (c : ℕ) (s : Str)
    → every (λ c. not (c == b'\n')) (c ∷ s) ≡ true
    → every (λ c. ltb c 256) (c ∷ s) ≡ true
    → Line (c ∷ s)
line c s f b = record {
  one_line = no_breaks (c ∷ s) f;
  bytes = values-Bytes (c ∷ s) b;
  nonempty = λ e. cc;
}

code-IsCode : IsCode (codes "0123ABCD")
unfolding Code.program str_beq
code-IsCode = parse-IsCode unicode.upper (codes "0123ABCD") (codes "0123ABCD") refl

payload-Formattable : Formattable payload
unfolding encode Base64.program
payload-Formattable = record {
  peer_id = values-Bytes (codes "alice") refl;
  peer_id_nonempty = λ e. cc;
  public_key = values-Bytes payload.public_key refl;
  first = codes "/ip4/1";
  more = codes "/ip4/2" ∷ [];
  addresses = refl;
  lines = (line b'/' (codes "ip4/1") refl refl, (line b'/' (codes "ip4/2") refl refl, tt));
  display_name = values-Bytes payload.display_name refl;
  code = code-IsCode;
  expires_at = omega arith;
  signature = values-Bytes (codes "c2ln") refl;
}

parse_url-format_url_example : parse_url unicode (format_url payload) ≡ inr payload
parse_url-format_url_example = parse_url-format_url unicode payload payload-Formattable

-- As it runs.
formatted :
    format_url payload
    ≡ codes
        "opencom://join?a=L2lwNC8xCi9pcDQvMg&c=0123ABCD&e=1700000000&k=a2V5&n=Al+%26+%0A%C8&p=alice&s=c2ln"
unfolding Url.program Text.program Base64.program Query.program Decimal.program str_beq str_ltb
formatted = refl

parsed : parse_url unicode (format_url payload) ≡ inr payload
unfolding Url.program Text.program Base64.program Query.program Decimal.program Code.program str_beq
    str_ltb
parsed = refl

-- A URL with no addresses, as a host without any writes it, is refused.
abbrev homeless : UrlPayload
homeless = record payload { addresses = [] }

refused : parse_url unicode (format_url homeless) ≡ inl UrlError.missing_addresses
unfolding Url.program Text.program Base64.program Query.program Decimal.program Code.program str_beq
    str_ltb
refused = refl

payload-Plain : Plain payload
unfolding encode Base64.program
payload-Plain = record {
  peer_id = no_breaks (codes "alice") refl;
  public_key = no_breaks payload.public_key refl;
  first = codes "/ip4/1";
  more = codes "/ip4/2" ∷ [];
  addresses = refl;
  lines = (line b'/' (codes "ip4/1") refl refl, (line b'/' (codes "ip4/2") refl refl, tt));
  code = no_breaks (codes "0123ABCD") refl;
  expires_at = omega arith;
}

url_canonical_bytes_inj_example : SameSigned payload (record payload { signature = [] })
unfolding url_canonical_bytes
url_canonical_bytes_inj_example =
    url_canonical_bytes_inj payload (record payload { signature = [] }) payload-Plain
      (record {
        peer_id = payload-Plain.peer_id;
        public_key = payload-Plain.public_key;
        first = payload-Plain.first;
        more = payload-Plain.more;
        addresses = payload-Plain.addresses;
        lines = payload-Plain.lines;
        code = payload-Plain.code;
        expires_at = payload-Plain.expires_at;
      })
      refl

-- Keys that sign with the text "sig" and accept only it.
abbrev keys : UrlKeys
keys = record {
  PrivKey = Str;
  PubKey = Str;
  sign = λ k m. some (codes "sig");
  verify = λ k m s. some (s == codes "sig");
  unmarshal_public_key = λ s. some s;
  id_from_public_key = λ k. some (codes "alice");
}

signs : Signer keys (codes "key") (codes "key")
unfolding str_beq
signs = record {
  verify-sign = λ m s e. ground (arith, e, str_beq_iff s (codes "sig"));
  bytes = λ m s e. subst Bytes (the_sig s e) (values-Bytes (codes "sig") refl);
  nonempty = λ m s e z. cc (the_sig s e, z);
}
  where
    the_sig : (s : Str) → some (codes "sig") ≡ some s → codes "sig" ≡ s
    the_sig s e = cc

names : Names keys (codes "key") payload
names = record {
  key_bytes = codes "key";
  in_base64 = refl;
  bytes = values-Bytes (codes "key") refl;
  nonempty = λ e. cc;
  parses = refl;
  identity = refl;
}

accepted : verify_url keys payload ≡ inr (codes "key")
unfolding sign_url signed_payload encode Base64.program
accepted = verify_url-sign_url keys (codes "key") (codes "key") payload payload signs names refl

verify_url-Authentic_example : Authentic keys payload (codes "key")
verify_url-Authentic_example = verify_url-Authentic keys payload (codes "key") accepted
