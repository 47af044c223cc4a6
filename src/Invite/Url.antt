-- ===== src/Invite/Url.antt =====
-- internal/invite/url.go: the self-contained invite URL. A string is the list of its bytes. libp2p's keys
-- are the parameter `UrlKeys`; `Unicode` is Go's treatment of text that is not ASCII.
pub mod RoundTrip
pub mod Signing
pub mod Canonical
mod Tests
use opencom.Base.{
  ℕ, ◌+◌, ◌-◌, Bool, true, false, not, ◌&&◌, Option, none, some, List, [], ◌∷◌, ◌++◌, map, Str,
  str_eq, nat_eq, codes, ◌==◌, if◌then◌else◌, ltb, leb, ◌⊎◌, inl, inr,
}
use opencom.Base.Int.{ℤ, pos}
use opencom.Base.Result.{◌>>=◌, ◌>>◌, check, or_error}
use opencom.Base.Text.{join, split, has_prefix}
use opencom.Base.Decimal.{format_int, parse_int}
use opencom.Base.Base64.{std_encoding, raw_url_encoding, encode, decode}
use opencom.Base.Query.{Values, encode_values, parse_query, get_value, is_empty}
use opencom.Friends.Store.{str_ltb}
use opencom.Invite.Code.{Code, Runes, ParseError, Result, ok, err, parse}

abbrev pub url_prefix : Str
url_prefix = codes "opencom://join"

abbrev pub url_sig_domain : Str
url_sig_domain = codes "opencom-invite-url-v1"

pub record UrlPayload : Type 0 where
  pub peer_id : Str
  pub public_key : Str
  pub addresses : List Str
  pub display_name : Str
  pub code : Code
  pub expires_at : ℤ
  pub signature : Str

pub data UrlError : Type 0 where
  not_join_url missing_query bad_query missing_peer_id missing_addresses : UrlError
  bad_addresses bad_expiry : UrlError
  bad_code : ParseError → UrlError

-- strings.ToLower, the runes of a string, and the upper case of a rune, where they are not ASCII.
pub record Unicode : Type 0 where
  pub lower : Str → Str
  pub runes : Str → Runes
  pub upper : ℕ → ℕ

unfoldable pub all_ascii : Str → Bool
all_ascii [] = true
all_ascii (c ∷ s) = ltb c 128 && all_ascii s

abbrev pub lower_byte : ℕ → ℕ
lower_byte c = if leb b'A' c && leb c b'Z' then c + 32 else c

unfoldable pub to_lower : Unicode → Str → Str
to_lower u s = if all_ascii s then map lower_byte s else u.lower s

unfoldable pub runes_of : Unicode → Str → Runes
runes_of u s = if all_ascii s then s else u.runes s

-- s[strings.IndexByte(s, b)+1:].
unfoldable pub after_byte : ℕ → Str → Option Str
after_byte b [] = none
after_byte b (c ∷ s) = let rest = after_byte b s in if c == b then some s else rest

unfoldable pub encode_addresses : List Str → Str
encode_addresses addrs = encode raw_url_encoding (join b'\n' addrs)

unfoldable pub split_blob : Option Str → Option (List Str)
split_blob none = none
split_blob (some []) = some []
split_blob (some (c ∷ s)) = some (split b'\n' (c ∷ s))

unfoldable pub decode_addresses : Str → Option (List Str)
decode_addresses enc = split_blob (decode raw_url_encoding enc)

-- The sort of Values.Encode.
unfoldable pub insert_value : Str × Str → Values → Values
insert_value pair [] = pair ∷ []
insert_value pair (other ∷ rest) =
    let later = insert_value pair rest in
    if str_ltb other.0 pair.0 then other ∷ later else pair ∷ other ∷ rest

unfoldable pub sorted_values : Values → Values
sorted_values [] = []
sorted_values (pair ∷ rest) = insert_value pair (sorted_values rest)

-- The last `if` of FormatURL.
unfoldable pub signature_values : Str → Values
signature_values [] = []
signature_values (c ∷ s) = (codes "s", c ∷ s) ∷ []

unfoldable pub url_values : UrlPayload → Values
url_values p =
    (codes "p", p.peer_id)
    ∷ (codes "k", p.public_key)
    ∷ (codes "a", encode_addresses p.addresses)
    ∷ (codes "n", p.display_name)
    ∷ (codes "c", p.code)
    ∷ (codes "e", format_int p.expires_at)
    ∷ signature_values p.signature

unfoldable pub format_url : UrlPayload → Str
format_url p = url_prefix ++ (b'?' ∷ encode_values (sorted_values (url_values p)))

unfoldable pub parsed_code : Result → UrlError ⊎ Code
parsed_code (ok c) = inr c
parsed_code (err e) = inl (bad_code e)

unfoldable pub parse_expiry : Str → UrlError ⊎ ℤ
parse_expiry [] = inr (pos 0)
parse_expiry (c ∷ s) = or_error bad_expiry (parse_int (c ∷ s))

-- `ParseURL` once the query is parsed.
unfoldable pub read_values : Unicode → Values → UrlError ⊎ UrlPayload
read_values u values = do
  check (not (is_empty (get_value (codes "p") values))) missing_peer_id
  check (not (is_empty (get_value (codes "a") values))) missing_addresses
  addresses ← or_error bad_addresses (decode_addresses (get_value (codes "a") values))
  code ← parsed_code (parse u.upper (runes_of u (get_value (codes "c") values)))
  expires ← parse_expiry (get_value (codes "e") values)
  inr (record {
    peer_id = get_value (codes "p") values;
    public_key = get_value (codes "k") values;
    addresses = addresses;
    display_name = get_value (codes "n") values;
    code = code;
    expires_at = expires;
    signature = get_value (codes "s") values;
  })

unfoldable pub parse_url : Unicode → Str → UrlError ⊎ UrlPayload
parse_url u s = do
  check (has_prefix (to_lower u s) url_prefix) not_join_url
  query ← or_error missing_query (after_byte b'?' s)
  values ← or_error bad_query (parse_query query)
  read_values u values

-- A line break, and a field before the rest.
abbrev pub line : Str → Str → Str → Str
line name value rest = b'\n' ∷ (name ++ (value ++ rest))

-- `urlCanonicalBytes`.
unfoldable pub url_canonical_bytes : UrlPayload → Str
url_canonical_bytes p =
    url_sig_domain
    ++ line (codes "p=") p.peer_id (
        line (codes "k=") p.public_key (
          line (codes "a=") (encode_addresses p.addresses) (
            line (codes "n=") p.display_name
              (line (codes "c=") p.code (b'\n' ∷ (codes "e=" ++ format_int p.expires_at))))))

pub record UrlKeys : Type 1 where
  pub PrivKey : Type 0
  pub PubKey : Type 0
  pub sign : PrivKey → Str → Option Str
  pub verify : PubKey → Str → Str → Option Bool
  pub unmarshal_public_key : Str → Option PubKey
  pub id_from_public_key : PubKey → Option Str

pub data VerifyError : Type 0 where
  missing_public_key missing_signature bad_key_text bad_key no_peer_id pubkey_mismatch : VerifyError
  bad_signature_text signature_invalid : VerifyError

abbrev pub holds : Option Bool → Bool
holds none = false
holds (some b) = b

module _ (k : UrlKeys) where
  unfoldable pub signed_payload : Option Str → UrlPayload → Option UrlPayload
  signed_payload none p = none
  signed_payload (some sig) p = some (record p { signature = encode std_encoding sig })

  -- `SignURL`; `none` is the error of Sign.
  unfoldable pub sign_url : UrlPayload → k.PrivKey → Option UrlPayload
  sign_url p signer = signed_payload (k.sign signer (url_canonical_bytes p)) p

  unfoldable pub verify_url : UrlPayload → VerifyError ⊎ k.PubKey
  verify_url p = do
    check (not (is_empty p.public_key)) missing_public_key
    check (not (is_empty p.signature)) missing_signature
    pub_bytes ← or_error bad_key_text (decode std_encoding p.public_key)
    pub_key ← or_error bad_key (k.unmarshal_public_key pub_bytes)
    derived ← or_error no_peer_id (k.id_from_public_key pub_key)
    check (derived == p.peer_id) pubkey_mismatch
    sig ← or_error bad_signature_text (decode std_encoding p.signature)
    check (holds (k.verify pub_key (url_canonical_bytes p) sig)) signature_invalid
    inr pub_key

unfoldable pub program : Unit {0}
unfolding all_ascii to_lower runes_of after_byte encode_addresses split_blob decode_addresses
    insert_value sorted_values signature_values url_values format_url parsed_code parse_expiry
    read_values parse_url url_canonical_bytes signed_payload sign_url verify_url
program = tt
