-- ===== src/Invite/Url/RoundTrip.antt =====
-- internal/invite/url.go: ParseURL reads back what FormatURL writes.
use mathlib.Core.Path.{◌≡◌, refl, sym, ◌∙◌, ap}
use opencom.Base.{
  ℕ, ◌<◌, ◌≢◌, true, not, some, List, [], ◌∷◌, ◌++◌, Str, str_eq, nat_eq, codes, inr, arith, All,
  All-append, All-imp, str_beq, lt→ltb,
}
use opencom.Base.Int.{ℤ}
use opencom.Base.Result.{or_error}
use opencom.Base.Text.{join, split, has_prefix, Free, split-join}
use opencom.Base.Decimal.{
  format_int, parse_int, Int64, parse_int-format_int, format_int-nonempty, format_int-Bytes,
}
use opencom.Base.Base64.{raw_url_encoding, Bytes}
use opencom.Base.Base64.RoundTrip.{raw_url_encoding-Lawful, decode-encode_base64}
use opencom.Base.Base64.Symbols.{encode-Bytes, encode-nonempty, encode-Free}
use opencom.Base.Query.{Values, encode_values, get_value, is_empty}
use opencom.Base.Query.RoundTrip.{BytePair, parse_query-encode_values, encode_values-ascii}
use opencom.Friends.Store.{str_ltb}
use opencom.Invite.Code.{Code, parse}
use opencom.Invite.Code.Alphabet.{InAlphabet, IsCode, Plain-of_InAlphabet}
use opencom.Invite.Code.Parse.{parse_canonical}
use opencom.Invite.Url.{
  UrlPayload, UrlError, Unicode, url_prefix, all_ascii, to_lower, runes_of, after_byte,
  encode_addresses, split_blob, decode_addresses, insert_value, sorted_values, signature_values,
  url_values, format_url, parsed_code, parse_expiry, read_values, parse_url,
}

-- An address that a line of the list can hold.
pub record Line (addr : Str) : Type 0 where
  pub one_line : Free b'\n' addr
  pub bytes : Bytes addr
  pub nonempty : addr ≢ []

-- A payload that a URL can carry.
pub record Formattable (p : UrlPayload) : Type 0 where
  pub peer_id : Bytes p.peer_id
  pub peer_id_nonempty : p.peer_id ≢ []
  pub public_key : Bytes p.public_key
  pub first : Str
  pub more : List Str
  pub addresses : p.addresses ≡ first ∷ more
  pub lines : All Line (first ∷ more)
  pub display_name : Bytes p.display_name
  pub code : IsCode p.code
  pub expires_at : Int64 p.expires_at
  pub signature : Bytes p.signature

-- The pairs in the order of their keys.
abbrev ordered : UrlPayload → Values
ordered p =
    (codes "a", encode_addresses p.addresses)
    ∷ (codes "c", p.code)
    ∷ (codes "e", format_int p.expires_at)
    ∷ (codes "k", p.public_key)
    ∷ (codes "n", p.display_name)
    ∷ (codes "p", p.peer_id)
    ∷ signature_values p.signature

sorted-ordered :
    (p : UrlPayload) (sig : Str) → p.signature ≡ sig → sorted_values (url_values p) ≡ ordered p
unfolding sorted_values url_values insert_value signature_values str_ltb
sorted-ordered p [] e = rw e refl
sorted-ordered p (c ∷ s) e = rw e refl

join-Bytes : (lines : List Str) → All Line lines → Bytes (join b'\n' lines)
unfolding join
join-Bytes [] h = tt
join-Bytes (line ∷ []) h = h.0.bytes
join-Bytes (line ∷ next ∷ lines) h =
    All-append (λ b. b < 256) line (b'\n' ∷ join b'\n' (next ∷ lines)) h.0.bytes
      (omega arith, join-Bytes (next ∷ lines) h.1)

join-nonempty : (line : Str) (lines : List Str) → line ≢ [] → join b'\n' (line ∷ lines) ≢ []
unfolding join
join-nonempty [] lines h e = absurd (h refl)
join-nonempty (c ∷ s) [] h e = cc
join-nonempty (c ∷ s) (next ∷ lines) h e = cc

split_blob-nonempty : (s : Str) → s ≢ [] → split_blob (some s) ≡ some (split b'\n' s)
unfolding split_blob
split_blob-nonempty [] h = absurd (h refl)
split_blob-nonempty (c ∷ s) h = refl

lines-Free : (lines : List Str) → All Line lines → All (Free b'\n') lines
lines-Free [] h = tt
lines-Free (line ∷ lines) h = (h.0.one_line, lines-Free lines h.1)

-- decodeAddresses reads back the lines that encodeAddresses joins.
pub decode_addresses-encode_addresses :
    (line : Str) (lines : List Str)
    → All Line (line ∷ lines)
    → decode_addresses (encode_addresses (line ∷ lines)) ≡ some (line ∷ lines)
unfolding decode_addresses encode_addresses
decode_addresses-encode_addresses line lines h =
    ap split_blob (
      decode-encode_base64 raw_url_encoding raw_url_encoding-Lawful (join b'\n' (line ∷ lines))
        (join-Bytes (line ∷ lines) h))
    ∙ split_blob-nonempty (join b'\n' (line ∷ lines)) (join-nonempty line lines h.0.nonempty)
    ∙ ap some (split-join b'\n' line lines (lines-Free (line ∷ lines) h))

all_ascii-All : (s : Str) → All (λ c. c < 128) s → all_ascii s ≡ true
unfolding all_ascii
all_ascii-All [] h = refl
all_ascii-All (c ∷ s) h = rw (lt→ltb c 128 h.0) (all_ascii-All s h.1)

code-ascii : (c : Code) → IsCode c → All (λ r. r < 128) c
code-ascii c h =
    All-imp InAlphabet (λ r. r < 128) c (λ r a. (Plain-of_InAlphabet r a).ascii) h.chars

pub not_empty : (s : Str) → s ≢ [] → not (is_empty s) ≡ true
not_empty [] h = absurd (h refl)
not_empty (c ∷ s) h = refl

signature_values-Bytes : (sig : Str) → Bytes sig → All BytePair (signature_values sig)
unfolding signature_values
signature_values-Bytes [] h = tt
signature_values-Bytes (c ∷ s) h = (((omega arith, tt), h), tt)

-- Every key is one letter.
letter : (c : ℕ) (v : Str) → c < 256 → Bytes v → BytePair (c ∷ [], v)
letter c v h b = ((h, tt), b)

ordered-Bytes : (p : UrlPayload) → Formattable p → All BytePair (ordered p)
ordered-Bytes p f =
    let n = letter b'n' p.display_name (omega arith) f.display_name in
    let id = letter b'p' p.peer_id (omega arith) f.peer_id in
    let k = letter b'k' p.public_key (omega arith) f.public_key in
    let e = letter b'e' (format_int p.expires_at) (omega arith) (format_int-Bytes p.expires_at) in
    let c = letter b'c' p.code (omega arith) (
      All-imp (λ r. r < 128) (λ r. r < 256) p.code (λ r h. omega arith)
        (code-ascii p.code f.code)) in
    let a =
      letter b'a' (encode_addresses p.addresses) (omega arith)
        (unfold encode_addresses in encode-Bytes (join b'\n' p.addresses)) in
    (a, (c, (e, (k, (n, (id, signature_values-Bytes p.signature f.signature))))))

get-signature : (sig : Str) → get_value (codes "s") (signature_values sig) ≡ sig
unfolding signature_values get_value str_beq
get-signature [] = refl
get-signature (c ∷ s) = refl

parse_expiry-format_int : (i : ℤ) → Int64 i → parse_expiry (format_int i) ≡ inr i
parse_expiry-format_int i h = go (format_int i) (format_int-nonempty i) (parse_int-format_int i h)
  where
    go : (s : Str) → s ≢ [] → parse_int s ≡ some i → parse_expiry s ≡ inr i
    go [] ne e = absurd (ne refl)
    go (c ∷ s) ne e = unfold parse_expiry in ap (or_error UrlError.bad_expiry) e

addresses_back :
    (p : UrlPayload)
    → Formattable p
    → decode_addresses (encode_addresses p.addresses) ≡ some p.addresses
addresses_back p f =
    ap (λ l. decode_addresses (encode_addresses l)) f.addresses
    ∙ decode_addresses-encode_addresses f.first f.more f.lines
    ∙ ap some (sym f.addresses)

addresses_nonempty : (p : UrlPayload) → Formattable p → encode_addresses p.addresses ≢ []
unfolding encode_addresses
addresses_nonempty p f =
    encode-nonempty raw_url_encoding (join b'\n' p.addresses)
      (λ e. join-nonempty f.first f.more f.lines.0.nonempty (sym (ap (join b'\n') f.addresses) ∙ e))

code_back :
    (u : Unicode) (p : UrlPayload)
    → Formattable p
    → parsed_code (parse u.upper (runes_of u p.code)) ≡ inr p.code
unfolding runes_of
code_back u p f =
    rw (all_ascii-All p.code (code-ascii p.code f.code), parse_canonical u.upper p.code f.code)
      (unfold parsed_code in refl)

read_values-ordered :
    (u : Unicode) (p : UrlPayload) → Formattable p → read_values u (ordered p) ≡ inr p
unfolding read_values get_value str_beq
read_values-ordered u p f =
    rw
      (
        not_empty p.peer_id f.peer_id_nonempty,
        not_empty (encode_addresses p.addresses) (addresses_nonempty p f),
        addresses_back p f,
        code_back u p f,
        parse_expiry-format_int p.expires_at f.expires_at,
      )
      (ap (λ sig. inr (record p { signature = sig })) (get-signature p.signature))

prefix_ok :
    (u : Unicode) (rest : Str)
    → All (λ c. c < 128) rest
    → has_prefix (to_lower u (url_prefix ++ (b'?' ∷ rest))) url_prefix ≡ true
unfolding to_lower has_prefix
prefix_ok u rest h =
    let whole : all_ascii (url_prefix ++ (b'?' ∷ rest)) ≡ true =
      unfold all_ascii in all_ascii-All rest h in
    rw whole refl

-- ParseURL reads back what FormatURL writes, signature included, of a payload with a canonical code, an
-- int64 of an expiry, a peer ID and at least one address, where no address is empty or has a line
-- break; display name, peer ID, keys and signature may hold any bytes.
pub parse_url-format_url :
    (u : Unicode) (p : UrlPayload) → Formattable p → parse_url u (format_url p) ≡ inr p
unfolding parse_url format_url after_byte
parse_url-format_url u p f =
    let bytes = ordered-Bytes p f in
    let sorted = sorted-ordered p p.signature refl in
    rw
      (
        sorted,
        prefix_ok u (encode_values (ordered p)) (encode_values-ascii (ordered p) bytes),
        parse_query-encode_values (codes "a", encode_addresses p.addresses)
            ((codes "c", p.code)
              ∷ (codes "e", format_int p.expires_at)
              ∷ (codes "k", p.public_key)
              ∷ (codes "n", p.display_name)
              ∷ (codes "p", p.peer_id)
              ∷ signature_values p.signature)
            bytes,
      )
      (read_values-ordered u p f)

-- The text of the addresses has no line break.
pub encode_addresses-Free : (addrs : List Str) → Free b'\n' (encode_addresses addrs)
unfolding encode_addresses
encode_addresses-Free addrs = encode-Free (join b'\n' addrs)
