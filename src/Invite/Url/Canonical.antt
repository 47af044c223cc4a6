-- ===== src/Invite/Url/Canonical.antt =====
-- internal/invite/url.go: what the signature of an invite URL covers.
use mathlib.Core.Path.{◌≡◌, refl, sym, ◌∙◌, ap, subst}
use mathlib.Core.List.{append_assoc}
use opencom.Base.{some, List, [], ◌∷◌, ◌++◌, Str, codes, arith, All, drop}
use opencom.Base.Text.{cut, Free, cut-append}
use opencom.Base.Decimal.{format_int, parse_int, Int64, parse_int-format_int, format_int-Free}
use opencom.Invite.Url.{UrlPayload, encode_addresses, decode_addresses, url_canonical_bytes}
use opencom.Invite.Url.RoundTrip.{Line, decode_addresses-encode_addresses, encode_addresses-Free}

-- A payload whose fields but the display name hold no line break, and whose addresses are lines.
pub record Plain (p : UrlPayload) : Type 0 where
  pub peer_id : Free b'\n' p.peer_id
  pub public_key : Free b'\n' p.public_key
  pub first : Str
  pub more : List Str
  pub addresses : p.addresses ≡ first ∷ more
  pub lines : All Line (first ∷ more)
  pub code : Free b'\n' p.code
  pub expires_at : Int64 p.expires_at

-- The fields that the signature is over.
pub record SameSigned (p q : UrlPayload) : Type 0 where
  pub peer_id : p.peer_id ≡ q.peer_id
  pub public_key : p.public_key ≡ q.public_key
  pub addresses : p.addresses ≡ q.addresses
  pub display_name : p.display_name ≡ q.display_name
  pub code : p.code ≡ q.code
  pub expires_at : p.expires_at ≡ q.expires_at

-- The first break in a text whose start has none.
first_break :
    (s t u v : Str)
    → Free b'\n' s
    → Free b'\n' t
    → s ++ b'\n' ∷ u ≡ t ++ b'\n' ∷ v
    → (s ≡ t) × (u ≡ v)
first_break s t u v hs ht e =
    let parts : ◌≡◌ {A = Str × Str} (s, u) (t, v) =
      sym (cut-append b'\n' s u hs) ∙ ap (cut b'\n') e ∙ cut-append b'\n' t v ht in
    (ap (λ x. x.0) parts, ap (λ x. x.1) parts)

not_Free : (s t : Str) → Free b'\n' (s ++ b'\n' ∷ t) → ⊥
not_Free [] t h = h.0 refl
not_Free (c ∷ s) t h = not_Free s t h.1

-- The last break in a text whose end has none.
last_break :
    (s t u v : Str)
    → Free b'\n' u
    → Free b'\n' v
    → s ++ b'\n' ∷ u ≡ t ++ b'\n' ∷ v
    → (s ≡ t) × (u ≡ v)
last_break [] [] u v hu hv e = (refl, cc)
last_break [] (c ∷ t) u v hu hv e =
    let inside : u ≡ t ++ b'\n' ∷ v = cc in absurd (not_Free t v (subst (Free b'\n') inside hu))
last_break (c ∷ s) [] u v hu hv e =
    let inside : v ≡ s ++ b'\n' ∷ u = cc in absurd (not_Free s u (subst (Free b'\n') inside hv))
last_break (c ∷ s) (d ∷ t) u v hu hv e =
    let head : c ≡ d = cc in let (same, rest) = last_break s t u v hu hv (cc) in (cc, rest)

addresses_of_text :
    (p q : UrlPayload)
    → Plain p
    → Plain q
    → encode_addresses p.addresses ≡ encode_addresses q.addresses
    → p.addresses ≡ q.addresses
addresses_of_text p q a b e =
    let back = λ (x : UrlPayload) (h : Plain x).
      ap (λ l. decode_addresses (encode_addresses l)) h.addresses
      ∙ decode_addresses-encode_addresses h.first h.more h.lines
      ∙ ap some (sym h.addresses) in
    let same : some p.addresses ≡ some q.addresses =
      sym (back p a) ∙ ap decode_addresses e ∙ back q b in
    cc (same)

expiry_of_text :
    (p q : UrlPayload)
    → Plain p
    → Plain q
    → format_int p.expires_at ≡ format_int q.expires_at
    → p.expires_at ≡ q.expires_at
expiry_of_text p q a b e =
    let same : some p.expires_at ≡ some q.expires_at =
      sym (parse_int-format_int p.expires_at a.expires_at)
      ∙ ap parse_int e
      ∙ parse_int-format_int q.expires_at b.expires_at in
    cc (same)

-- The end of the text, from the expiry, from the name, and from each field before.
expiry : UrlPayload → Str
expiry p = codes "e=" ++ format_int p.expires_at

named : UrlPayload → Str
named p = p.display_name ++ (b'\n' ∷ (codes "c=" ++ p.code))

after_addresses : UrlPayload → Str
after_addresses p = p.display_name ++ (b'\n' ∷ (codes "c=" ++ (p.code ++ (b'\n' ∷ expiry p))))

after_key : UrlPayload → Str
after_key p =
    codes "a=" ++ (encode_addresses p.addresses ++ (b'\n' ∷ (codes "n=" ++ after_addresses p)))

after_id : UrlPayload → Str
after_id p = codes "k=" ++ (p.public_key ++ (b'\n' ∷ after_key p))

regroup : (p : UrlPayload) → named p ++ (b'\n' ∷ expiry p) ≡ after_addresses p
unfolding named after_addresses
regroup p = append_assoc p.display_name (b'\n' ∷ (codes "c=" ++ p.code)) (b'\n' ∷ expiry p)

expiry-Free : (p : UrlPayload) → Free b'\n' (expiry p)
unfolding expiry
expiry-Free p =
    let digits = format_int-Free b'\n' p.expires_at refl (λ e. ground (arith, e)) in
    ((λ e. ground (arith, e)), ((λ e. ground (arith, e)), digits))

code-Free : (p : UrlPayload) → Free b'\n' p.code → Free b'\n' (codes "c=" ++ p.code)
code-Free p h = ((λ e. ground (arith, e)), ((λ e. ground (arith, e)), h))

-- The bytes that are signed determine all the fields of a payload but the signature, whatever bytes the
-- display name has, line breaks included, if no other field has a line break and the addresses are
-- one or more lines.
pub url_canonical_bytes_inj :
    (p q : UrlPayload)
    → Plain p
    → Plain q
    → url_canonical_bytes p ≡ url_canonical_bytes q
    → SameSigned p q
unfolding url_canonical_bytes after_id after_key after_addresses named expiry
url_canonical_bytes_inj p q a b e =
    let (id, e1) =
      first_break p.peer_id q.peer_id (after_id p) (after_id q) a.peer_id b.peer_id
        (ap (drop 24) e) in
    let (key, e2) =
      first_break p.public_key q.public_key (after_key p) (after_key q) a.public_key b.public_key
        (ap (drop 2) e1) in
    let (addrs, e3) =
      first_break (encode_addresses p.addresses) (encode_addresses q.addresses)
        (codes "n=" ++ after_addresses p) (codes "n=" ++ after_addresses q)
        (encode_addresses-Free p.addresses) (encode_addresses-Free q.addresses) (ap (drop 2) e2) in
    let (body, e4) =
      last_break (named p) (named q) (expiry p) (expiry q) (expiry-Free p) (expiry-Free q)
        (regroup p ∙ ap (drop 2) e3 ∙ sym (regroup q)) in
    let (name, e5) =
      last_break p.display_name q.display_name (codes "c=" ++ p.code) (codes "c=" ++ q.code)
        (code-Free p a.code) (code-Free q b.code) body in
    record {
      peer_id = id;
      public_key = key;
      addresses = addresses_of_text p q a b addrs;
      display_name = name;
      code = ap (drop 2) e5;
      expires_at = expiry_of_text p q a b (ap (drop 2) e4);
    }
