-- ===== src/Base/Query/RoundTrip.antt =====
-- net/url: ParseQuery reads back what Encode writes.
use Prim.Native.Nat.{ℕ, ◌+◌, ◌*◌, ◌/◌, ◌%◌, ◌<◌}
use mathlib.Core.Path.{◌≡◌, refl, sym, ◌∙◌, ap}
use mathlib.Core.Logic.{◌≢◌, inl, inr}
use mathlib.Core.Bool.{true, false}
use mathlib.Core.Option.{Option, none, some}
use mathlib.Core.List.{[], ◌∷◌, ◌++◌, map, append_assoc, append-nil}
use native.Mathlib.Omega.{arith}
use opencom.Base.Tests.{Str, ◌==◌, nat_eq, Bool-cases}
use opencom.Base.Lists.{All, All-append, All-imp}
use opencom.Base.Text.{join, cut, Free, split-join, cut-append}
use opencom.Base.Base64.{Bytes}
use opencom.Base.Query.{
  Values, unreserved, hex_digit, escape_byte, escape, unhex, Place, plain, percent, half,
  first_half, second_half, read_byte, put_before, unescape_from, unescape, encode_pair,
  encode_values, has_byte, pair_of, parse_pair, add_pair, is_empty, parse_segments, parse_query,
}

-- What QueryEscape writes: no byte that a query gives a meaning to.
abbrev pub Escaped : ℕ → Type 0
Escaped c = (c ≢ b'&') × (c ≢ b'=') × (c ≢ b';') × (c ≢ 10) × (c < 128)

unreserved-Escaped :
    (c : ℕ) → unreserved c ≡ true → Escaped c × ((c == b'%') ≡ false) × ((c == b'+') ≡ false)
unfolding unreserved
unreserved-Escaped c h = ground arith

hex_digit-Escaped : (n : ℕ) → n < 16 → Escaped (hex_digit n)
hex_digit-Escaped n h = ground arith

unhex-hex_digit : (n : ℕ) → n < 16 → unhex (hex_digit n) ≡ some n
unfolding unhex
unhex-hex_digit n h = ground arith

-- The three ways to write a byte.
data Written (c : ℕ) : Str → Type 0 where
  as_it_is : unreserved c ≡ true → Written c (c ∷ [])
  as_plus : c ≡ b' ' → Written c (b'+' ∷ [])
  as_hex : Written c (b'%' ∷ hex_digit (c / 16) ∷ hex_digit (c % 16) ∷ [])

escape_byte-Written : (c : ℕ) → Written c (escape_byte c)
unfolding escape_byte
escape_byte-Written c = elim (Bool-cases (unreserved c)) [
  | inl u ↦ rw u (as_it_is u)
  | inr r ↦ elim (Bool-cases (c == b' ')) [
    | inl e ↦ rw (r, e) (as_plus ((nat_eq.eqb_iff c b' ').0 e))
    | inr e ↦ rw (r, e) as_hex
  ]
]

Written-Escaped : (c : ℕ) (s : Str) → c < 256 → Written c s → All Escaped s
Written-Escaped c _ h (as_it_is u) = ((unreserved-Escaped c u).0, tt)
Written-Escaped c _ h (as_plus e) = ground arith
Written-Escaped c _ h as_hex =
    let hi = hex_digit-Escaped (c / 16) (omega arith) in
    let lo = hex_digit-Escaped (c % 16) (omega arith) in (ground arith, (hi, (lo, tt)))

continue_from : Option (Str × Place) → Str → Option Str
continue_from none s = none
continue_from (some r) s = put_before r.0 (unescape_from r.1 s)

chosen :
    (o : Option (Str × Place)) (s : Str)
    → elim o as (λ x. Option Str) [ none ↦ none | some r ↦ put_before r.0 (unescape_from r.1 s) ]
      ≡ continue_from o s
unfolding continue_from
chosen none s = refl
chosen (some r) s = refl

unescape_from-cons :
    (p : Place) (c : ℕ) (s : Str) → unescape_from p (c ∷ s) ≡ continue_from (read_byte p c) s
unfolding unescape_from
unescape_from-cons plain c s = chosen (read_byte plain c) s
unescape_from-cons percent c s = chosen (read_byte percent c) s
unescape_from-cons (half hi) c s = chosen (read_byte (half hi) c) s

put_before-nil : (o : Option Str) → put_before [] o ≡ o
unfolding put_before
put_before-nil none = refl
put_before-nil (some s) = refl

put_before-append :
    (s t : Str) (o : Option Str) → put_before s (put_before t o) ≡ put_before (s ++ t) o
unfolding put_before
put_before-append s t none = refl
put_before-append s t (some u) = ap some (sym (append_assoc s t u))

unescape-Written :
    (c : ℕ) (s t : Str)
    → c < 256
    → Written c s
    → unescape_from plain (s ++ t) ≡ put_before (c ∷ []) (unescape_from plain t)
unfolding read_byte continue_from
unescape-Written c _ t h (as_it_is u) =
    let (e, not_percent, not_plus) = unreserved-Escaped c u in
    unescape_from-cons plain c t ∙ rw (not_percent, not_plus) refl
unescape-Written c _ t h (as_plus e) = unescape_from-cons plain b'+' t ∙ rw e refl
unescape-Written c _ t h as_hex =
    let hi = hex_digit (c / 16) in
    let lo = hex_digit (c % 16) in
    let whole : c / 16 * 16 + c % 16 ≡ c = omega arith in
    let one : continue_from (read_byte percent hi) (lo ∷ t)
        ≡ unescape_from (half (c / 16)) (lo ∷ t) =
      rw (unhex-hex_digit (c / 16) (omega arith))
        (unfold first_half in put_before-nil (unescape_from (half (c / 16)) (lo ∷ t))) in
    let two : continue_from (read_byte (half (c / 16)) lo) t
        ≡ put_before (c ∷ []) (unescape_from plain t) =
      rw (unhex-hex_digit (c % 16) (omega arith)) (unfold second_half in rw whole refl) in
    unescape_from-cons plain b'%' (hi ∷ lo ∷ t)
    ∙ put_before-nil (unescape_from percent (hi ∷ lo ∷ t))
    ∙ unescape_from-cons percent hi (lo ∷ t)
    ∙ one
    ∙ unescape_from-cons (half (c / 16)) lo t
    ∙ two

unescape_from-escape :
    (s t : Str)
    → Bytes s
    → unescape_from plain (escape s ++ t) ≡ put_before s (unescape_from plain t)
unfolding escape
unescape_from-escape [] t h = sym (put_before-nil (unescape_from plain t))
unescape_from-escape (c ∷ s) t h =
    ap (unescape_from plain) (append_assoc (escape_byte c) (escape s) t)
    ∙ unescape-Written c (escape_byte c) (escape s ++ t) h.0 (escape_byte-Written c)
    ∙ rw (unescape_from-escape s t h.1) (put_before-append (c ∷ []) s (unescape_from plain t))

-- QueryUnescape reads back what QueryEscape writes.
pub unescape-escape : (s : Str) → Bytes s → unescape (escape s) ≡ some s
unfolding unescape
unescape-escape s h =
    ap (unescape_from plain) (sym (append-nil (escape s)))
    ∙ unescape_from-escape s [] h
    ∙ unfold put_before unescape_from in ap some (append-nil s)

escape-Escaped : (s : Str) → Bytes s → All Escaped (escape s)
unfolding escape
escape-Escaped [] h = tt
escape-Escaped (c ∷ s) h =
    All-append Escaped (escape_byte c) (escape s)
      (Written-Escaped c (escape_byte c) h.0 (escape_byte-Written c)) (escape-Escaped s h.1)

has_byte-Free : (b : ℕ) (s : Str) → Free b s → has_byte b s ≡ false
unfolding has_byte
has_byte-Free b [] h = refl
has_byte-Free b (c ∷ s) h = ground (arith, h.0, has_byte-Free b s h.1, nat_eq.eqb_iff c b)

-- A pair of byte strings.
abbrev pub BytePair : Str × Str → Type 0
BytePair pair = Bytes pair.0 × Bytes pair.1

-- The text of a pair keeps to bytes that stand in no text of QueryEscape, but for its '='.
encode_pair-Free :
    (b : ℕ) (pair : Str × Str)
    → BytePair pair
    → ((c : ℕ) → Escaped c → c ≢ b)
    → b ≢ b'='
    → Free b (encode_pair pair)
unfolding encode_pair
encode_pair-Free b (k, v) h apart other =
    All-append (λ x. x ≢ b) (escape k) (b'=' ∷ escape v)
      (All-imp Escaped (λ x. x ≢ b) (escape k) apart (escape-Escaped k h.0))
      (λ e. other (sym e), All-imp Escaped (λ x. x ≢ b) (escape v) apart (escape-Escaped v h.1))

parse_pair-encode_pair :
    (pair : Str × Str) → BytePair pair → parse_pair (encode_pair pair) ≡ some pair
unfolding parse_pair pair_of
parse_pair-encode_pair (k, v) h =
    let no_semicolon : has_byte b';' (encode_pair (k, v)) ≡ false =
      has_byte-Free b';' (encode_pair (k, v))
        (encode_pair-Free b';' (k, v) h (λ c e. e.2) (λ e. ground (arith, e))) in
    let parts : cut b'=' (encode_pair (k, v)) ≡ (escape k, escape v) =
      unfold encode_pair in
      cut-append b'=' (escape k) (escape v)
        (All-imp Escaped (λ x. x ≢ b'=') (escape k) (λ c e. e.1) (escape-Escaped k h.0)) in
    rw (no_semicolon, parts, unescape-escape k h.0, unescape-escape v h.1) refl

is_empty-encode_pair : (pair : Str × Str) → is_empty (encode_pair pair) ≡ false
unfolding encode_pair
is_empty-encode_pair (k, v) = starts (escape k)
  where
    starts : (s : Str) → is_empty (s ++ b'=' ∷ escape v) ≡ false
    starts [] = refl
    starts (c ∷ s) = refl

parse_segments-map :
    (values : Values) → All BytePair values → parse_segments (map encode_pair values) ≡ some values
unfolding parse_segments add_pair
parse_segments-map [] h = refl
parse_segments-map (pair ∷ values) h =
    rw (is_empty-encode_pair pair, parse_pair-encode_pair pair h.0, parse_segments-map values h.1)
      refl

texts-Free : (values : Values) → All BytePair values → All (Free b'&') (map encode_pair values)
texts-Free [] h = tt
texts-Free (pair ∷ values) h =
    (encode_pair-Free b'&' pair h.0 (λ c e. e.0) (λ e. ground (arith, e)), texts-Free values h.1)

-- ParseQuery reads back the pairs that Encode writes, of which there is at least one.
pub parse_query-encode_values :
    (pair : Str × Str) (values : Values)
    → All BytePair (pair ∷ values)
    → parse_query (encode_values (pair ∷ values)) ≡ some (pair ∷ values)
unfolding parse_query encode_values
parse_query-encode_values pair values h =
    ap parse_segments
      (split-join b'&' (encode_pair pair) (map encode_pair values) (texts-Free (pair ∷ values) h))
    ∙ parse_segments-map (pair ∷ values) h

encode_pair-ascii : (pair : Str × Str) → BytePair pair → All (λ c. c < 128) (encode_pair pair)
unfolding encode_pair
encode_pair-ascii (k, v) h =
    All-append (λ c. c < 128) (escape k) (b'=' ∷ escape v)
      (All-imp Escaped (λ c. c < 128) (escape k) (λ c e. e.4) (escape-Escaped k h.0))
      (omega arith, All-imp Escaped (λ c. c < 128) (escape v) (λ c e. e.4) (escape-Escaped v h.1))

join-ascii :
    (values : Values)
    → All BytePair values
    → All (λ c. c < 128) (join b'&' (map encode_pair values))
unfolding join
join-ascii [] h = tt
join-ascii (pair ∷ []) h = encode_pair-ascii pair h.0
join-ascii (pair ∷ next ∷ values) h =
    All-append (λ c. c < 128) (encode_pair pair)
      (b'&' ∷ join b'&' (map encode_pair (next ∷ values))) (encode_pair-ascii pair h.0)
      (omega arith, join-ascii (next ∷ values) h.1)

-- A query is ASCII.
pub encode_values-ascii :
    (values : Values) → All BytePair values → All (λ c. c < 128) (encode_values values)
unfolding encode_values
encode_values-ascii values h = join-ascii values h
