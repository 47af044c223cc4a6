-- ===== src/Invite/Code/Alphabet.antt =====
-- internal/invite/code.go: the characters of the Crockford alphabet and canonical codes.
use mathlib.Core.Path.{◌≡◌, refl}
use opencom.Base.{
  ◌+◌, Bool-cases, nat_beq, nat_beq_iff, inl, inr, ap, sym, ◌∙◌, is_space, ℕ, zero, suc, ◌≤◌, ◌<◌,
  Bool, true, false, not, ◌&&◌, ◌||◌, List, [], ◌∷◌, leb, ◌==◌, nat_eq, length, arith, All,
}
use opencom.Invite.Code.{Code, crockford_alphabet, contains_rune, alias}

abbrev pub InAlphabet : ℕ → Type 0
InAlphabet r = contains_rune crockford_alphabet r ≡ true

-- A canonical code: eight characters of the alphabet.
pub record IsCode (c : Code) : Type 0 where
  pub eight : length c ≡ 8
  pub chars : All InAlphabet c

-- A test that passes on the `count` numbers from `low` on.
unfoldable pub passes : (ℕ → Bool) → ℕ → ℕ → Bool
passes test low zero = true
passes test low (suc count) = test low && passes test (low + 1) count

pub passes_at :
    (test : ℕ → Bool) (low count r : ℕ)
    → low ≤ r
    → r < low + count
    → passes test low count ≡ true
    → test r ≡ true
unfolding passes
passes_at test low zero r from to all = absurd (omega arith)
passes_at test low (suc count) r from to all =
    let first : test low ≡ true = ground arith in
    let others : passes test (low + 1) count ≡ true = ground arith in
    elim (Bool-cases (nat_beq low r)) [
      | inl here ↦ ap test (sym ((nat_beq_iff low r).0 here)) ∙ first
      | inr later ↦ passes_at test (low + 1) count r (ground arith) (omega arith) others
    ]

pub contains_rune-le :
    (l : List ℕ) (r top : ℕ) → All (λ c. c ≤ top) l → contains_rune l r ≡ true → r ≤ top
unfolding contains_rune
contains_rune-le [] r top a h = cc
contains_rune-le (c ∷ l) r top a h = ground (arith, contains_rune-le l r top a.1)

-- What the code relies on of a character of the alphabet, checked for every ASCII rune.
abbrev plain : ℕ → Bool
plain r =
    not (contains_rune crockford_alphabet r)
    || (not (is_space r)
        && not (r == b'-')
        && not (r == b'U')
        && (alias r == r)
        && not (leb b'a' r && leb r b'z'))

plain_table : passes plain 0 128 ≡ true
unfolding passes contains_rune is_space
plain_table = refl

pub record Plain (r : ℕ) : Type 0 where
  pub ascii : r < 128
  pub not_space : is_space r ≡ false
  pub not_dash : (r == b'-') ≡ false
  pub not_u : (r == b'U') ≡ false
  pub canonical : alias r ≡ r
  pub not_lower : (leb b'a' r && leb r b'z') ≡ false

plain_facts : (r : ℕ) → r < 128 → InAlphabet r → plain r ≡ true → Plain r
plain_facts r below h e = record {
  ascii = below;
  not_space = ground arith;
  not_dash = ground arith;
  not_u = ground arith;
  canonical = ground arith;
  not_lower = ground arith;
}

pub Plain-of_InAlphabet : (r : ℕ) → InAlphabet r → Plain r
Plain-of_InAlphabet r h =
    let below : r ≤ 90 = contains_rune-le crockford_alphabet r 90 (omega arith) h in
    let facts : plain r ≡ true = passes_at plain 0 128 r (omega arith) (omega arith) plain_table in
    plain_facts r (omega arith) h facts
