-- ===== src/Invite/Code/Generate.antt =====
-- internal/invite/code.go: what `Generate` writes.
use mathlib.Core.Path.{◌≡◌, refl, sym, ◌∙◌, ap}
use opencom.Base.{
  ℕ, suc, ◌-◌, ◌*◌, ◌/◌, ◌%◌, ◌^◌, ◌<◌, Bool, true, ◌&&◌, List, [], ◌∷◌, if◌then◌else◌, ◌==◌,
  nat_eq, arith, get_elem?,
}
use opencom.Invite.Code.Alphabet.{InAlphabet, IsCode, passes, passes_at}
use opencom.Invite.Code.{
  code_char, random_bits, or_zero, Code, crockford_alphabet, contains_rune, generate,
}

-- The position of a character in the alphabet.
index_in : List ℕ → ℕ → ℕ
index_in [] r = 0
index_in (c ∷ l) r = let rest = suc (index_in l r) in if c == r then 0 else rest

abbrev digit_ok : ℕ → Bool
digit_ok i =
    let c = or_zero (get_elem? crockford_alphabet i) in
    contains_rune crockford_alphabet c && index_in crockford_alphabet c == i

digit_table : passes digit_ok 0 32 ≡ true
unfolding passes contains_rune index_in
digit_table = refl

digit_facts :
    (i : ℕ)
    → digit_ok i ≡ true
    → InAlphabet (or_zero (get_elem? crockford_alphabet i))
      × (index_in crockford_alphabet (or_zero (get_elem? crockford_alphabet i)) ≡ i)
digit_facts i e = (ground arith, ground arith)

code_char_lem :
    (bits i : ℕ)
    → InAlphabet (code_char bits i)
      × (index_in crockford_alphabet (code_char bits i) ≡ bits / 2 ^ (35 - 5 * i) % 32)
unfolding code_char
code_char_lem bits i =
    let d = bits / 2 ^ (35 - 5 * i) % 32 in
    digit_facts d (passes_at digit_ok 0 32 d (omega arith) (omega arith) digit_table)

-- The code that `Generate` writes is canonical.
pub generate-IsCode : (b0 b1 b2 b3 b4 : ℕ) → IsCode (generate b0 b1 b2 b3 b4)
unfolding generate
generate-IsCode b0 b1 b2 b3 b4 =
    let bits = random_bits b0 b1 b2 b3 b4 in
    let char : (i : ℕ) → InAlphabet (code_char bits i) = λ i. (code_char_lem bits i).0 in
    record {
      eight = refl;
      chars = (char 0, (char 1, (char 2, (char 3, (char 4, (char 5, (char 6, (char 7, tt))))))));
    }

same_digit :
    (x y i : ℕ)
    → code_char x i ≡ code_char y i
    → x / 2 ^ (35 - 5 * i) % 32 ≡ y / 2 ^ (35 - 5 * i) % 32
same_digit x y i e =
    sym (code_char_lem x i).1 ∙ ap (index_in crockford_alphabet) e ∙ (code_char_lem y i).1

-- Two numbers below 2 ^ 40 with the same eight digits are equal.
abbrev SameDigit : ℕ → ℕ → ℕ → Type 0
SameDigit x y low = x / low % 32 ≡ y / low % 32

next_place :
    (x y low high : ℕ)
    → x / low / 32 ≡ x / high
    → y / low / 32 ≡ y / high
    → x / high ≡ y / high
    → SameDigit x y low
    → x / low ≡ y / low
next_place x y low high ex ey above digit = omega arith

same_bits :
    (x y : ℕ)
    → x < 2 ^ 40
    → y < 2 ^ 40
    → SameDigit x y (2 ^ 35)
    → SameDigit x y (2 ^ 30)
    → SameDigit x y (2 ^ 25)
    → SameDigit x y (2 ^ 20)
    → SameDigit x y (2 ^ 15)
    → SameDigit x y (2 ^ 10)
    → SameDigit x y (2 ^ 5)
    → SameDigit x y 1
    → x ≡ y
same_bits x y bx by d0 d1 d2 d3 d4 d5 d6 d7 =
    let q0 : x / 2 ^ 35 ≡ y / 2 ^ 35 = omega arith in
    let q1 = next_place x y (2 ^ 30) (2 ^ 35) (omega arith) (omega arith) q0 d1 in
    let q2 = next_place x y (2 ^ 25) (2 ^ 30) (omega arith) (omega arith) q1 d2 in
    let q3 = next_place x y (2 ^ 20) (2 ^ 25) (omega arith) (omega arith) q2 d3 in
    let q4 = next_place x y (2 ^ 15) (2 ^ 20) (omega arith) (omega arith) q3 d4 in
    let q5 = next_place x y (2 ^ 10) (2 ^ 15) (omega arith) (omega arith) q4 d5 in
    let q6 = next_place x y (2 ^ 5) (2 ^ 10) (omega arith) (omega arith) q5 d6 in
    let q7 : x / 1 ≡ y / 1 = next_place x y 1 (2 ^ 5) (omega arith) (omega arith) q6 d7 in
    omega arith

same_bytes :
    (b0 b1 b2 b3 b4 c0 c1 c2 c3 c4 : ℕ)
    → b0 < 256
    → b1 < 256
    → b2 < 256
    → b3 < 256
    → b4 < 256
    → c0 < 256
    → c1 < 256
    → c2 < 256
    → c3 < 256
    → c4 < 256
    → random_bits b0 b1 b2 b3 b4 ≡ random_bits c0 c1 c2 c3 c4
    → (b0 ∷ b1 ∷ b2 ∷ b3 ∷ b4 ∷ []) ≡ (c0 ∷ c1 ∷ c2 ∷ c3 ∷ c4 ∷ [])
unfolding random_bits
same_bytes b0 b1 b2 b3 b4 c0 c1 c2 c3 c4 p0 p1 p2 p3 p4 q0 q1 q2 q3 q4 e =
    let e0 : b0 ≡ c0 = omega arith in
    let e1 : b1 ≡ c1 = omega arith in
    let e2 : b2 ≡ c2 = omega arith in
    let e3 : b3 ≡ c3 = omega arith in let e4 : b4 ≡ c4 = omega arith in cc

char_at : ℕ → Code → ℕ
char_at i c = or_zero (get_elem? c i)

-- The eight characters determine the five bytes: two draws of random bytes that differ give
-- different codes.
pub generate_inj :
    (b0 b1 b2 b3 b4 c0 c1 c2 c3 c4 : ℕ)
    → b0 < 256
    → b1 < 256
    → b2 < 256
    → b3 < 256
    → b4 < 256
    → c0 < 256
    → c1 < 256
    → c2 < 256
    → c3 < 256
    → c4 < 256
    → generate b0 b1 b2 b3 b4 ≡ generate c0 c1 c2 c3 c4
    → (b0 ∷ b1 ∷ b2 ∷ b3 ∷ b4 ∷ []) ≡ (c0 ∷ c1 ∷ c2 ∷ c3 ∷ c4 ∷ [])
unfolding generate char_at random_bits
generate_inj b0 b1 b2 b3 b4 c0 c1 c2 c3 c4 p0 p1 p2 p3 p4 q0 q1 q2 q3 q4 e =
    let x = random_bits b0 b1 b2 b3 b4 in
    let y = random_bits c0 c1 c2 c3 c4 in
    same_bytes b0 b1 b2 b3 b4 c0 c1 c2 c3 c4 p0 p1 p2 p3 p4 q0 q1 q2 q3 q4 (
      same_bits x y (omega arith) (omega arith) (same_digit x y 0 (ap (char_at 0) e))
        (same_digit x y 1 (ap (char_at 1) e)) (same_digit x y 2 (ap (char_at 2) e))
        (same_digit x y 3 (ap (char_at 3) e)) (same_digit x y 4 (ap (char_at 4) e))
        (same_digit x y 5 (ap (char_at 5) e)) (same_digit x y 6 (ap (char_at 6) e))
        (same_digit x y 7 (ap (char_at 7) e)))
