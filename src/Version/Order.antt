-- ===== src/Version/Order.antt =====
-- internal/version/version.go: `isNewer` is the lexicographic order of the zero-padded segments.
use mathlib.Core.Path.{◌≡◌, refl, sym, ◌∙◌, ap}
use mathlib.Core.Logic.{◌↔◌}
use opencom.Base.{
  ℕ, zero, suc, ◌≤◌, ◌<◌, true, false, List, [], ◌∷◌, ◌++◌, if◌then◌else◌, ltb, nat_eq, str_eq, Str,
  arith, lt→ltb, ◌⊎◌, Bool-cases, inl, inr,
}
use opencom.Version.{before, split_version, newer_from, is_newer}

-- The segment at a place, 0 where there is none.
abbrev pub segment : ℕ → List ℕ → ℕ
segment i [] = 0
segment zero (n ∷ l) = n
segment (suc i) (n ∷ l) = segment i l

-- The first segments that differ are in the order `ys < as`.
pub record Newer (xs ys : List ℕ) : Type 0 where
  pub place : ℕ
  pub above : segment place ys < segment place xs
  pub same : (i : ℕ) → i < place → segment i xs ≡ segment i ys

abbrev tail : List ℕ → List ℕ
tail [] = []
tail (n ∷ l) = l

segment-tail : (i : ℕ) (l : List ℕ) → segment i (tail l) ≡ segment (suc i) l
segment-tail i [] = refl
segment-tail i (n ∷ l) = refl

newer_from_cons :
    (xs ys : List ℕ)
    → newer_from xs ys ≡ (
        if ltb (segment 0 ys) (segment 0 xs)
        then true
        else (if ltb (segment 0 xs) (segment 0 ys) then false else newer_from (tail xs) (tail ys)))
unfolding newer_from
newer_from_cons [] [] = refl
newer_from_cons [] (b ∷ ys) = ground arith
newer_from_cons (a ∷ xs) [] = ground arith
newer_from_cons (a ∷ xs) (b ∷ ys) = ground arith

same_suc :
    (xs ys : List ℕ) (p : ℕ)
    → segment 0 xs ≡ segment 0 ys
    → ((i : ℕ) → i < p → segment i (tail xs) ≡ segment i (tail ys))
    → (i : ℕ) → i < suc p
    → segment i xs ≡ segment i ys
same_suc xs ys p head rest zero below = head
same_suc xs ys p head rest (suc i) below =
    sym (segment-tail i xs) ∙ rest i (omega arith) ∙ segment-tail i ys

Newer-cons :
    (xs ys : List ℕ) → segment 0 xs ≡ segment 0 ys → Newer (tail xs) (tail ys) → Newer xs ys
Newer-cons xs ys head n =
    let ey = segment-tail n.place ys in
    let ex = segment-tail n.place xs in
    record {
      place = suc n.place;
      above = omega (arith, n.above, ex, ey);
      same = same_suc xs ys n.place head n.same;
    }

Newer-step :
    (xs ys : List ℕ)
    → newer_from xs ys ≡ true
    → (newer_from (tail xs) (tail ys) ≡ true → Newer (tail xs) (tail ys))
    → Newer xs ys
Newer-step xs ys h later = elim (Bool-cases (ltb (segment 0 ys) (segment 0 xs))) [
  | inl lt ↦ record { place = 0; above = ground arith; same = λ i below. absurd (omega arith) }
  | inr ge ↦
      let cases = sym (newer_from_cons xs ys) ∙ h in
      Newer-cons xs ys (ground (arith, cases)) (later (ground (arith, cases)))
]

newer_from-Newer : (xs ys : List ℕ) → newer_from xs ys ≡ true → Newer xs ys
newer_from-Newer [] [] h = absurd (unfold newer_from in (ground arith))
newer_from-Newer [] (y ∷ ys) h = Newer-step [] (y ∷ ys) h (newer_from-Newer [] ys)
newer_from-Newer (x ∷ xs) [] h = Newer-step (x ∷ xs) [] h (newer_from-Newer xs [])
newer_from-Newer (x ∷ xs) (y ∷ ys) h = Newer-step (x ∷ xs) (y ∷ ys) h (newer_from-Newer xs ys)

Newer-back :
    (xs ys : List ℕ) (p : ℕ)
    → segment p ys < segment p xs
    → ((i : ℕ) → i < p → segment i xs ≡ segment i ys)
    → (Newer (tail xs) (tail ys) → newer_from (tail xs) (tail ys) ≡ true)
    → newer_from xs ys ≡ true
Newer-back xs ys zero above same later =
    rw (newer_from_cons xs ys, lt→ltb (segment 0 ys) (segment 0 xs) above) refl
Newer-back xs ys (suc p) above same later =
    let head : segment 0 xs ≡ segment 0 ys = same 0 (omega arith) in
    let rest : newer_from (tail xs) (tail ys) ≡ true = later (record {
      place = p;
      above = omega (arith, above, segment-tail p xs, segment-tail p ys);
      same = λ i below. segment-tail i xs ∙ same (suc i) (omega arith) ∙ sym (segment-tail i ys);
    }) in
    newer_from_cons xs ys ∙ ground (arith, head, rest)

Newer-newer_from : (xs ys : List ℕ) → Newer xs ys → newer_from xs ys ≡ true
Newer-newer_from [] [] n = absurd (omega (arith, n.above))
Newer-newer_from [] (y ∷ ys) n =
    Newer-back [] (y ∷ ys) n.place n.above n.same (Newer-newer_from [] ys)
Newer-newer_from (x ∷ xs) [] n =
    Newer-back (x ∷ xs) [] n.place n.above n.same (Newer-newer_from xs [])
Newer-newer_from (x ∷ xs) (y ∷ ys) n =
    Newer-back (x ∷ xs) (y ∷ ys) n.place n.above n.same (Newer-newer_from xs ys)

-- In terms of the segments that splitVersion finds.
pub is_newer-Newer : (a b : Str) → (is_newer a b ≡ true) ↔ Newer (split_version a) (split_version b)
unfolding is_newer
is_newer-Newer a b = (
  newer_from-Newer (split_version a) (split_version b),
  Newer-newer_from (split_version a) (split_version b),
)

lower_place : (p q : ℕ) → (p < q) ⊎ ((p ≡ q) ⊎ (q < p))
lower_place p q = ground arith

Newer-trans : (xs ys zs : List ℕ) → Newer xs ys → Newer ys zs → Newer xs zs
Newer-trans xs ys zs m n = elim (lower_place m.place n.place) [
  | inl lt ↦ record {
    place = m.place;
    above = omega (arith, m.above, n.same m.place lt);
    same = λ i below. m.same i below ∙ n.same i (omega arith);
  }
  | inr (inl at_once) ↦
      let here : segment m.place zs < segment m.place ys =
        rw (ap (λ p. segment p zs) at_once, ap (λ p. segment p ys) at_once) n.above in
      record {
        place = m.place;
        above = omega (arith, m.above, here);
        same = λ i below. m.same i below ∙ n.same i (omega arith);
      }
  | inr (inr gt) ↦ record {
    place = n.place;
    above = omega (arith, n.above, m.same n.place gt);
    same = λ i below. m.same i (omega arith) ∙ n.same i below;
  }
]

Newer-irrefl : (xs ys : List ℕ) → Newer xs ys → Newer ys xs → 1 ≤ 0
Newer-irrefl xs ys m n =
    let round : Newer xs xs = Newer-trans xs ys xs m n in omega (arith, round.above)

-- `isNewer` is transitive, and never says that each of two versions is newer than the other: an
-- upgrade is never offered in a circle.
pub is_newer_order :
    (a b c : Str)
    → is_newer a b ≡ true
    → (is_newer b a ≡ false) × (is_newer b c ≡ true → is_newer a c ≡ true)
is_newer_order a b c h =
    let m = (is_newer-Newer a b).0 h in
    (
      elim (Bool-cases (is_newer b a)) [
        | inl back ↦ absurd (
            omega (
              arith,
              Newer-irrefl (split_version a) (split_version b) m ((is_newer-Newer b a).0 back),
            ))
        | inr none_back ↦ none_back
      ],
      λ next. (is_newer-Newer a c).1 (
          Newer-trans (split_version a) (split_version b) (split_version c) m
            ((is_newer-Newer b c).0 next)),
    )

before_suffix : (sep : ℕ) (v s : Str) → before sep (v ++ sep ∷ s) ≡ before sep v
unfolding before
before_suffix sep [] s = rw (nat_eq.eqb_iff sep sep).1 refl
before_suffix sep (r ∷ v) s = ground (arith, before_suffix sep v s)

-- A pre-release suffix changes no comparison.
pub is_newer_suffix :
    (a b s : Str)
    → (is_newer (a ++ b'-' ∷ s) b ≡ is_newer a b) × (is_newer a (b ++ b'-' ∷ s) ≡ is_newer a b)
unfolding is_newer split_version
is_newer_suffix a b s = (rw (before_suffix b'-' a s) refl, rw (before_suffix b'-' b s) refl)
