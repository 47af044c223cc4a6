-- ===== src/Base/Text.antt =====
-- Go's strings.Join, strings.Split and strings.Cut with a separator of one byte.
use Prim.Native.Nat.{ℕ}
use mathlib.Core.Path.{◌≡◌, refl, ◌∙◌, ap}
use mathlib.Core.Logic.{◌≢◌}
use mathlib.Core.Bool.{Bool, true, false, ◌&&◌, ◌||◌}
use mathlib.Core.List.{List, [], ◌∷◌, ◌++◌}
use native.Mathlib.Omega.{arith}
use opencom.Base.Tests.{Str, if◌then◌else◌, ◌==◌, nat_eq}
use opencom.Base.Lists.{All}

unfoldable pub join : ℕ → List Str → Str
join sep [] = []
join sep (part ∷ []) = part
join sep (part ∷ next ∷ parts) = part ++ sep ∷ join sep (next ∷ parts)

unfoldable pub cons_head : ℕ → List Str → List Str
cons_head c [] = (c ∷ []) ∷ []
cons_head c (part ∷ parts) = (c ∷ part) ∷ parts

unfoldable pub split : ℕ → Str → List Str
split sep [] = [] ∷ []
split sep (c ∷ s) = let rest = split sep s in if c == sep then [] ∷ rest else cons_head c rest

unfoldable pub cons_before : ℕ → Str × Str → Str × Str
cons_before c (before, after) = (c ∷ before, after)

-- What stands before and after the first separator.
unfoldable pub cut : ℕ → Str → Str × Str
cut sep [] = ([], [])
cut sep (c ∷ s) = let rest = cut sep s in if c == sep then ([], s) else cons_before c rest

-- strings.HasPrefix and strings.Contains.
unfoldable pub has_prefix : Str → Str → Bool
has_prefix s [] = true
has_prefix [] (p ∷ ps) = false
has_prefix (c ∷ s) (p ∷ ps) = c == p && has_prefix s ps

unfoldable pub contains : Str → Str → Bool
contains [] text = has_prefix [] text
contains (c ∷ s) text = has_prefix (c ∷ s) text || contains s text

-- The byte stands nowhere in the string.
abbrev pub Free : ℕ → Str → Type 0
Free c s = All (λ x. x ≢ c) s

other_byte : (c sep : ℕ) → c ≢ sep → (c == sep) ≡ false
other_byte c sep h = ground (arith, nat_eq.eqb_iff c sep)

same_byte : (c : ℕ) → (c == c) ≡ true
same_byte c = ground (arith, nat_eq.eqb_iff c c)

module _ (sep : ℕ) where
  pub split-append : (s t : Str) → Free sep s → split sep (s ++ sep ∷ t) ≡ s ∷ split sep t
  unfolding split cons_head
  split-append [] t h = rw (same_byte sep) refl
  split-append (c ∷ s) t h = rw (other_byte c sep h.0, split-append s t h.1) refl

  pub split-Free : (s : Str) → Free sep s → split sep s ≡ s ∷ []
  unfolding split cons_head
  split-Free [] h = refl
  split-Free (c ∷ s) h = rw (other_byte c sep h.0, split-Free s h.1) refl

  -- Splitting takes apart what Join put together, if there is a part and no part has the separator.
  pub split-join :
      (part : Str) (parts : List Str)
      → All (Free sep) (part ∷ parts)
      → split sep (join sep (part ∷ parts)) ≡ part ∷ parts
  unfolding join
  split-join part [] h = split-Free part h.0
  split-join part (next ∷ parts) h =
      split-append part (join sep (next ∷ parts)) h.0 ∙ ap (◌∷◌ part) (split-join next parts h.1)

  pub cut-append : (s t : Str) → Free sep s → cut sep (s ++ sep ∷ t) ≡ (s, t)
  unfolding cut cons_before
  cut-append [] t h = rw (same_byte sep) refl
  cut-append (c ∷ s) t h = rw (other_byte c sep h.0, cut-append s t h.1) refl

unfoldable pub program : Unit {0}
unfolding join cons_head split cons_before cut has_prefix contains
program = tt
