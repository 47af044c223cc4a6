-- ===== src/Base/Lists.antt =====
-- Lists measured by native numbers, under the library's names.
use Prim.Native.Nat.{ℕ, zero, suc, ◌+◌}
use mathlib.Core.Path.{◌≡◌, refl, ap}
use mathlib.Core.List.{List, [], ◌∷◌, ◌++◌, map}
use mathlib.Core.Option.{Option, none, some}
use mathlib.Core.Bool.{Bool, true, ◌&&◌}
use native.Mathlib.Omega.{arith}

module _ {ℓ} {A : Type ℓ} where
  abbrev pub length : List A → ℕ
  length [] = 0
  length (x ∷ xs) = suc (length xs)

  abbrev pub get_elem? : List A → ℕ → Option A
  get_elem? [] i = none
  get_elem? (x ∷ xs) zero = some x
  get_elem? (x ∷ xs) (suc i) = get_elem? xs i

  pub length-append : (xs ys : List A) → length (xs ++ ys) ≡ length xs + length ys
  length-append [] ys = omega arith
  length-append (x ∷ xs) ys = omega (arith, length-append xs ys)

module _ {ℓ} {A : Type ℓ} where
  abbrev pub take : ℕ → List A → List A
  take zero xs = []
  take (suc n) [] = []
  take (suc n) (x ∷ xs) = x ∷ take n xs

  abbrev pub drop : ℕ → List A → List A
  drop zero xs = xs
  drop (suc n) [] = []
  drop (suc n) (x ∷ xs) = drop n xs

  pub length-map {κ} : {B : Type κ} (xs : List A) (f : A → B) → length (map f xs) ≡ length xs
  length-map [] f = refl
  length-map (x ∷ xs) f = ap suc (length-map xs f)

-- A predicate on every element; it computes to a tuple.
abbrev pub All {ℓ κ} : {A : Type ℓ} → (A → Type κ) → List A → Type κ
All P [] = Unit
All P (x ∷ xs) = P x × All P xs

pub All-append {ℓ κ} :
    {A : Type ℓ} (P : A → Type κ) (s t : List A) → All P s → All P t → All P (s ++ t)
All-append P [] t a b = b
All-append P (x ∷ s) t a b = (a.0, All-append P s t a.1 b)

pub All-take {ℓ κ} : {A : Type ℓ} (P : A → Type κ) (n : ℕ) (s : List A) → All P s → All P (take n s)
All-take P zero s a = tt
All-take P (suc n) [] a = tt
All-take P (suc n) (x ∷ s) a = (a.0, All-take P n s a.1)

pub All-drop {ℓ κ} : {A : Type ℓ} (P : A → Type κ) (n : ℕ) (s : List A) → All P s → All P (drop n s)
All-drop P zero s a = a
All-drop P (suc n) [] a = tt
All-drop P (suc n) (x ∷ s) a = All-drop P n s a.1

pub take-append-drop {ℓ} : {A : Type ℓ} (n : ℕ) (s : List A) → take n s ++ drop n s ≡ s
take-append-drop zero s = refl
take-append-drop (suc n) [] = refl
take-append-drop (suc n) (x ∷ s) = ap (◌∷◌ x) (take-append-drop n s)

pub All-imp {ℓ κ μ} :
    {A : Type ℓ} (P : A → Type κ) (Q : A → Type μ) (s : List A)
    → ((x : A) → P x → Q x)
    → All P s
    → All Q s
All-imp P Q [] f a = tt
All-imp P Q (x ∷ s) f a = (f x a.0, All-imp P Q s f a.1)

-- A test of every element, and what it shows.
abbrev pub every {ℓ} : {A : Type ℓ} → (A → Bool) → List A → Bool
every t [] = true
every t (x ∷ s) = t x && every t s

pub All-of_every {ℓ κ} :
    {A : Type ℓ} (P : A → Type κ) (t : A → Bool) (s : List A)
    → ((x : A) → t x ≡ true → P x)
    → every t s ≡ true
    → All P s
All-of_every P t [] f h = tt
All-of_every P t (x ∷ s) f h = (f x (ground (arith, h)), All-of_every P t s f (ground (arith, h)))

-- A prefix of known length.
pub take-prefix {ℓ} : {A : Type ℓ} (n : ℕ) (s t : List A) → length s ≡ n → take n (s ++ t) ≡ s
take-prefix zero [] t e = refl
take-prefix zero (x ∷ s) t e = absurd (omega arith)
take-prefix (suc n) [] t e = absurd (omega arith)
take-prefix (suc n) (x ∷ s) t e = ap (◌∷◌ x) (take-prefix n s t (omega arith))

pub drop-prefix {ℓ} : {A : Type ℓ} (n : ℕ) (s t : List A) → length s ≡ n → drop n (s ++ t) ≡ t
drop-prefix zero [] t e = refl
drop-prefix zero (x ∷ s) t e = absurd (omega arith)
drop-prefix (suc n) [] t e = absurd (omega arith)
drop-prefix (suc n) (x ∷ s) t e = drop-prefix n s t (omega arith)
