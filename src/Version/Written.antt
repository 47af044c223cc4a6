-- ===== src/Version/Written.antt =====
-- internal/version/version.go: `isNewer` on versions written as numbers with dots, and a suffix.
use mathlib.Core.Path.{◌≡◌, refl, sym, ◌∙◌, ap}
use mathlib.Core.List.{append-nil}
use mathlib.Core.Logic.{◌↔◌}
use opencom.Base.{
  ℕ, suc, ◌+◌, ◌-◌, ◌*◌, ◌^◌, ◌<◌, ◌≢◌, true, false, some, List, [], ◌∷◌, ◌++◌, map, Str, str_eq,
  nat_eq, ◌==◌, arith, All, All-append, All-imp, is_space, leb, ◌&&◌, lt→ltb,
}
use opencom.Base.Text.{Free}
use opencom.Base.Decimal.{
  format_nat, is_digit, Digits, digits-Digits, read_digits, read_digits-digits,
}
use opencom.Version.{before, split_dots, skip_space, digits, scan_int, split_version, is_newer}
use opencom.Version.Order.{Newer, is_newer-Newer}

-- A pre-release or build suffix, or none.
pub data Suffix : Type 0 where
  released : Suffix
  pre_release build : Str → Suffix

abbrev pub suffix_text : Suffix → Str
suffix_text released = []
suffix_text (pre_release s) = b'-' ∷ s
suffix_text (build s) = b'+' ∷ s

-- "1.20.3".
unfoldable pub dotted : ℕ → List ℕ → Str
dotted x [] = format_nat x
dotted x (y ∷ xs) = format_nat x ++ b'.' ∷ dotted y xs

abbrev pub version_text : ℕ → List ℕ → Suffix → Str
version_text x xs s = dotted x xs ++ suffix_text s

-- The digits and dots of a version.
abbrev Plain : Str → Type 0
Plain s = All (λ c. (c ≢ b'-') × (c ≢ b'+')) s

format_nat-Digits : (n : ℕ) → Digits (format_nat n)
unfolding format_nat
format_nat-Digits n = digits-Digits (suc n) n

digits_are-Plain : (n : ℕ) → Plain (format_nat n)
digits_are-Plain n =
    All-imp (λ c. is_digit c ≡ true) (λ c. (c ≢ b'-') × (c ≢ b'+')) (format_nat n)
      (λ c d. ((λ e. ground (arith, d, e)), λ e. ground (arith, d, e))) (format_nat-Digits n)

dotted-Plain : (x : ℕ) (xs : List ℕ) → Plain (dotted x xs)
unfolding dotted
dotted-Plain x [] = digits_are-Plain x
dotted-Plain x (y ∷ xs) =
    All-append (λ c. (c ≢ b'-') × (c ≢ b'+')) (format_nat x) (b'.' ∷ dotted y xs)
      (digits_are-Plain x) (((λ e. ground (arith, e)), λ e. ground (arith, e)), dotted-Plain y xs)

not_equal : (c k : ℕ) → c ≢ k → (c == k) ≡ false
not_equal c k h = ground (arith, h, nat_eq.eqb_iff c k)

before-append : (sep : ℕ) (s t : Str) → Free sep s → before sep (s ++ t) ≡ s ++ before sep t
unfolding before
before-append sep [] t f = refl
before-append sep (c ∷ s) t f = ground (arith, f.0, before-append sep s t f.1, nat_eq.eqb_iff c sep)

-- Nothing of the suffix is left.
cut_suffix : (s : Str) (t : Suffix) → Plain s → before b'+' (before b'-' (s ++ suffix_text t)) ≡ s
unfolding before
cut_suffix s t p =
    let no_minus : Free b'-' s =
      All-imp (λ c. (c ≢ b'-') × (c ≢ b'+')) (λ c. c ≢ b'-') s (λ c h. h.0) p in
    let no_plus : Free b'+' s =
      All-imp (λ c. (c ≢ b'-') × (c ≢ b'+')) (λ c. c ≢ b'+') s (λ c h. h.1) p in
    ap (before b'+') (before-append b'-' s (suffix_text t) no_minus)
    ∙ before-append b'+' s (before b'-' (suffix_text t)) no_plus
    ∙ ap (λ u. s ++ u) (nothing t)
    ∙ append-nil s
  where
    nothing : (t : Suffix) → before b'+' (before b'-' (suffix_text t)) ≡ []
    nothing released = refl
    nothing (pre_release u) = refl
    nothing (build u) = refl

split_dots-Free : (s : Str) → Free b'.' s → split_dots s ≡ s ∷ []
unfolding split_dots
split_dots-Free [] f = refl
split_dots-Free (c ∷ s) f = rw (not_equal c b'.' f.0, split_dots-Free s f.1) refl

split_dots-append : (s t : Str) → Free b'.' s → split_dots (s ++ b'.' ∷ t) ≡ s ∷ split_dots t
unfolding split_dots
split_dots-append [] t f = refl
split_dots-append (c ∷ s) t f = rw (not_equal c b'.' f.0, split_dots-append s t f.1) refl

format_nat-Free : (n : ℕ) → Free b'.' (format_nat n)
format_nat-Free n =
    All-imp (λ c. is_digit c ≡ true) (λ c. c ≢ b'.') (format_nat n) (λ c d e. ground (arith, d, e))
      (format_nat-Digits n)

split_dots-dotted :
    (x : ℕ) (xs : List ℕ) → split_dots (dotted x xs) ≡ format_nat x ∷ map format_nat xs
unfolding dotted
split_dots-dotted x [] = split_dots-Free (format_nat x) (format_nat-Free x)
split_dots-dotted x (y ∷ xs) =
    split_dots-append (format_nat x) (dotted y xs) (format_nat-Free x)
    ∙ ap (λ l. format_nat x ∷ l) (split_dots-dotted y xs)

skip_space-Digits : (s : Str) → Digits s → skip_space s ≡ s
unfolding skip_space is_space
skip_space-Digits [] d = refl
skip_space-Digits (c ∷ s) d = ground (arith, d.0)

-- The two readers of digits agree.
digits-read_digits :
    (s : Str) (acc v : ℕ) → Digits s → read_digits acc s ≡ some v → digits acc s ≡ v
unfolding digits read_digits
digits-read_digits [] acc v d h = cc
digits-read_digits (c ∷ s) acc v d h =
    let both : (leb b'0' c && leb c b'9') ≡ true = d.0 in
    rw both (
      ap (λ n. digits (n + (c - b'0')) s) (omega arith)
      ∙ digits-read_digits s (acc * 10 + (c - b'0')) v d.1 (sym (rw both refl) ∙ h))

scan_int-format_nat : (n : ℕ) → n < 2 ^ 63 → scan_int (format_nat n) ≡ n
unfolding scan_int
scan_int-format_nat n h =
    let read : digits 0 (skip_space (format_nat n)) ≡ n =
      ap (digits 0) (skip_space-Digits (format_nat n) (format_nat-Digits n))
      ∙ digits-read_digits (format_nat n) 0 n (format_nat-Digits n)
          (unfold format_nat in read_digits-digits (suc n) n (omega arith)) in
    rw (read, lt→ltb n (2 ^ 63) h) refl

scan_all : (xs : List ℕ) → All (λ x. x < 2 ^ 63) xs → map scan_int (map format_nat xs) ≡ xs
scan_all [] h = refl
scan_all (x ∷ xs) h = rw (scan_int-format_nat x h.0, scan_all xs h.1) refl

split_version-version_text :
    (x : ℕ) (xs : List ℕ) (s : Suffix)
    → All (λ n. n < 2 ^ 63) (x ∷ xs)
    → split_version (version_text x xs s) ≡ x ∷ xs
unfolding split_version
split_version-version_text x xs s h =
    ap (λ t. map scan_int (split_dots t)) (cut_suffix (dotted x xs) s (dotted-Plain x xs))
    ∙ ap (map scan_int) (split_dots-dotted x xs)
    ∙ scan_all (x ∷ xs) h

-- isNewer on two versions that are numbers below 2^63 with dots between them, each with a pre-release
-- suffix after a minus sign, a build suffix after a plus sign, or none: it says true exactly when, at the
-- first place where the numbers of the two differ, the first version has the greater one, where a version
-- that is shorter is read as if zeros followed. The suffixes make no difference.
pub is_newer-version_text :
    (x y : ℕ) (xs ys : List ℕ) (s t : Suffix)
    → All (λ n. n < 2 ^ 63) (x ∷ xs)
    → All (λ n. n < 2 ^ 63) (y ∷ ys)
    → (is_newer (version_text x xs s) (version_text y ys t) ≡ true) ↔ Newer (x ∷ xs) (y ∷ ys)
is_newer-version_text x y xs ys s t hx hy =
    rw⁻¹ (split_version-version_text x xs s hx, split_version-version_text y ys t hy)
      (is_newer-Newer (version_text x xs s) (version_text y ys t))
