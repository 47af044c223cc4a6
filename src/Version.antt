-- ===== src/Version.antt =====
-- internal/version/version.go: is there a newer release. A version is the list of its runes; time
-- and the repository's name are data of the cache.
pub mod Order
pub mod Written
pub mod Checker
pub mod Polled
mod Tests
use opencom.Base.{
  ℕ, zero, suc, ◌+◌, ◌-◌, ◌*◌, ◌^◌, Bool, true, false, not, ◌&&◌, ◌||◌, List, [], ◌∷◌, ◌++◌, map,
  codes, if◌then◌else◌, ltb, leb, nat_beq, nat_eq, str_eq, ◌==◌, Str, is_space,
}

pub record Cache : Type 0 where
  pub latest : Str
  pub fetched_at : ℕ
  pub repo : Str

pub record Result : Type 0 where
  pub current : Str
  pub latest : Str
  pub upgrade_available : Bool
  pub fetched_at : ℕ

-- strings.SplitN(v, sep, 2)[0].
unfoldable pub before : ℕ → Str → Str
before sep [] = []
before sep (r ∷ v) = let rest = before sep v in if r == sep then [] else r ∷ rest

-- strings.Split(v, "."): the part that ends at the next dot, and the parts behind it.
abbrev pub grow : ℕ → List Str → List Str
grow r [] = (r ∷ []) ∷ []
grow r (p ∷ parts) = (r ∷ p) ∷ parts

unfoldable pub split_dots : Str → List Str
split_dots [] = [] ∷ []
split_dots (r ∷ v) = let rest = split_dots v in if r == b'.' then [] ∷ rest else grow r rest

unfoldable pub skip_space : Str → Str
skip_space [] = []
skip_space (r ∷ p) = let rest = skip_space p in if is_space r && not (r == 10) then rest else r ∷ p

-- The digits at the front, read in base ten after `n`.
unfoldable pub digits : ℕ → Str → ℕ
digits n [] = n
digits n (r ∷ p) =
    let rest = digits (10 * n + (r - b'0')) p in if leb b'0' r && leb r b'9' then rest else n

-- fmt.Sscanf(p, "%d", &n) for an `int` of 64 bits and a part without a sign: `n` stays 0 when there
-- is no digit and when the number is out of range.
unfoldable pub scan_int : Str → ℕ
scan_int p = let n = digits 0 (skip_space p) in if ltb n (2 ^ 63) then n else 0

unfoldable pub split_version : Str → List ℕ
split_version v = map scan_int (split_dots (before b'+' (before b'-' v)))

-- The loop of `isNewer`, from the segment that both lists begin with; a missing one counts as 0.
unfoldable pub newer_from : List ℕ → List ℕ → Bool
newer_from [] [] = false
newer_from [] (bv ∷ ys) =
    let rest = newer_from [] ys in if not (nat_beq 0 bv) then ltb bv 0 else rest
newer_from (av ∷ xs) [] =
    let rest = newer_from xs [] in if not (nat_beq av 0) then ltb 0 av else rest
newer_from (av ∷ xs) (bv ∷ ys) =
    let rest = newer_from xs ys in if not (nat_beq av bv) then ltb bv av else rest

unfoldable pub is_newer : Str → Str → Bool
is_newer a b = newer_from (split_version a) (split_version b)

-- strings.TrimPrefix(v, "v").
unfoldable pub trim_v : Str → Str
trim_v [] = []
trim_v (r ∷ v) = if r == b'v' then v else r ∷ v

unfoldable pub compare_version : Str → Cache → Result
compare_version current_version cache =
    let current = trim_v current_version in
    let newer = is_newer cache.latest current in
    record {
      current = current;
      latest = cache.latest;
      upgrade_available =
          if current == [] || current == codes "dev" || cache.latest == [] then false else newer;
      fetched_at = cache.fetched_at;
    }

unfoldable pub program : Unit {0}
unfolding before split_dots skip_space digits scan_int split_version newer_from is_newer trim_v
    compare_version is_space
program = tt
