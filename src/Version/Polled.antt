-- ===== src/Version/Polled.antt =====
-- internal/version/version.go and internal/app/daemon.go: what a client is told after the daemon has
-- polled for a while.
use mathlib.Core.Path.{◌≡◌, refl, sym, ◌∙◌, ap}
use mathlib.Core.Logic.{◌↔◌}
use opencom.Base.{
  ℕ, Bool, true, false, ◌||◌, List, [], ◌∷◌, ◌++◌, Str, str_eq, nat_eq, ◌==◌, codes, if◌then◌else◌,
  inl, inr, All, arith, ◌≢◌, Bool-cases,
}
use opencom.Version.{Cache, Result, trim_v, split_version, is_newer, compare_version}
use opencom.Version.Order.{Newer, is_newer-Newer}
use opencom.Version.Checker.{
  File, holds, undecodable, tagged, Reply, bad_request, no_response, response, decode_body, Round,
  fetch, write_cache, store_tag, refresh, run_version_checker, version_check, read_cache,
  cache_or_empty,
}

-- A round that brings the tag to the file, and one that does not.
pub record Fetched (tag : Str) (r : Round) : Type 0 where
  pub answer : r.reply ≡ response 200 (tagged tag)
  pub written : r.write_ok ≡ true

abbrev pub Failed : Round → Type 0
Failed r = (tag : Str) → ¬ Fetched tag r

-- A release that is newer than a released version.
pub record Upgrade (current tag : Str) : Type 0 where
  pub versioned : trim_v current ≢ []
  pub released : trim_v current ≢ codes "dev"
  pub known : trim_v tag ≢ []
  pub newer : Newer (split_version (trim_v tag)) (split_version (trim_v current))

-- What a client is told of it.
pub record Told (current tag : Str) (r : Round) (told : Result) : Type 0 where
  pub latest : told.latest ≡ trim_v tag
  pub fetched_at : told.fetched_at ≡ r.now
  pub upgrade : (told.upgrade_available ≡ true) ↔ Upgrade current tag

gate :
    (a b c n : Bool)
    → ((if a || b || c then false else n) ≡ true)
      ↔ ((a ≡ false) × (b ≡ false) × (c ≡ false) × (n ≡ true))
gate true b c n = ((λ h. cc), λ h. cc)
gate false true c n = ((λ h. cc), λ h. cc)
gate false false true n = ((λ h. cc), λ h. cc)
gate false false false n = ((λ h. (refl, refl, refl, h)), λ h. h.3)

differ : (s t : Str) → ((s == t) ≡ false) ↔ (s ≢ t)
differ s t = (
  λ h e. absurd (false_true (sym h ∙ (str_eq.eqb_iff s t).1 e)),
  λ n. elim (Bool-cases (s == t)) [
    | inl same ↦ absurd (n ((str_eq.eqb_iff s t).0 same))
    | inr other ↦ other
  ],
)
  where
    false_true : ¬ (false ≡ true)
    false_true h = cc

module _ (repo : Str) where
  abbrev pub entry : Str → Round → Cache
  entry tag r = record { latest = trim_v tag; fetched_at = r.now; repo = repo }

  refresh-Fetched :
      (tag : Str) (r : Round) (file : File)
      → Fetched tag r
      → (refresh repo r file).0 ≡ holds (entry tag r)
  unfolding refresh fetch store_tag write_cache decode_body
  refresh-Fetched tag r file f = rw (f.answer, f.written) refl

  unfetched :
      (reply : Reply) (now : ℕ) (ok : Bool) (file : File)
      → Failed (record { reply = reply; now = now; write_ok = ok })
      → (refresh repo (record { reply = reply; now = now; write_ok = ok }) file).0 ≡ file
  unfolding refresh fetch decode_body store_tag write_cache
  unfetched bad_request now ok file f = refl
  unfetched no_response now ok file f = refl
  unfetched (response status undecodable) now ok file f = ground arith
  unfetched (response status (tagged tag)) now false file f = ground arith
  unfetched (response status (tagged tag)) now true file f = elim (Bool-cases (status == 200)) [
    | inl is_ok ↦ absurd (
        f tag (record {
          answer = ap (λ n. response n (tagged tag)) ((nat_eq.eqb_iff status 200).0 is_ok);
          written = refl;
        }))
    | inr other ↦ rw other refl
  ]

  refresh-Failed : (r : Round) (file : File) → Failed r → (refresh repo r file).0 ≡ file
  refresh-Failed r file f = unfetched r.reply r.now r.write_ok file f

  run_version_checker-Failed :
      (rounds : List Round) (file : File)
      → All Failed rounds
      → run_version_checker repo rounds file ≡ file
  unfolding run_version_checker
  run_version_checker-Failed [] file f = refl
  run_version_checker-Failed (r ∷ rounds) file f =
      rw (refresh-Failed r file f.0) (run_version_checker-Failed rounds file f.1)

  run_version_checker-append :
      (earlier later : List Round) (file : File)
      → run_version_checker repo (earlier ++ later) file
        ≡ run_version_checker repo later (run_version_checker repo earlier file)
  unfolding run_version_checker
  run_version_checker-append [] later file = refl
  run_version_checker-append (r ∷ earlier) later file =
      run_version_checker-append earlier later (refresh repo r file).0

  polled :
      (tag : Str) (earlier later : List Round) (r : Round) (file : File)
      → Fetched tag r
      → All Failed later
      → run_version_checker repo (earlier ++ r ∷ later) file ≡ holds (entry tag r)
  unfolding run_version_checker
  polled tag earlier later r file f l =
      run_version_checker-append earlier (r ∷ later) file
      ∙ run_version_checker-Failed later _ l
      ∙ refresh-Fetched tag r (run_version_checker repo earlier file) f

  compare_version-Upgrade :
      (current tag : Str) (r : Round)
      → ((compare_version current (entry tag r)).upgrade_available ≡ true) ↔ Upgrade current tag
  unfolding compare_version
  compare_version-Upgrade current tag r =
      let g =
        gate (trim_v current == []) (trim_v current == codes "dev") (trim_v tag == [])
          (is_newer (trim_v tag) (trim_v current)) in
      let n = is_newer-Newer (trim_v tag) (trim_v current) in
      (
        λ h.
            let (a, b, c, m) = g.0 h in
            record {
              versioned = (differ _ _).0 a;
              released = (differ _ _).0 b;
              known = (differ _ _).0 c;
              newer = n.0 m;
            },
        λ u. g.1 (
          (differ _ _).1 u.versioned,
          (differ _ _).1 u.released,
          (differ _ _).1 u.known,
          n.1 u.newer,
        ),
      )

  -- A client that asks, with the version it runs, after any rounds of polling the last success of which
  -- found a tag, whatever was in the file before: it is told that tag and its time, and that an upgrade
  -- is available exactly if its own version is a released one, the tag is not empty, and it is newer.
  pub version_check-Polled :
      (current tag : Str) (earlier later : List Round) (r : Round) (file : File)
      → Fetched tag r
      → All Failed later
      → Told current tag r
          (version_check current (run_version_checker repo (earlier ++ r ∷ later) file))
  unfolding version_check read_cache cache_or_empty compare_version
  version_check-Polled current tag earlier later r file f l =
      rw (polled tag earlier later r file f l) (record {
        latest = refl;
        fetched_at = refl;
        upgrade = compare_version-Upgrade current tag r;
      })
