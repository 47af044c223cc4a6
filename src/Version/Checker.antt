-- ===== src/Version/Checker.antt =====
-- internal/version/version.go: the cache file and Refresh, with the loop of internal/app/daemon.go that
-- calls it and the handler of internal/ipc/methods/version.go that reads the file. The request to
-- GitHub is an argument, its outcome.
use opencom.Base.{ℕ, Bool, true, false, List, [], ◌∷◌, nat_eq, ◌==◌, Str, ◌⊎◌, inl, inr}
use opencom.Base.Result.{◌>>◌, check}
use opencom.Version.{Cache, Result, trim_v, compare_version}

-- The cache file; one that is not JSON of a cache is corrupt.
pub data File : Type 0 where
  missing unreadable corrupt : File
  holds : Cache → File

pub data ReadError : Type 0 where
  read_error : ReadError

abbrev pub empty_cache : Cache
empty_cache = record { latest = []; fetched_at = 0; repo = [] }

unfoldable pub read_cache : File → ReadError ⊎ Cache
read_cache missing = inr empty_cache
read_cache unreadable = inl read_error
read_cache corrupt = inr empty_cache
read_cache (holds cache) = inr cache

-- The body of a response: a release's tag, or not the JSON of a release.
pub data Body : Type 0 where
  undecodable : Body
  tagged : Str → Body

pub data Reply : Type 0 where
  bad_request no_response : Reply
  response : ℕ → Body → Reply

pub data RefreshError : Type 0 where
  request_error fetch_error decode_error write_error : RefreshError
  bad_status : ℕ → RefreshError

-- One call of Refresh: what GitHub answers, the clock, and whether the file is written.
pub record Round : Type 0 where
  pub reply : Reply
  pub now : ℕ
  pub write_ok : Bool

unfoldable pub decode_body : Body → RefreshError ⊎ Str
decode_body undecodable = inl decode_error
decode_body (tagged tag) = inr tag

unfoldable pub fetch : Reply → RefreshError ⊎ Str
fetch bad_request = inl request_error
fetch no_response = inl fetch_error
fetch (response status body) = do check (status == 200) (bad_status status); decode_body body

-- `writeCacheAtomic`: the file is replaced whole or not at all.
unfoldable pub write_cache : Bool → Cache → File → File × (RefreshError ⊎ Cache)
write_cache false entry file = (file, inl write_error)
write_cache true entry file = (holds entry, inr entry)

unfoldable pub store_tag : Str → Round → RefreshError ⊎ Str → File → File × (RefreshError ⊎ Cache)
store_tag repo r (inl err) file = (file, inl err)
store_tag repo r (inr tag) file =
    write_cache r.write_ok (record { latest = trim_v tag; fetched_at = r.now; repo = repo }) file

unfoldable pub refresh : Str → Round → File → File × (RefreshError ⊎ Cache)
refresh repo r file = store_tag repo r (fetch r.reply) file

-- `runVersionChecker`: one round at the start and one at each tick; its errors are only logged.
unfoldable pub run_version_checker : Str → List Round → File → File
run_version_checker repo [] file = file
run_version_checker repo (r ∷ rounds) file = run_version_checker repo rounds (refresh repo r file).0

unfoldable pub cache_or_empty : ReadError ⊎ Cache → Cache
cache_or_empty (inl err) = empty_cache
cache_or_empty (inr cache) = cache

-- `VersionCheck`, with a checker.
unfoldable pub version_check : Str → File → Result
version_check current_version file =
    compare_version current_version (cache_or_empty (read_cache file))

unfoldable pub checker : Unit {0}
unfolding read_cache decode_body fetch write_cache store_tag refresh run_version_checker
    cache_or_empty version_check
checker = tt
