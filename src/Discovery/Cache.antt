-- ===== src/Discovery/Cache.antt =====
-- internal/discovery/cache.go: the last known addresses of a peer. As in the invite store, `disk` is
-- what the file holds, the write's outcome and the clock are arguments; base64 of the file's keys is
-- left out, since decoding what was encoded gives the key back.
use opencom.Base.{ℕ, Bool, true, false, Option, none, some, List, [], ◌∷◌, Str, str_eq}
use opencom.Base.Dict.{Dict, lookup, insert, delete}

pub record CacheEntry : Type 0 where
  pub addresses : List Str
  pub fetched_at : ℕ

abbrev pub CacheEntries : Type 0
CacheEntries = Dict Str CacheEntry

pub record Cache : Type 0 where
  pub entries : CacheEntries
  pub disk : CacheEntries

-- What os.ReadFile and json.Unmarshal find at the path.
pub data Read : Type 0 where
  not_exist read_error corrupted unknown_version : Read
  stored : CacheEntries → Read

-- The loop of `OpenCache`.
unfoldable pub load : CacheEntries → CacheEntries → CacheEntries
load [] m = m
load (row ∷ file) m = load file (insert row.0 row.1 m)

unfoldable pub open_cache : Read → Option Cache
open_cache not_exist = some (record { entries = []; disk = [] })
open_cache read_error = none
open_cache corrupted = some (record { entries = []; disk = [] })
open_cache unknown_version = some (record { entries = []; disk = [] })
open_cache (stored file) = some (record { entries = load file []; disk = file })

unfoldable pub flush : Bool → Cache → Cache
flush true c = record c { disk = c.entries }
flush false c = c

unfoldable pub get : Str → Cache → Option CacheEntry
get p c = lookup p c.entries

unfoldable pub set : Bool → ℕ → Str → List Str → Cache → Cache
set ok now p addrs c =
    flush ok
      (record c { entries = insert p (record { addresses = addrs; fetched_at = now }) c.entries })

unfoldable pub invalidate : Bool → Str → Cache → Cache
invalidate ok p c = flush ok (record c { entries = delete p c.entries })

unfoldable pub program : Unit {0}
unfolding load open_cache flush get set invalidate lookup insert delete
program = tt
