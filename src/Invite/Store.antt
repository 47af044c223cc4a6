-- ===== src/Invite/Store.antt =====
-- internal/invite/store.go: the disk-backed map of active invite codes. `disk` is the list of
-- entries that the file holds; whether the write succeeds is an argument of each operation, and so
-- is the clock. Go's order of iteration over the map is the order of the association list.
pub mod Laws
pub mod Once
pub mod Disk
mod Tests
use opencom.Base.{
  ℕ, Bool, true, false, not, Option, none, some, List, [], ◌∷◌, Str, str_eq, ◌&&◌, ◌||◌,
  if◌then◌else◌, map, ltb,
}
use opencom.Base.Dict.{Dict, lookup, insert, delete}
use opencom.Invite.Code.{Code}

pub record Entry : Type 0 where
  pub code : Code
  pub expires_at : ℕ
  pub consumed : Bool
  pub consumed_by : Str
  pub created_at : ℕ

abbrev pub Entries : Type 0
Entries = Dict Code Entry

pub record Store : Type 0 where
  pub entries : Entries
  pub disk : List Entry

-- What os.ReadFile and json.Unmarshal find at the path.
pub data Read : Type 0 where
  not_exist read_error corrupted unknown_version : Read
  stored : List Entry → Read

-- The loop of `OpenStore`.
unfoldable pub load : List Entry → Entries → Entries
load [] m = m
load (e ∷ rest) m = load rest (insert e.code e m)

unfoldable pub open_store : Read → Option Store
open_store not_exist = some (record { entries = []; disk = [] })
open_store read_error = none
open_store corrupted = some (record { entries = []; disk = [] })
open_store unknown_version = some (record { entries = []; disk = [] })
open_store (stored file) = some (record { entries = load file []; disk = file })

-- The slice that `flush` and `AllList` build.
abbrev pub values : Entries → List Entry
values m = map (λ row. row.1) m

unfoldable pub flush : Bool → Store → Store
flush true s = record s { disk = values s.entries }
flush false s = s

unfoldable pub get : Code → Entries → Option Entry
get c m = lookup c m

-- The test of `MarkConsumed` on a known entry.
unfoldable pub redeemable : ℕ → Entry → Bool
redeemable now e = not (e.consumed || ltb e.expires_at now)

-- The locked part of each operation, `none` where it returns before any change.
unfoldable pub mark_entry : Option Entry → ℕ → Code → Str → Entries → Option Entries
mark_entry none now c by m = none
mark_entry (some e) now c by m =
    if redeemable now e
    then some (insert c (record e { consumed = true; consumed_by = by }) m)
    else none

unfoldable pub unmark_entry : Option Entry → Code → Entries → Option Entries
unmark_entry none c m = none
unmark_entry (some e) c m =
    if e.consumed then some (insert c (record e { consumed = false; consumed_by = [] }) m) else none

unfoldable pub remove_entry : Option Entry → Code → Entries → Option Entries
remove_entry none c m = none
remove_entry (some e) c m = some (delete c m)

-- The flush after the lock, and what the operation returns.
unfoldable pub finish : Bool → Option Entries → Store → Store × Bool
finish ok none s = (s, false)
finish ok (some m) s = (flush ok (record s { entries = m }), true)

unfoldable pub add : Bool → Entry → Store → Store × Bool
add ok e s = finish ok (some (insert e.code e s.entries)) s

unfoldable pub mark_consumed : Bool → ℕ → Code → Str → Store → Store × Bool
mark_consumed ok now c by s = finish ok (mark_entry (get c s.entries) now c by s.entries) s

unfoldable pub unmark_consumed : Bool → Code → Store → Store × Bool
unmark_consumed ok c s = finish ok (unmark_entry (get c s.entries) c s.entries) s

unfoldable pub remove : Bool → Code → Store → Store × Bool
remove ok c s = finish ok (remove_entry (get c s.entries) c s.entries) s

unfoldable pub active_list : ℕ → Entries → List Entry
active_list now [] = []
active_list now (row ∷ m) =
    let rest = active_list now m in
    if not row.1.consumed && ltb now row.1.expires_at then row.1 ∷ rest else rest

unfoldable pub program : Unit {0}
unfolding load open_store flush get redeemable mark_entry unmark_entry remove_entry finish add
    mark_consumed unmark_consumed remove active_list lookup insert delete
program = tt
