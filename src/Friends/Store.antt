-- ===== src/Friends/Store.antt =====
-- internal/friends/store.go: the on-disk friends list. `disk` is the list that the file holds;
-- whether `AtomicWriteFile` succeeds is an argument of each mutation. A failed write leaves the
-- file as it was (internal/iox/atomicfile.go writes a temporary file and renames it).
pub mod Valid
pub mod Lookup
pub mod Sorted
mod Tests
use opencom.Base.{
  ℕ, suc, ◌+◌, ◌-◌, Bool, true, false, Option, none, some, List, [], ◌∷◌, Str, str_eq, ◌==◌,
  if◌then◌else◌, map, ltb, nat_beq, ◌||◌, ◌&&◌,
}

pub record Friend : Type 0 where
  pub name : Str
  pub peer_id : Str
  pub public_key : Str
  pub added_at : ℕ
  pub rendezvous_hint : Str

pub record Store : Type 0 where
  pub friends : List Friend
  pub disk : List Friend

pub data StoreError : Type 0 where
  friend_not_found friend_name_taken friend_peer_id_taken write_failed : StoreError

-- What os.ReadFile and json.Unmarshal find at the path.
pub data Read : Type 0 where
  missing unreadable unparsable : Read
  parsed : List Friend → Read

-- `Open`; the outcome of the write that creates a missing file is the first argument.
unfoldable pub open_store : Bool → Read → Option Store
open_store true missing = some (record { friends = []; disk = [] })
open_store false missing = none
open_store ok unreadable = none
open_store ok unparsable = none
open_store ok (parsed l) = some (record { friends = l; disk = l })

-- `persistLocked`.
unfoldable pub persist : Bool → Store → Store × Option StoreError
persist true s = (record s { disk = s.friends }, none)
persist false s = (s, some write_failed)

-- The loop of `Add` over the existing friends.
unfoldable pub clash : Friend → List Friend → Option StoreError
clash f [] = none
clash f (existing ∷ rest) =
    if existing.name == f.name
    then some friend_name_taken
    else (if existing.peer_id == f.peer_id then some friend_peer_id_taken else clash f rest)

unfoldable pub append {ℓ} : {A : Type ℓ} → List A → A → List A
append [] a = a ∷ []
append (b ∷ l) a = b ∷ append l a

-- `Add` after its loop.
unfoldable pub add_unless : Option StoreError → Bool → Friend → Store → Store × Option StoreError
add_unless (some err) ok f s = (s, some err)
add_unless none ok f s = persist ok (record s { friends = append s.friends f })

unfoldable pub add : Bool → Friend → Store → Store × Option StoreError
add ok f s = add_unless (clash f s.friends) ok f s

-- `Get` and `GetByPeerID`.
unfoldable pub get : Str → List Friend → Option Friend
get name [] = none
get name (f ∷ rest) = if f.name == name then some f else get name rest

unfoldable pub get_by_peer_id : Str → List Friend → Option Friend
get_by_peer_id id [] = none
get_by_peer_id id (f ∷ rest) = if f.peer_id == id then some f else get_by_peer_id id rest

-- The loop of `Remove`: the list without the first friend of that name, if there is one.
unfoldable pub splice : Str → List Friend → Option (List Friend)
splice name [] = none
splice name (f ∷ rest) =
    let found = splice name rest in
    if f.name == name then some rest else elim found [ none ↦ none | some kept ↦ some (f ∷ kept) ]

unfoldable pub replace_with : Option (List Friend) → Bool → Store → Store × Option StoreError
replace_with none ok s = (s, some friend_not_found)
replace_with (some kept) ok s = persist ok (record s { friends = kept })

unfoldable pub remove : Bool → Str → Store → Store × Option StoreError
remove ok name s = replace_with (splice name s.friends) ok s

-- The loop of `Rename`: `taken` when the new name is met, else the last index of the old name.
pub data Scan : Type 0 where
  taken : Scan
  at : Option ℕ → Scan

unfoldable pub rename_scan : Str → Str → ℕ → Option ℕ → List Friend → Scan
rename_scan old new i idx [] = at idx
rename_scan old new i idx (f ∷ rest) =
    let found = rename_scan old new (i + 1) (if f.name == old then some i else idx) rest in
    if f.name == new then taken else found

-- s.friends[idx].Name = newName
unfoldable pub set_name : ℕ → Str → List Friend → List Friend
set_name i new [] = []
set_name i new (f ∷ rest) =
    let later = set_name (i - 1) new rest in
    if nat_beq i 0 then record f { name = new } ∷ rest else f ∷ later

-- `Rename` after its loop.
unfoldable pub rename_at : Scan → Bool → Str → Store → Store × Option StoreError
rename_at taken ok new s = (s, some friend_name_taken)
rename_at (at none) ok new s = (s, some friend_not_found)
rename_at (at (some i)) ok new s = persist ok (record s { friends = set_name i new s.friends })

unfoldable pub rename : Bool → Str → Str → Store → Store × Option StoreError
rename ok old new s = rename_at (rename_scan old new 0 none s.friends) ok new s

-- Go's `<` on strings: byte by byte.
unfoldable pub str_ltb : Str → Str → Bool
str_ltb [] [] = false
str_ltb [] (b ∷ t) = true
str_ltb (a ∷ s) [] = false
str_ltb (a ∷ s) (b ∷ t) = ltb a b || (nat_beq a b && str_ltb s t)

-- `List` sorts a copy by name.
unfoldable pub insert_by_name : Friend → List Friend → List Friend
insert_by_name f [] = f ∷ []
insert_by_name f (g ∷ rest) =
    if str_ltb g.name f.name then g ∷ insert_by_name f rest else f ∷ g ∷ rest

unfoldable pub list : List Friend → List Friend
list [] = []
list (f ∷ rest) = insert_by_name f (list rest)

unfoldable pub peer_ids : List Friend → List Str
peer_ids = map (λ f. f.peer_id)

unfoldable pub program : Unit {0}
unfolding persist clash append add_unless add get get_by_peer_id splice replace_with remove
    rename_scan set_name rename_at rename
program = tt
