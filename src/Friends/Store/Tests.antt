-- ===== src/Friends/Store/Tests.antt =====
-- The friends list of internal/friends/store_test.go, and instances of the theorems.
use mathlib.Core.Path.{◌≡◌, refl}
use opencom.Base.{
  true, false, none, some, [], ◌∷◌, Str, codes, str_eq, ◌==◌, str_beq, if◌then◌else◌, ◌⊎◌,
  ne_of_str_beq,
}
use opencom.Friends.Store.{
  Friend, Store, friend_name_taken, write_failed, add, remove, rename, get, get_by_peer_id, clash,
  append, add_unless, persist, splice, replace_with, rename_scan, rename_at, set_name, list,
  insert_by_name, str_ltb,
}
use opencom.Friends.Store.Valid.{Unique, add_op, rename_op, step, run, run-Unique}
use opencom.Friends.Store.Lookup.{get-add, step_failed}

code : Unit {0}
unfolding add remove rename get get_by_peer_id clash append add_unless persist splice replace_with
    rename_scan rename_at set_name list insert_by_name str_ltb step run str_beq
code = tt

abbrev friend : Str → Str → Friend
friend name id = record {
  name = name;
  peer_id = id;
  public_key = codes "";
  added_at = 0;
  rendezvous_hint = codes "";
}

abbrev bob : Friend
bob = friend (codes "bob") (codes "1")

abbrev ann : Friend
ann = friend (codes "ann") (codes "2")

abbrev both : Store
both = record { friends = bob ∷ ann ∷ []; disk = bob ∷ ann ∷ [] }

ops_pass : run (add_op true bob ∷ add_op true ann ∷ []) (record { friends = []; disk = [] }) ≡ both
unfolding code
ops_pass = refl

listed : list both.friends ≡ ann ∷ bob ∷ []
unfolding code
listed = refl

-- A failed write leaves the new friend in memory only.
write_fails :
    add false ann (record { friends = bob ∷ []; disk = bob ∷ [] })
    ≡ (record both { disk = bob ∷ [] }, some write_failed)
unfolding code
write_fails = refl

both-Unique : Unique both.friends
unfolding code
both-Unique = (
  (ne_of_str_beq ann.name bob.name refl, tt),
  (ne_of_str_beq ann.peer_id bob.peer_id refl, tt),
  (tt, tt, tt),
)

run-Unique_example :
    Unique (run (rename_op true (codes "bob") (codes "rob") ∷ add_op true bob ∷ []) both).friends
run-Unique_example =
    run-Unique (rename_op true (codes "bob") (codes "rob") ∷ add_op true bob ∷ []) both both-Unique

eve_ok : (add true (friend (codes "eve") (codes "3")) both).1 ≡ none
unfolding code
eve_ok = refl

get-add_example :
    let eve = friend (codes "eve") (codes "3") in
    let s' = (add true eve both).0 in
    ((n : Str) → get n s'.friends ≡ (if eve.name == n then some eve else get n both.friends))
    × ((id : Str)
        → get_by_peer_id id s'.friends
          ≡ (if eve.peer_id == id then some eve else get_by_peer_id id both.friends))
    × (s'.disk ≡ s'.friends)
get-add_example = get-add true (friend (codes "eve") (codes "3")) both eve_ok

remove_ok : (remove true (codes "bob") both).1 ≡ none
unfolding code
remove_ok = refl

rename_ok : (rename true (codes "bob") (codes "rob") both).1 ≡ none
unfolding code
rename_ok = refl

twice : (step (add_op true bob) both).1 ≡ some friend_name_taken
unfolding code
twice = refl

step_failed_example :
    ((step (add_op true bob) both).0.disk ≡ both.disk)
    × ((friend_name_taken ≡ write_failed) ⊎ ((step (add_op true bob) both).0 ≡ both))
step_failed_example = step_failed (add_op true bob) both twice
