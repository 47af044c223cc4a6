-- ===== src/Invite/Store/Tests.antt =====
-- internal/invite/store.go: runs on a concrete store, as in internal/invite/store_test.go.
use mathlib.Core.Path.{◌≡◌, refl}
use opencom.Base.{ℕ, str_beq, true, false, Option, none, some, List, [], ◌∷◌, codes}
use opencom.Invite.Code.{Code}
use opencom.Invite.Store.{
  Entry, Entries, Store, stored, open_store, values, get, mark_consumed, unmark_consumed, remove,
  active_list, program,
}
use opencom.Invite.Store.Laws.{Op, add_op, mark_op, unmark_op, locked, run, step, Valid, run-Valid}
use opencom.Invite.Store.Once.{redeemer, redeemed_once, get-unmark-mark}
use opencom.Invite.Store.Disk.{Live, change, copy, write, LiveRun, stop, next, answer, reopen_live}

abbrev first : Code
first = codes "A7B2X9K4"

abbrev second : Code
second = codes "00000001"

abbrev fresh : Code → Entry
fresh c = record { code = c; expires_at = 100; consumed = false; consumed_by = []; created_at = 1 }

abbrev empty_store : Store
empty_store = record { entries = []; disk = [] }

abbrev ops : List Op
ops = add_op true (fresh first) ∷ add_op false (fresh second) ∷ []

abbrev two : Store
two = run ops empty_store

empty_entries-Valid : Valid []
empty_entries-Valid = record { distinct = tt; rows = tt }

two-Valid : Valid two.entries
two-Valid = run-Valid ops empty_store ((λ h. refl), ((λ h. refl), tt)) empty_entries-Valid

-- The second write failed.
failed_write : two.disk ≡ fresh first ∷ []
unfolding program run step str_beq
failed_write = refl

-- At the moment of its expiry a code is off the list and can still be redeemed; then no more.
boundary_list : active_list 100 two.entries ≡ []
unfolding program run step str_beq
boundary_list = refl

boundary_mark : (mark_consumed true 100 first (codes "bob") two).1 ≡ true
unfolding program run step str_beq
boundary_mark = refl

expired_mark : (mark_consumed true 101 first (codes "bob") two).1 ≡ false
unfolding program run step str_beq
expired_mark = refl

removed : (remove true second two).0.disk ≡ fresh first ∷ []
unfolding program run step str_beq
removed = refl

abbrev between : List Op
between = mark_op true 8 first (codes "eve") ∷ unmark_op true second ∷ []

redeemed_once_example :
    (let s' = run between (mark_consumed true 7 first (codes "bob") two).0 in
      (redeemer (get first s'.entries) ≡ some (codes "bob"))
      × (mark_consumed true 9 first (codes "eve") s' ≡ (s', false)))
unfolding program run step str_beq
redeemed_once_example =
    redeemed_once true true 7 9 first (codes "bob") (codes "eve") between two refl (tt, (refl, tt))

get-unmark-mark_example :
    get first
      (unmark_consumed true first (mark_consumed true 7 first (codes "bob") two).0).0.entries
    ≡ get first two.entries
unfolding program run step str_beq
get-unmark-mark_example = get-unmark-mark true true 7 first first (codes "bob") two two-Valid refl

-- Two calls change the map before the first of them flushes.
abbrev idle : Live
idle = record { entries = []; owed = 0; held = none; file = [] }

abbrev one_entry : Entries
one_entry = (first, fresh first) ∷ []

abbrev two_entries : Entries
two_entries = (first, fresh first) ∷ (second, fresh second) ∷ []

abbrev live : Entries → ℕ → Option (List Entry) → List Entry → Live
live m owed held file = record { entries = m; owed = owed; held = held; file = file }

interleaved : LiveRun idle (live two_entries 0 none (values two_entries))
unfolding program locked str_beq
interleaved =
    let v = values two_entries in
    next (change (add_op true (fresh first)) idle one_entry (λ h. refl) refl) (
      next
        (change (add_op true (fresh second)) (live one_entry 1 none []) two_entries (λ h. refl)
          refl)
        (next (copy (live two_entries 2 none []) 1 refl refl) (
          next (write (live two_entries 1 (some v) []) v refl) (
            next (copy (live two_entries 1 none v) 0 refl refl)
              (next (write (live two_entries 0 (some v) v) v refl) stop)))))

reopen_live_example :
    answer (open_store (stored (values two_entries))) first ≡ some (get first two_entries)
reopen_live_example =
    reopen_live idle (live two_entries 0 none (values two_entries)) first
      (record { synced = λ z. refl; valid = empty_entries-Valid }) interleaved refl refl
