-- ===== src/Invite/Store/Disk.antt =====
-- internal/invite/store.go: what the file holds, when calls of the store overlap too. Every
-- operation changes the map under `mu`, releases it and then flushes; a flush takes `flushMu`, copies
-- the map, and writes the copy.
use mathlib.Core.Path.{◌≡◌, refl, sym, ◌∙◌, ap}
use opencom.Base.{ℕ, suc, Option, none, some, List, [], ◌∷◌, str_eq, if◌then◌else◌, arith, is_some}
use opencom.Base.Dict.{lookup, insert, Distinct, lookup-insert}
use opencom.Invite.Code.{Code}
use opencom.Invite.Store.{Entry, Entries, Store, stored, load, open_store, values, get}
use opencom.Invite.Store.Laws.{Op, locked, or_same, RowsValid, Valid, TidyOp, locked-Valid}

lookup-load :
    (m acc : Entries) (c : Code)
    → Distinct m
    → RowsValid m
    → lookup c (load (values m) acc) ≡ (if is_some (lookup c m) then lookup c m else lookup c acc)
unfolding load lookup
lookup-load [] acc c d v = refl
lookup-load ((k, e) ∷ m) acc c d v =
    lookup-load m (insert e.code e acc) c d.1 v.1
    ∙ ground (arith, lookup-insert e.code c e acc, str_eq.eqb_iff k c, v.0.own_code, d.0)

same_row : (o : Option Entry) → (if is_some o then o else none) ≡ o
same_row none = refl
same_row (some e) = refl

pub get-load : (m : Entries) (c : Code) → Valid m → get c (load (values m) []) ≡ get c m
unfolding get
get-load m c v = lookup-load m [] c v.distinct v.rows ∙ unfold lookup in same_row (lookup c m)

-- The store while calls are under way: `owed` is the number of flushes that are due, `held` the copy
-- of the flush that has `flushMu`. The calls add tidy entries, and their writes succeed.
pub record Live : Type 0 where
  pub entries : Entries
  pub owed : ℕ
  pub held : Option (List Entry)
  pub file : List Entry

pub data LiveStep : Live → Live → Type 0 where
  change :
      (op : Op) (l : Live) (m : Entries)
      → TidyOp op
      → locked op l.entries ≡ some m
      → LiveStep l (record l { entries = m; owed = suc l.owed })
  copy :
      (l : Live) (n : ℕ)
      → l.owed ≡ suc n
      → l.held ≡ none
      → LiveStep l (record l { owed = n; held = some (values l.entries) })
  write :
      (l : Live) (v : List Entry)
      → l.held ≡ some v
      → LiveStep l (record l { held = none; file = v })

pub data LiveRun : Live → Live → Type 0 where
  stop : {l : Live} → LiveRun l l
  next : {a b c : Live} → LiveStep a b → LiveRun b c → LiveRun a c

-- What the file holds once the copy that is on its way is written.
abbrev pub soon : Option (List Entry) → List Entry → List Entry
soon none file = file
soon (some v) file = v

abbrev pub answer : Option Store → Code → Option (Option Entry)
answer none c = none
answer (some s) c = some (get c s.entries)

-- When no flush is due, that is the map.
pub record InSync (l : Live) : Type 0 where
  pub synced : l.owed ≡ 0 → soon l.held l.file ≡ values l.entries
  pub valid : Valid l.entries

step-InSync : {a b : Live} → LiveStep a b → InSync a → InSync b
step-InSync (change op l m tidy h) i = record {
  synced = λ z. absurd (omega arith);
  valid = rw (sym (ap (λ o. or_same o l.entries) h)) (locked-Valid op l.entries tidy i.valid);
}
step-InSync (copy l n due free) i = record { synced = λ z. refl; valid = i.valid }
step-InSync (write l v h) i = record {
  synced = λ z. ap (λ o. soon o l.file) (sym h) ∙ i.synced z;
  valid = i.valid;
}

run-InSync : {a b : Live} → LiveRun a b → InSync a → InSync b
run-InSync stop i = i
run-InSync (next st rest) i = run-InSync rest (step-InSync st i)

-- No interleaving loses an update: from a well-formed store whose file is its map, let calls change
-- the map, copy it and write the copy in any order that the two mutexes allow. When no flush is due
-- or under way, `OpenStore` reads a store that gives every code the entry that the map has.
pub reopen_live :
    (l l' : Live) (c : Code)
    → InSync l
    → LiveRun l l'
    → l'.owed ≡ 0
    → l'.held ≡ none
    → answer (open_store (stored l'.file)) c ≡ some (get c l'.entries)
unfolding open_store
reopen_live l l' c i path due free =
    let i' = run-InSync path i in
    let file : l'.file ≡ values l'.entries = ap (λ o. soon o l'.file) (sym free) ∙ i'.synced due in
    ap some (ap (λ v. get c (load v [])) file ∙ get-load l'.entries c i'.valid)
