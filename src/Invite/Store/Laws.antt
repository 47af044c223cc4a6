-- ===== src/Invite/Store/Laws.antt =====
-- internal/invite/store.go: the entries stay well-formed, and when a code can be redeemed.
use mathlib.Core.Path.{◌≡◌, refl, ◌∙◌, ap}
use opencom.Base.{
  ℕ, Bool, true, false, Option, none, some, List, [], ◌∷◌, Str, str_eq, arith, All, is_some,
}
use opencom.Base.Dict.{lookup, insert, delete, Distinct, insert-Distinct, delete-Distinct}
use opencom.Invite.Code.{Code}
use opencom.Invite.Store.{
  Entry, Entries, Store, finish, add, mark_consumed, unmark_consumed, remove, flush, get,
  mark_entry, unmark_entry, remove_entry,
}

-- A row stands under its own code, and an entry that is not consumed names no redeemer.
pub record RowValid (c : Code) (e : Entry) : Type 0 where
  pub own_code : e.code ≡ c
  pub tidy : e.consumed ≡ false → e.consumed_by ≡ []

abbrev pub RowsValid : Entries → Type 0
RowsValid [] = Unit
RowsValid ((c, e) ∷ m) = RowValid c e × RowsValid m

pub record Valid (m : Entries) : Type 0 where
  pub distinct : Distinct m
  pub rows : RowsValid m

pub lookup-RowValid :
    (c : Code) (e : Entry) (m : Entries) → RowsValid m → lookup c m ≡ some e → RowValid c e
unfolding lookup
lookup-RowValid c e [] v h = cc
lookup-RowValid c e ((k, f) ∷ m) v h = ground (arith, str_eq.eqb_iff k c, lookup-RowValid c e m v.1)

insert-RowsValid :
    (c : Code) (e : Entry) (m : Entries) → RowValid c e → RowsValid m → RowsValid (insert c e m)
unfolding insert
insert-RowsValid c e [] new v = (new, tt)
insert-RowsValid c e ((k, f) ∷ m) new v = ground (arith, insert-RowsValid c e m new v.1)

delete-RowsValid : (c : Code) (m : Entries) → RowsValid m → RowsValid (delete c m)
unfolding delete
delete-RowsValid c [] v = tt
delete-RowsValid c ((k, f) ∷ m) v = ground (arith, delete-RowsValid c m v.1)

pub insert-Valid :
    (c : Code) (e : Entry) (m : Entries) → RowValid c e → Valid m → Valid (insert c e m)
insert-Valid c e m new v = record {
  distinct = insert-Distinct c e m v.distinct;
  rows = insert-RowsValid c e m new v.rows;
}

pub delete-Valid : (c : Code) (m : Entries) → Valid m → Valid (delete c m)
delete-Valid c m v = record {
  distinct = delete-Distinct c m v.distinct;
  rows = delete-RowsValid c m v.rows;
}

-- An operation, with the outcome of its write and the time it reads.
pub data Op : Type 0 where
  add_op : Bool → Entry → Op
  mark_op : Bool → ℕ → Code → Str → Op
  unmark_op : Bool → Code → Op
  remove_op : Bool → Code → Op

unfoldable pub step : Op → Store → Store × Bool
step (add_op ok e) s = add ok e s
step (mark_op ok now c by) s = mark_consumed ok now c by s
step (unmark_op ok c) s = unmark_consumed ok c s
step (remove_op ok c) s = remove ok c s

unfoldable pub run : List Op → Store → Store
run [] s = s
run (op ∷ ops) s = run ops (step op s).0

-- The part of `step` under the lock.
unfoldable pub locked : Op → Entries → Option Entries
locked (add_op ok e) m = some (insert e.code e m)
locked (mark_op ok now c by) m = mark_entry (get c m) now c by m
locked (unmark_op ok c) m = unmark_entry (get c m) c m
locked (remove_op ok c) m = remove_entry (get c m) c m

unfoldable pub write_ok : Op → Bool
write_ok (add_op ok e) = ok
write_ok (mark_op ok now c by) = ok
write_ok (unmark_op ok c) = ok
write_ok (remove_op ok c) = ok

pub step-finish : (op : Op) (s : Store) → step op s ≡ finish (write_ok op) (locked op s.entries) s
unfolding step locked write_ok add mark_consumed unmark_consumed remove
step-finish (add_op ok e) s = refl
step-finish (mark_op ok now c by) s = refl
step-finish (unmark_op ok c) s = refl
step-finish (remove_op ok c) s = refl

abbrev pub or_same : Option Entries → Entries → Entries
or_same none m = m
or_same (some n) m = n

flush-entries : (ok : Bool) (s : Store) → (flush ok s).entries ≡ s.entries
unfolding flush
flush-entries true s = refl
flush-entries false s = refl

pub finish-entries :
    (ok : Bool) (o : Option Entries) (s : Store) → (finish ok o s).0.entries ≡ or_same o s.entries
unfolding finish
finish-entries ok none s = refl
finish-entries ok (some m) s = flush-entries ok (record s { entries = m })

pub step-entries :
    (op : Op) (s : Store) → (step op s).0.entries ≡ or_same (locked op s.entries) s.entries
step-entries op s =
    ap (λ r. r.0.entries) (step-finish op s) ∙ finish-entries (write_ok op) (locked op s.entries) s

pub finish-answer : (ok : Bool) (o : Option Entries) (s : Store) → (finish ok o s).1 ≡ is_some o
unfolding finish
finish-answer ok none s = refl
finish-answer ok (some m) s = refl

-- What is added is asked to be tidy.
abbrev pub TidyOp : Op → Type 0
TidyOp (add_op ok e) = e.consumed ≡ false → e.consumed_by ≡ []
TidyOp (mark_op ok now c by) = Unit
TidyOp (unmark_op ok c) = Unit
TidyOp (remove_op ok c) = Unit

mark_entry-Valid :
    (o : Option Entry) (now : ℕ) (c : Code) (by : Str) (m : Entries)
    → ((e : Entry) → o ≡ some e → e.code ≡ c)
    → Valid m
    → Valid (or_same (mark_entry o now c by m) m)
unfolding mark_entry
mark_entry-Valid none now c by m own v = v
mark_entry-Valid (some e) now c by m own v =
    let new : RowValid c (record e { consumed = true; consumed_by = by }) = record {
      own_code = own e refl;
      tidy = λ h. cc;
    } in
    ground (arith, insert-Valid c (record e { consumed = true; consumed_by = by }) m new v)

unmark_entry-Valid :
    (o : Option Entry) (c : Code) (m : Entries)
    → ((e : Entry) → o ≡ some e → e.code ≡ c)
    → Valid m
    → Valid (or_same (unmark_entry o c m) m)
unfolding unmark_entry
unmark_entry-Valid none c m own v = v
unmark_entry-Valid (some e) c m own v =
    let new : RowValid c (record e { consumed = false; consumed_by = [] }) = record {
      own_code = own e refl;
      tidy = λ h. refl;
    } in
    ground (arith, insert-Valid c (record e { consumed = false; consumed_by = [] }) m new v)

remove_entry-Valid :
    (o : Option Entry) (c : Code) (m : Entries) → Valid m → Valid (or_same (remove_entry o c m) m)
unfolding remove_entry
remove_entry-Valid none c m v = v
remove_entry-Valid (some e) c m v = delete-Valid c m v

pub locked-Valid : (op : Op) (m : Entries) → TidyOp op → Valid m → Valid (or_same (locked op m) m)
unfolding locked get
locked-Valid (add_op ok e) m tidy v =
    insert-Valid e.code e m (record { own_code = refl; tidy = tidy }) v
locked-Valid (mark_op ok now c by) m tidy v =
    mark_entry-Valid (lookup c m) now c by m (λ e h. (lookup-RowValid c e m v.rows h).own_code) v
locked-Valid (unmark_op ok c) m tidy v =
    unmark_entry-Valid (lookup c m) c m (λ e h. (lookup-RowValid c e m v.rows h).own_code) v
locked-Valid (remove_op ok c) m tidy v = remove_entry-Valid (lookup c m) c m v

-- In every run in which the entries that `Add` is given name a redeemer only when they are
-- consumed, whatever the writes do, the map keeps one row for a code, each row stands under the
-- code of its entry, and an entry that is not consumed names no redeemer.
pub run-Valid :
    (ops : List Op) (s : Store) → All TidyOp ops → Valid s.entries → Valid (run ops s).entries
unfolding run
run-Valid [] s tidy v = v
run-Valid (op ∷ ops) s tidy v =
    run-Valid ops (step op s).0 tidy.1 (rw (step-entries op s) (locked-Valid op s.entries tidy.0 v))
