-- ===== src/Invite/Store/Once.antt =====
-- internal/invite/store.go: a code is redeemed once, and a redemption is rolled back exactly.
use mathlib.Core.Path.{◌≡◌, refl, sym, ◌∙◌, ap}
use mathlib.Core.Logic.{◌↔◌}
use opencom.Base.{
  ℕ, ◌≤◌, Bool, true, false, not, Option, none, some, List, [], ◌∷◌, Str, str_eq, ◌==◌, ◌&&◌,
  if◌then◌else◌, ltb, arith, All, is_some,
}
use opencom.Base.Dict.{lookup, insert, Distinct, lookup-insert, lookup-delete}
use opencom.Invite.Code.{Code}
use opencom.Invite.Store.{
  Entry, Entries, Store, finish, mark_consumed, unmark_consumed, get, redeemable, mark_entry,
  unmark_entry, remove_entry, active_list,
}
use opencom.Invite.Store.Laws.{
  Op, add_op, mark_op, unmark_op, remove_op, step, run, locked, or_same, step-entries,
  finish-entries, finish-answer, Valid, RowsValid, lookup-RowValid,
}

abbrev pub taken_by : Str → Entry → Entry
taken_by by e = record e { consumed = true; consumed_by = by }

abbrev pub released : Entry → Entry
released e = record e { consumed = false; consumed_by = [] }

mark-answer :
    (ok : Bool) (now : ℕ) (c : Code) (by : Str) (s : Store)
    → (mark_consumed ok now c by s).1 ≡ is_some (mark_entry (get c s.entries) now c by s.entries)
unfolding mark_consumed
mark-answer ok now c by s = finish-answer ok (mark_entry (get c s.entries) now c by s.entries) s

mark-entries :
    (ok : Bool) (now : ℕ) (c : Code) (by : Str) (s : Store)
    → (mark_consumed ok now c by s).0.entries
      ≡ or_same (mark_entry (get c s.entries) now c by s.entries) s.entries
unfolding mark_consumed
mark-entries ok now c by s = finish-entries ok (mark_entry (get c s.entries) now c by s.entries) s

-- A known code that is not consumed and has not passed its time.
pub record Open (now : ℕ) (o : Option Entry) : Type 0 where
  pub entry : Entry
  pub found : o ≡ some entry
  pub unused : entry.consumed ≡ false
  pub in_time : now ≤ entry.expires_at

mark_entry-some :
    (now : ℕ) (c : Code) (by : Str) (m : Entries) (e : Entry)
    → e.consumed ≡ false
    → now ≤ e.expires_at
    → mark_entry (some e) now c by m ≡ some (insert c (taken_by by e) m)
unfolding mark_entry redeemable
mark_entry-some now c by m e unused time = ground arith

mark_entry-Open :
    (o : Option Entry) (now : ℕ) (c : Code) (by : Str) (m : Entries)
    → is_some (mark_entry o now c by m) ≡ true
    → Open now o
unfolding mark_entry redeemable
mark_entry-Open none now c by m h = absurd (ground arith)
mark_entry-Open (some e) now c by m h = record {
  entry = e;
  found = refl;
  unused = ground arith;
  in_time = ground arith;
}

-- `MarkConsumed` returns true exactly for a known code that is not consumed and whose expiry is
-- not before the time it reads; whether the write succeeds makes no difference.
pub mark_consumed-Open :
    (ok : Bool) (now : ℕ) (c : Code) (by : Str) (s : Store)
    → ((mark_consumed ok now c by s).1 ≡ true) ↔ Open now (get c s.entries)
mark_consumed-Open ok now c by s = (
  (λ h. mark_entry-Open (get c s.entries) now c by s.entries (sym (mark-answer ok now c by s) ∙ h)),
  (λ o.
      mark-answer ok now c by s
      ∙ (rw (o.found, mark_entry-some now c by s.entries o.entry o.unused o.in_time) refl)),
)

-- What a successful redemption leaves.
pub get-mark :
    (ok : Bool) (now : ℕ) (c : Code) (by : Str) (s : Store) (o : Open now (get c s.entries))
    (q : Code)
    → get q (mark_consumed ok now c by s).0.entries
      ≡ (if c == q then some (taken_by by o.entry) else get q s.entries)
unfolding get
get-mark ok now c by s o q =
    rw
      (
        mark-entries ok now c by s,
        o.found,
        mark_entry-some now c by s.entries o.entry o.unused o.in_time,
      )
      (lookup-insert c q (taken_by by o.entry) s.entries)

or_same_none : (o : Option Entries) (m : Entries) → is_some o ≡ false → or_same o m ≡ m
or_same_none none m h = refl
or_same_none (some n) m h = cc

pub mark_consumed_no :
    (ok : Bool) (now : ℕ) (c : Code) (by : Str) (s : Store)
    → (mark_consumed ok now c by s).1 ≡ false
    → (mark_consumed ok now c by s).0.entries ≡ s.entries
mark_consumed_no ok now c by s h =
    let o = mark_entry (get c s.entries) now c by s.entries in
    mark-entries ok now c by s ∙ or_same_none o s.entries (sym (mark-answer ok now c by s) ∙ h)

-- The operations that may free a redeemed code again.
abbrev pub Spares : Code → Op → Type 0
Spares c (add_op ok e) = (e.code == c) ≡ false
Spares c (mark_op ok now q by) = Unit
Spares c (unmark_op ok q) = (q == c) ≡ false
Spares c (remove_op ok q) = (q == c) ≡ false

mark_entry-kept :
    (o : Option Entry) (now : ℕ) (q c : Code) (by : Str) (m : Entries) (e : Entry)
    → get q m ≡ o
    → get c m ≡ some e
    → e.consumed ≡ true
    → get c (or_same (mark_entry o now q by m) m) ≡ some e
unfolding mark_entry redeemable get
mark_entry-kept none now q c by m e ho h used = h
mark_entry-kept (some f) now q c by m e ho h used =
    ground (arith, str_eq.eqb_iff q c, lookup-insert q c (taken_by by f) m)

pub unmark_entry-kept :
    (o : Option Entry) (q c : Code) (m : Entries)
    → (q == c) ≡ false
    → get c (or_same (unmark_entry o q m) m) ≡ get c m
unfolding unmark_entry get
unmark_entry-kept none q c m apart = refl
unmark_entry-kept (some f) q c m apart = ground (arith, lookup-insert q c (released f) m)

remove_entry-kept :
    (o : Option Entry) (q c : Code) (m : Entries)
    → (q == c) ≡ false
    → get c (or_same (remove_entry o q m) m) ≡ get c m
unfolding remove_entry get
remove_entry-kept none q c m apart = refl
remove_entry-kept (some f) q c m apart = rw (lookup-delete q c m, apart)

pub locked-kept :
    (op : Op) (c : Code) (m : Entries) (e : Entry)
    → Spares c op
    → get c m ≡ some e
    → e.consumed ≡ true
    → get c (or_same (locked op m) m) ≡ some e
unfolding locked
locked-kept (add_op ok f) c m e apart h used =
    unfold get in rw (lookup-insert f.code c f m, apart) h
locked-kept (mark_op ok now q by) c m e apart h used =
    mark_entry-kept (get q m) now q c by m e refl h used
locked-kept (unmark_op ok q) c m e apart h used = unmark_entry-kept (get q m) q c m apart ∙ h
locked-kept (remove_op ok q) c m e apart h used = remove_entry-kept (get q m) q c m apart ∙ h

run-kept :
    (ops : List Op) (c : Code) (s : Store) (e : Entry)
    → All (Spares c) ops
    → get c s.entries ≡ some e
    → e.consumed ≡ true
    → get c (run ops s).entries ≡ some e
unfolding run
run-kept [] c s e apart h used = h
run-kept (op ∷ ops) c s e apart h used =
    run-kept ops c (step op s).0 e apart.1
      (rw (step-entries op s) (locked-kept op c s.entries e apart.0 h used)) used

abbrev pub redeemer : Option Entry → Option Str
redeemer none = none
redeemer (some e) = some e.consumed_by

mark_refused :
    (ok : Bool) (now : ℕ) (c : Code) (by : Str) (s : Store) (e : Entry)
    → get c s.entries ≡ some e
    → e.consumed ≡ true
    → mark_consumed ok now c by s ≡ (s, false)
unfolding mark_consumed mark_entry redeemable finish
mark_refused ok now c by s e h used = rw (h, used)

-- A code is redeemed once: after a `MarkConsumed` that returned true, and any operations that do
-- not add, unmark or remove the code (marks of it included), the entry still names the first
-- redeemer, and every further `MarkConsumed` of it returns false and changes nothing.
pub redeemed_once :
    (ok again_ok : Bool) (now later : ℕ) (c : Code) (by other : Str) (ops : List Op) (s : Store)
    → (mark_consumed ok now c by s).1 ≡ true
    → All (Spares c) ops
    → (let s' = run ops (mark_consumed ok now c by s).0 in
        (redeemer (get c s'.entries) ≡ some by)
        × (mark_consumed again_ok later c other s' ≡ (s', false)))
redeemed_once ok again_ok now later c by other ops s h apart =
    let o : Open now (get c s.entries) = (mark_consumed-Open ok now c by s).0 h in
    let e = taken_by by o.entry in
    let s1 = (mark_consumed ok now c by s).0 in
    let taken : get c s1.entries ≡ some e =
      rw (get-mark ok now c by s o c, (str_eq.eqb_iff c c).1 refl) in
    let kept : get c (run ops s1).entries ≡ some e = run-kept ops c s1 e apart taken refl in
    (ap redeemer kept, mark_refused again_ok later c other (run ops s1) e kept refl)

unmark_taken :
    (ok : Bool) (c : Code) (s : Store) (e : Entry)
    → get c s.entries ≡ some e
    → e.consumed ≡ true
    → (unmark_consumed ok c s).0.entries ≡ insert c (released e) s.entries
unfolding unmark_consumed unmark_entry
unmark_taken ok c s e h used =
    finish-entries ok (unmark_entry (get c s.entries) c s.entries) s ∙ rw (h, used)

same_entry :
    (e : Entry) (by : Str) → e.consumed ≡ false → e.consumed_by ≡ [] → released (taken_by by e) ≡ e
same_entry e by unused tidy = rw (unused, tidy) refl

restored :
    (q c : Code) (old new : Entries) (e back : Entry) (kept : Entry)
    → get q new ≡ (if c == q then some kept else get q old)
    → back ≡ e
    → get c old ≡ some e
    → (if c == q then some back else get q new) ≡ get q old
restored q c old new e back kept h same found = ground (arith, str_eq.eqb_iff c q)

-- The rollback of a redemption: in a well-formed store, `UnmarkConsumed` right after a successful
-- `MarkConsumed` of the same code leaves every code with the entry that it had before.
pub get-unmark-mark :
    (ok undo_ok : Bool) (now : ℕ) (c q : Code) (by : Str) (s : Store)
    → Valid s.entries
    → (mark_consumed ok now c by s).1 ≡ true
    → get q (unmark_consumed undo_ok c (mark_consumed ok now c by s).0).0.entries ≡ get q s.entries
get-unmark-mark ok undo_ok now c q by s v h =
    let o : Open now (get c s.entries) = (mark_consumed-Open ok now c by s).0 h in
    let e = taken_by by o.entry in
    let s1 = (mark_consumed ok now c by s).0 in
    let taken : get c s1.entries ≡ some e =
      rw (get-mark ok now c by s o c, (str_eq.eqb_iff c c).1 refl) in
    let row = lookup-RowValid c o.entry s.entries v.rows (unfold get in o.found) in
    let back : released e ≡ o.entry = same_entry o.entry by o.unused (row.tidy o.unused) in
    ap (get q) (unmark_taken undo_ok c s1 e taken refl)
    ∙ unfold get in
      (lookup-insert c q (released e) s1.entries
        ∙ restored q c s.entries s1.entries o.entry (released e) e (get-mark ok now c by s o q) back
            o.found)

later_row :
    (k c : Code) (e f : Entry) (m : Entries)
    → lookup k m ≡ none
    → lookup c m ≡ some f
    → lookup c ((k, e) ∷ m) ≡ some f
unfolding lookup
later_row k c e f m gone h = ground (arith, str_eq.eqb_iff k c)

active_row :
    (now : ℕ) (k : Code) (e : Entry) (whole : Entries)
    → get k whole ≡ some e
    → e.code ≡ k
    → (not e.consumed && ltb now e.expires_at) ≡ true
    → Open now (get e.code whole)
active_row now k e whole h own active = record {
  entry = e;
  found = ap (λ c. get c whole) own ∙ h;
  unused = ground arith;
  in_time = ground arith;
}

active-Open :
    (now : ℕ) (m whole : Entries)
    → Distinct m
    → RowsValid m
    → ((c : Code) (e : Entry) → get c m ≡ some e → get c whole ≡ some e)
    → All (λ e. Open now (get e.code whole)) (active_list now m)
unfolding active_list get
active-Open now [] whole d v sub = tt
active-Open now ((k, e) ∷ m) whole d v sub =
    let first : get k whole ≡ some e =
      sub k e (unfold lookup in (rw ((str_eq.eqb_iff k k).1 refl) refl)) in
    let rest = active-Open now m whole d.1 v.1 (λ c f h. sub c f (later_row k c e f m d.0 h)) in
    ground (arith, rest, active_row now k e whole first v.0.own_code)

Open_mark :
    (ok : Bool) (now : ℕ) (by : Str) (s : Store) (l : List Entry)
    → All (λ e. Open now (get e.code s.entries)) l
    → All (λ e. (mark_consumed ok now e.code by s).1 ≡ true) l
Open_mark ok now by s [] a = tt
Open_mark ok now by s (e ∷ l) a =
    ((mark_consumed-Open ok now e.code by s).1 a.0, Open_mark ok now by s l a.1)

-- Every code that `ActiveList` shows in a well-formed store can be redeemed at that time.
pub active_list-mark :
    (ok : Bool) (now : ℕ) (by : Str) (s : Store)
    → Valid s.entries
    → All (λ e. (mark_consumed ok now e.code by s).1 ≡ true) (active_list now s.entries)
active_list-mark ok now by s v =
    Open_mark ok now by s (active_list now s.entries)
      (active-Open now s.entries s.entries v.distinct v.rows (λ c e h. h))
