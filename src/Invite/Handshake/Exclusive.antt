-- ===== src/Invite/Handshake/Exclusive.antt =====
-- internal/invite/manager.go: overlapping handshakes accept a code at most once.
use mathlib.Core.Path.{◌≡◌, refl, sym, ◌∙◌, ap}
use opencom.Base.{
  ℕ, ◌+◌, ◌≤◌, Bool, true, false, Option, some, List, [], ◌∷◌, ◌++◌, str_eq, ◌==◌, ◌&&◌, arith, ltb,
  ◌≢◌, Bool-cases, inl, inr,
}
use opencom.Invite.Code.{Code}
use opencom.Invite.Store.{Entry, Entries, Store, mark_consumed, unmark_consumed, get}
use opencom.Invite.Store.Laws.{Op, unmark_op, step, locked, step-entries}
use opencom.Invite.Store.Once.{
  Open, mark_consumed-Open, taken_by, get-mark, mark_consumed_no, Spares, locked-kept,
  unmark_entry-kept,
}
use opencom.Invite.Handshake.Race.{
  Phase, checked, marked, accepted, rejected, Handler, System, SystemStep, arrive, mark,
  friend_added, friend_failed, other, SystemRun, stop, next, count, one_if, holds, is_accepted,
}

count-middle :
    (p : Phase → Bool) (c : Code) (pre post : List Handler) (h : Handler)
    → count p c (pre ++ h ∷ post) ≡ one_if (h.code == c && p h.phase) + count p c (pre ++ post)
count-middle p c [] post h = refl
count-middle p c (g ∷ pre) post h = omega (arith, count-middle p c pre post h)

record Consumed (o : Option Entry) : Type 0 where
  entry : Entry
  found : o ≡ some entry
  used : entry.consumed ≡ true

-- At most one handler holds the code, and while one does, the code is consumed.
record Exclusive (c : Code) (s : System) : Type 0 where
  single : count holds c s.handlers ≤ 1
  held : count holds c s.handlers ≡ 1 → Consumed (get c s.store.entries)

carry :
    {c : Code} (s t : System)
    → count holds c t.handlers ≡ count holds c s.handlers
    → get c t.store.entries ≡ get c s.store.entries
    → Exclusive c s
    → Exclusive c t
carry {c} s t n e i = record {
  single = omega (arith, i.single);
  held = λ one.
      let k = i.held (sym n ∙ one) in
      record { entry = k.entry; found = e ∙ k.found; used = k.used };
}

-- Moving one handler from a phase to another.
moved :
    (c : Code) (l pre post : List Handler) (h : Handler) (q : Phase)
    → l ≡ pre ++ h ∷ post
    → (count holds c l ≡ one_if (h.code == c && holds h.phase) + count holds c (pre ++ post))
      × (count holds c (pre ++ record h { phase = q } ∷ post)
          ≡ one_if (h.code == c && holds q) + count holds c (pre ++ post))
moved c l pre post h q e = (
  ap (count holds c) e ∙ count-middle holds c pre post h,
  count-middle holds c pre post (record h { phase = q }),
)

same_held :
    (x p q : Bool) (a b n : ℕ)
    → x && p ≡ x && q
    → a ≡ one_if (x && p) + n
    → b ≡ one_if (x && q) + n
    → b ≡ a
same_held x p q a b n e ha hb = hb ∙ ap (λ t. one_if t + n) (sym e) ∙ sym ha

mark_no :
    (c : Code) (s : System) (pre post : List Handler) (h : Handler) (ok : Bool) (now : ℕ)
    → s.handlers ≡ pre ++ h ∷ post
    → h.phase ≡ checked
    → (mark_consumed ok now h.code h.remote s.store).1 ≡ false
    → Exclusive c s
    → Exclusive c (record {
      store = (mark_consumed ok now h.code h.remote s.store).0;
      handlers = pre ++ record h { phase = rejected } ∷ post;
    })
mark_no c s pre post h ok now e at fails i =
    let (before, after) = moved c s.handlers pre post h rejected e in
    carry s
      (record {
        store = (mark_consumed ok now h.code h.remote s.store).0;
        handlers = pre ++ record h { phase = rejected } ∷ post;
      })
      (same_held (h.code == c) (holds h.phase) false (count holds c s.handlers)
        (count holds c (pre ++ record h { phase = rejected } ∷ post)) (count holds c (pre ++ post))
        (rw at refl) before after)
      (ap (get c) (mark_consumed_no ok now h.code h.remote s.store fails)) i

differ :
    (o : Option Entry) (e f : Entry)
    → o ≡ some e
    → o ≡ some f
    → e.consumed ≡ true
    → f.consumed ≢ false
differ o e f he hf used unused = ground arith

none_holds :
    (c code : Code) (now n : ℕ) (m : Entries)
    → (code == c) ≡ true
    → Open now (get code m)
    → n ≤ 1
    → (n ≡ 1 → Consumed (get c m))
    → n ≡ 0
none_holds c code now n m same o small held = elim (Bool-cases (ltb 0 n)) [
  | inl pos ↦
      let k : Consumed (get c m) = held (ground arith) in
      let there : get c m ≡ some o.entry =
        ap (λ q. get q m) (sym ((str_eq.eqb_iff code c).0 same)) ∙ o.found in
      absurd (differ (get c m) k.entry o.entry k.found there k.used o.unused)
  | inr none_yet ↦ ground arith
]

now_one :
    (x p : Bool) (a b n : ℕ)
    → x ≡ true
    → a ≡ 0
    → a ≡ one_if (x && p) + n
    → b ≡ one_if (x && true) + n
    → b ≡ 1
now_one x p a b n e zero_before ha hb = ground arith

now_none :
    (x p : Bool) (a b n : ℕ)
    → x ≡ true
    → p ≡ true
    → a ≤ 1
    → a ≡ one_if (x && p) + n
    → b ≡ one_if (x && false) + n
    → b ≡ 0
now_none x p a b n e at small ha hb = ground arith

unmark_other :
    (ok : Bool) (q c : Code) (s : Store)
    → (q == c) ≡ false
    → get c (unmark_consumed ok q s).0.entries ≡ get c s.entries
unfolding step locked
unmark_other ok q c s apart =
    ap (get c) (step-entries (unmark_op ok q) s)
    ∙ unmark_entry-kept (get q s.entries) q c s.entries apart

mark_yes :
    (c : Code) (s : System) (pre post : List Handler) (h : Handler) (ok : Bool) (now : ℕ)
    → s.handlers ≡ pre ++ h ∷ post
    → h.phase ≡ checked
    → Open now (get h.code s.store.entries)
    → Exclusive c s
    → Exclusive c (record {
      store = (mark_consumed ok now h.code h.remote s.store).0;
      handlers = pre ++ record h { phase = marked } ∷ post;
    })
mark_yes c s pre post h ok now e at o i =
    let (before, after) = moved c s.handlers pre post h marked e in
    let found = get-mark ok now h.code h.remote s.store o c in
    elim (Bool-cases (h.code == c)) [
      | inl same ↦
          let none_before : count holds c s.handlers ≡ 0 =
            none_holds c h.code now (count holds c s.handlers) s.store.entries same o i.single
              i.held in
          let one_after : count holds c (pre ++ record h { phase = marked } ∷ post) ≡ 1 =
            now_one (h.code == c) (holds h.phase) (count holds c s.handlers)
              (count holds c (pre ++ record h { phase = marked } ∷ post))
              (count holds c (pre ++ post)) same none_before before after in
          record {
            single = omega (arith, one_after);
            held = λ one. record {
              entry = taken_by h.remote o.entry;
              found = found ∙ rw same refl;
              used = refl;
            };
          }
      | inr apart ↦
          carry s
            (record {
              store = (mark_consumed ok now h.code h.remote s.store).0;
              handlers = pre ++ record h { phase = marked } ∷ post;
            })
            (same_held (h.code == c) (holds h.phase) true (count holds c s.handlers)
              (count holds c (pre ++ record h { phase = marked } ∷ post))
              (count holds c (pre ++ post)) (rw apart refl) before after)
            (found ∙ rw apart refl) i
    ]

failed_step :
    (c : Code) (s : System) (pre post : List Handler) (h : Handler) (ok : Bool)
    → s.handlers ≡ pre ++ h ∷ post
    → h.phase ≡ marked
    → Exclusive c s
    → Exclusive c (record {
      store = (unmark_consumed ok h.code s.store).0;
      handlers = pre ++ record h { phase = rejected } ∷ post;
    })
failed_step c s pre post h ok e at i =
    let (before, after) = moved c s.handlers pre post h rejected e in
    let t : System = record {
      store = (unmark_consumed ok h.code s.store).0;
      handlers = pre ++ record h { phase = rejected } ∷ post;
    } in
    elim (Bool-cases (h.code == c)) [
      | inl same ↦
          let none_after : count holds c t.handlers ≡ 0 =
            now_none (h.code == c) (holds h.phase) (count holds c s.handlers)
              (count holds c t.handlers) (count holds c (pre ++ post)) same (ap holds at) i.single
              before after in
          record {
            single = omega (arith, none_after);
            held = λ one. absurd (omega (arith, none_after));
          }
      | inr apart ↦
          carry s t
            (same_held (h.code == c) (holds h.phase) false (count holds c s.handlers)
              (count holds c t.handlers) (count holds c (pre ++ post)) (rw apart refl) before after)
            (unmark_other ok h.code c s.store apart) i
    ]

other_step :
    (c : Code) (s : System) (op : Op)
    → Spares c op
    → Exclusive c s
    → Exclusive c (record s { store = (step op s.store).0 })
other_step c s op apart i = record {
  single = i.single;
  held = λ one.
      let k = i.held one in
      record {
        entry = k.entry;
        found =
            ap (get c) (step-entries op s.store)
            ∙ locked-kept op c s.store.entries k.entry apart k.found k.used;
        used = k.used;
      };
}

not_counted : (x : Bool) (n : ℕ) → one_if (x && false) + n ≡ n
not_counted x n = ground arith

step-Exclusive : {c : Code} {s t : System} → SystemStep c s t → Exclusive c s → Exclusive c t
step-Exclusive {c} (arrive s code remote) i =
    carry s
      (record s {
        handlers = record { code = code; remote = remote; phase = checked } ∷ s.handlers;
      })
      (not_counted (code == c) (count holds c s.handlers)) refl i
step-Exclusive {c} (mark s pre post h ok now e at) i =
    elim (Bool-cases (mark_consumed ok now h.code h.remote s.store).1) [
      | inl wins ↦ rw wins (
          mark_yes c s pre post h ok now e at
            ((mark_consumed-Open ok now h.code h.remote s.store).0 wins) i)
      | inr fails ↦ rw fails (mark_no c s pre post h ok now e at fails i)
    ]
step-Exclusive {c} (friend_added s pre post h e at) i =
    let (before, after) = moved c s.handlers pre post h accepted e in
    carry s (record s { handlers = pre ++ record h { phase = accepted } ∷ post })
      (same_held (h.code == c) (holds h.phase) true (count holds c s.handlers)
        (count holds c (pre ++ record h { phase = accepted } ∷ post)) (count holds c (pre ++ post))
        (rw at refl) before after)
      refl i
step-Exclusive {c} (friend_failed s pre post h ok e at) i = failed_step c s pre post h ok e at i
step-Exclusive {c} (other s op apart) i = other_step c s op apart i

run-Exclusive : {c : Code} {s t : System} → SystemRun c s t → Exclusive c s → Exclusive c t
run-Exclusive stop i = i
run-Exclusive (next st rest) i = run-Exclusive rest (step-Exclusive st i)

accepted_one :
    (c : Code) (p : Phase) (x : Bool) (l : List Handler)
    → count is_accepted c l ≤ count holds c l
    → one_if (x && is_accepted p) + count is_accepted c l ≤ one_if (x && holds p) + count holds c l
accepted_one c checked x l h = ground arith
accepted_one c marked x l h = ground arith
accepted_one c accepted x l h = ground arith
accepted_one c rejected x l h = ground arith

accepted_le : (c : Code) (l : List Handler) → count is_accepted c l ≤ count holds c l
accepted_le c [] = omega arith
accepted_le c (h ∷ l) = accepted_one c h.phase (h.code == c) l (accepted_le c l)

-- However the handlers' calls interleave, at most one handshake for a code is accepted, as long as
-- nothing else adds, unmarks or removes the code.
pub accepted_once :
    (c : Code) (s t : System)
    → s.handlers ≡ []
    → SystemRun c s t
    → count is_accepted c t.handlers ≤ 1
accepted_once c s t none_yet path =
    let empty : count holds c s.handlers ≡ 0 = ap (count holds c) none_yet in
    let start : Exclusive c s = record {
      single = omega (arith, empty);
      held = λ one. absurd (omega (arith, empty));
    } in
    omega (arith, accepted_le c t.handlers, (run-Exclusive path start).single)
