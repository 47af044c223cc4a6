-- ===== src/Friends/Store/Lookup.antt =====
-- internal/friends/store.go: what `Get` and `GetByPeerID` find after a mutation.
use mathlib.Core.Path.{◌≡◌, refl, sym, ◌∙◌, ap, subst}
use mathlib.Core.Option
use native.Mathlib.Nat.{sub-zero}
use opencom.Base.{
  ℕ, ◌+◌, ◌-◌, ◌≤◌, Bool, true, false, Option, none, some, List, [], ◌∷◌, Str, str_eq, ◌==◌,
  if◌then◌else◌, arith, str_beq_iff, ◌⊎◌, inl, inr, Bool-cases,
}
use opencom.Friends.Store.{
  Friend, Store, StoreError, write_failed, persist, clash, append, add, add_unless, get,
  get_by_peer_id, splice, remove, replace_with, Scan, taken, at, rename_scan, set_name, rename,
  rename_at,
}
use opencom.Friends.Store.Valid.{
  AllNames, Unique, without, splice-without, Op, add_op, remove_op, rename_op, step,
}

clash-get :
    (f : Friend) (l : List Friend)
    → clash f l ≡ none
    → (get f.name l ≡ none) × (get_by_peer_id f.peer_id l ≡ none)
unfolding clash get get_by_peer_id
clash-get f [] h = (refl, refl)
clash-get f (g ∷ l) h = ground (arith, clash-get f l)

get-append :
    (n : Str) (f : Friend) (l : List Friend)
    → get f.name l ≡ none
    → get n (append l f) ≡ (if f.name == n then some f else get n l)
unfolding get append
get-append n f [] h = refl
get-append n f (g ∷ l) h =
    ground (
      arith,
      str_beq_iff f.name n,
      str_beq_iff g.name n,
      str_beq_iff g.name f.name,
      get-append n f l,
    )

get_by_peer_id-append :
    (id : Str) (f : Friend) (l : List Friend)
    → get_by_peer_id f.peer_id l ≡ none
    → get_by_peer_id id (append l f) ≡ (if f.peer_id == id then some f else get_by_peer_id id l)
unfolding get_by_peer_id append
get_by_peer_id-append id f [] h = refl
get_by_peer_id-append id f (g ∷ l) h = ground (
  arith,
  str_beq_iff f.peer_id id,
  str_beq_iff g.peer_id id,
  str_beq_iff g.peer_id f.peer_id,
  get_by_peer_id-append id f l,
)

persist_ok :
    (ok : Bool) (s : Store)
    → (persist ok s).1 ≡ none
    → (persist ok s).0 ≡ record s { disk = s.friends }
unfolding persist
persist_ok true s h = refl
persist_ok false s h = cc

add_unless_ok :
    (o : Option StoreError) (ok : Bool) (f : Friend) (s : Store)
    → (add_unless o ok f s).1 ≡ none
    → (o ≡ none)
      × ((add_unless o ok f s).0.friends ≡ append s.friends f)
      × ((add_unless o ok f s).0.disk ≡ append s.friends f)
unfolding add_unless
add_unless_ok (some err) ok f s h = cc
add_unless_ok none ok f s h =
    let e = persist_ok ok (record s { friends = append s.friends f }) h in
    (refl, ap (λ (t : Store). t.friends) e, ap (λ (t : Store). t.disk) e)

-- After an `Add` that returns no error the friend is found by its name and by its peer ID, every
-- other lookup finds what it found before, and the file holds the same list as the memory.
pub get-add :
    (ok : Bool) (f : Friend) (s : Store)
    → (add ok f s).1 ≡ none
    → let s' = (add ok f s).0 in
      ((n : Str) → get n s'.friends ≡ (if f.name == n then some f else get n s.friends))
      × ((id : Str)
          → get_by_peer_id id s'.friends
            ≡ (if f.peer_id == id then some f else get_by_peer_id id s.friends))
      × (s'.disk ≡ s'.friends)
unfolding add
get-add ok f s h =
    let (free, mem, file) = add_unless_ok (clash f s.friends) ok f s h in
    let (no_name, no_peer) = clash-get f s.friends free in
    (
      λ n. rw mem (get-append n f s.friends no_name),
      λ id. rw mem (get_by_peer_id-append id f s.friends no_peer),
      file ∙ sym mem,
    )

get-AllNames : (n : Str) (l : List Friend) → AllNames n l → get n l ≡ none
unfolding get
get-AllNames n [] a = refl
get-AllNames n (f ∷ l) a = ground (arith, str_beq_iff f.name n, get-AllNames n l a.1)

get-without :
    (n m : Str) (l : List Friend)
    → Unique l
    → get m (without n l) ≡ (if n == m then none else get m l)
unfolding get without
get-without n m [] u = ground arith
get-without n m (f ∷ l) u = ground (
  arith,
  str_beq_iff f.name n,
  str_beq_iff f.name m,
  str_beq_iff n m,
  get-AllNames f.name l u.0,
  get-without n m l u.2,
)

replace_with_ok :
    (o : Option (List Friend)) (ok : Bool) (s : Store)
    → (replace_with o ok s).1 ≡ none
    → (kept : List Friend) × (o ≡ some kept)
      × ((replace_with o ok s).0.friends ≡ kept)
      × ((replace_with o ok s).0.disk ≡ kept)
unfolding replace_with
replace_with_ok none ok s h = cc
replace_with_ok (some kept) ok s h =
    let e = persist_ok ok (record s { friends = kept }) h in
    (kept, refl, ap (λ (t : Store). t.friends) e, ap (λ (t : Store). t.disk) e)

-- After a `Remove` that returns no error the name is not found, every other name is found as
-- before, and the file holds the same list as the memory.
pub get-remove :
    (ok : Bool) (n : Str) (s : Store)
    → Unique s.friends
    → (remove ok n s).1 ≡ none
    → let s' = (remove ok n s).0 in
      ((m : Str) → get m s'.friends ≡ (if n == m then none else get m s.friends))
      × (s'.disk ≡ s'.friends)
unfolding remove
get-remove ok n s u h =
    let (kept, e, mem, file) = replace_with_ok (splice n s.friends) ok s h in
    (λ m. rw (mem, splice-without n s.friends kept e) (get-without n m s.friends u), file ∙ sym mem)

scan_over :
    (old new : Str) (i k : ℕ) (idx : Option ℕ) (l : List Friend)
    → AllNames old l
    → rename_scan old new i idx l ≡ at (some k)
    → idx ≡ some k
unfolding rename_scan
scan_over old new i k idx [] a h = cc
scan_over old new i k idx (f ∷ l) a h = ground (
  arith,
  str_beq_iff f.name old,
  scan_over old new (i + 1) k (if f.name == old then some i else idx) l a.1,
)

abbrev pub renamed_to : Str → Friend → Friend
renamed_to new f = record f { name = new }

get-set_name :
    (old new m : Str) (i k : ℕ) (l : List Friend)
    → Unique l
    → rename_scan old new i none l ≡ at (some k)
    → (i ≤ k)
      × (get m (set_name (k - i) new l) ≡ (
          if new == m
          then Option.map (renamed_to new) (get old l)
          else (if old == m then none else get m l)))
unfolding rename_scan get set_name
get-set_name old new m i k [] u h = absurd (ground arith)
get-set_name old new m i k (f ∷ l) u h = elim (Bool-cases (f.name == old)) [
  | inl this ↦
      let named = (str_beq_iff f.name old).0 this in
      ground (
        arith,
        scan_over old new (i + 1) k (some i) l (subst (λ n. AllNames n l) named u.0),
        get-AllNames f.name l u.0,
        str_beq_iff f.name m,
        str_beq_iff f.name new,
        str_beq_iff old m,
        str_beq_iff new m,
      )
  | inr other ↦
      let h' : rename_scan old new (i + 1) none l ≡ at (some k) = ground arith in
      let (above, found) = get-set_name old new m (i + 1) k l u.2 h' in
      let step_back : k - i - 1 ≡ k - (i + 1) = omega arith in
      (
        omega arith,
        rw step_back (
            ground (
              arith,
              found,
              above,
              str_beq_iff f.name m,
              str_beq_iff f.name new,
              str_beq_iff f.name old,
              str_beq_iff old m,
              str_beq_iff new m,
            )),
      )
]

rename_at_ok :
    (r : Scan) (ok : Bool) (new : Str) (s : Store)
    → (rename_at r ok new s).1 ≡ none
    → (k : ℕ) × (r ≡ at (some k))
      × ((rename_at r ok new s).0.friends ≡ set_name k new s.friends)
      × ((rename_at r ok new s).0.disk ≡ set_name k new s.friends)
unfolding rename_at
rename_at_ok taken ok new s h = cc
rename_at_ok (at none) ok new s h = cc
rename_at_ok (at (some k)) ok new s h =
    let e = persist_ok ok (record s { friends = set_name k new s.friends }) h in
    (k, refl, ap (λ (t : Store). t.friends) e, ap (λ (t : Store). t.disk) e)

-- After a `Rename` that returns no error the new name finds the friend that the old name found,
-- with its name changed, the old name finds nothing, every other name finds what it found before,
-- and the file holds the same list as the memory.
pub get-rename :
    (ok : Bool) (old new : Str) (s : Store)
    → Unique s.friends
    → (rename ok old new s).1 ≡ none
    → let s' = (rename ok old new s).0 in
      ((m : Str)
        → get m s'.friends ≡ (
            if new == m
            then Option.map (renamed_to new) (get old s.friends)
            else (if old == m then none else get m s.friends)))
      × (s'.disk ≡ s'.friends)
unfolding rename
get-rename ok old new s u h =
    let (k, e, mem, file) = rename_at_ok (rename_scan old new 0 none s.friends) ok new s h in
    (λ m. rw mem (rw sub-zero at ((get-set_name old new m 0 k s.friends u e).1)), file ∙ sym mem)

add_unless_failed :
    (o : Option StoreError) (ok : Bool) (f : Friend) (s : Store) {err : StoreError}
    → (add_unless o ok f s).1 ≡ some err
    → ((add_unless o ok f s).0.disk ≡ s.disk)
      × ((err ≡ write_failed) ⊎ ((add_unless o ok f s).0 ≡ s))
unfolding add_unless persist
add_unless_failed (some e) ok f s h = (refl, inr refl)
add_unless_failed none true f s h = absurd (ground arith)
add_unless_failed none false f s h = (refl, inl (ground arith))

replace_with_failed :
    (o : Option (List Friend)) (ok : Bool) (s : Store) {err : StoreError}
    → (replace_with o ok s).1 ≡ some err
    → ((replace_with o ok s).0.disk ≡ s.disk)
      × ((err ≡ write_failed) ⊎ ((replace_with o ok s).0 ≡ s))
unfolding replace_with persist
replace_with_failed none ok s h = (refl, inr refl)
replace_with_failed (some l) true s h = absurd (ground arith)
replace_with_failed (some l) false s h = (refl, inl (ground arith))

rename_at_failed :
    (r : Scan) (ok : Bool) (new : Str) (s : Store) {err : StoreError}
    → (rename_at r ok new s).1 ≡ some err
    → ((rename_at r ok new s).0.disk ≡ s.disk)
      × ((err ≡ write_failed) ⊎ ((rename_at r ok new s).0 ≡ s))
unfolding rename_at persist
rename_at_failed taken ok new s h = (refl, inr refl)
rename_at_failed (at none) ok new s h = (refl, inr refl)
rename_at_failed (at (some k)) true new s h = absurd (ground arith)
rename_at_failed (at (some k)) false new s h = (refl, inl (ground arith))

-- A mutation that is refused for its arguments changes neither the memory nor the file; one whose
-- write fails leaves the file as it was.
pub step_failed :
    (op : Op) (s : Store) {err : StoreError}
    → (step op s).1 ≡ some err
    → ((step op s).0.disk ≡ s.disk) × ((err ≡ write_failed) ⊎ ((step op s).0 ≡ s))
unfolding step add remove rename
step_failed (add_op ok f) s h = add_unless_failed (clash f s.friends) ok f s h
step_failed (remove_op ok n) s h = replace_with_failed (splice n s.friends) ok s h
step_failed (rename_op ok old new) s h =
    rename_at_failed (rename_scan old new 0 none s.friends) ok new s h
