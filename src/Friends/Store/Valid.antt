-- ===== src/Friends/Store/Valid.antt =====
-- internal/friends/store.go: no two friends share a name or a peer ID.
use mathlib.Core.Path.{◌≡◌, refl, sym}
use opencom.Base.{
  ℕ, ◌+◌, ◌-◌, Bool, true, false, Option, none, some, List, [], ◌∷◌, Str, str_eq, ◌==◌,
  if◌then◌else◌, arith, str_beq_iff, inl, inr, Option-cases, ◌≢◌,
}
use opencom.Friends.Store.{
  Friend, Store, StoreError, persist, clash, append, add, add_unless, splice, remove, replace_with,
  rename_at, Scan, taken, at, rename_scan, set_name, rename,
}

abbrev pub AllNames : Str → List Friend → Type 0
AllNames n [] = Unit
AllNames n (f ∷ l) = (f.name ≢ n) × AllNames n l

abbrev pub AllPeers : Str → List Friend → Type 0
AllPeers n [] = Unit
AllPeers n (f ∷ l) = (f.peer_id ≢ n) × AllPeers n l

abbrev pub Unique : List Friend → Type 0
Unique [] = Unit
Unique (f ∷ l) = AllNames f.name l × AllPeers f.peer_id l × Unique l

clash-none :
    (f : Friend) (l : List Friend) → clash f l ≡ none → AllNames f.name l × AllPeers f.peer_id l
unfolding clash
clash-none f [] h = (tt, tt)
clash-none f (g ∷ l) h =
    ground (arith, str_beq_iff g.name f.name, str_beq_iff g.peer_id f.peer_id, clash-none f l)

append-AllNames :
    (n : Str) (l : List Friend) (f : Friend) → f.name ≢ n → AllNames n l → AllNames n (append l f)
unfolding append
append-AllNames n [] f h a = (h, tt)
append-AllNames n (g ∷ l) f h a = (a.0, append-AllNames n l f h a.1)

append-AllPeers :
    (n : Str) (l : List Friend) (f : Friend)
    → f.peer_id ≢ n
    → AllPeers n l
    → AllPeers n (append l f)
unfolding append
append-AllPeers n [] f h a = (h, tt)
append-AllPeers n (g ∷ l) f h a = (a.0, append-AllPeers n l f h a.1)

append-Unique :
    (l : List Friend) (f : Friend)
    → AllNames f.name l
    → AllPeers f.peer_id l
    → Unique l
    → Unique (append l f)
unfolding append
append-Unique [] f n p u = (tt, tt, tt)
append-Unique (g ∷ l) f n p u = (
  append-AllNames g.name l f (λ e. n.0 (sym e)) u.0,
  append-AllPeers g.peer_id l f (λ e. p.0 (sym e)) u.1,
  append-Unique l f n.1 p.1 u.2,
)

-- What a successful removal leaves.
unfoldable pub without : Str → List Friend → List Friend
without name [] = []
without name (f ∷ l) = if f.name == name then l else f ∷ without name l

pub splice-without :
    (name : Str) (l kept : List Friend) → splice name l ≡ some kept → kept ≡ without name l
unfolding splice without
splice-without name [] kept h = cc
splice-without name (f ∷ l) kept h = elim (Option-cases (splice name l)) [
  | inl absent ↦ ground arith
  | inr (rest, found) ↦ ground (arith, splice-without name l rest found)
]

without-AllNames : (n name : Str) (l : List Friend) → AllNames n l → AllNames n (without name l)
unfolding without
without-AllNames n name [] a = a
without-AllNames n name (f ∷ l) a = ground (arith, without-AllNames n name l a.1)

without-AllPeers : (n name : Str) (l : List Friend) → AllPeers n l → AllPeers n (without name l)
unfolding without
without-AllPeers n name [] a = a
without-AllPeers n name (f ∷ l) a = ground (arith, without-AllPeers n name l a.1)

without-Unique : (name : Str) (l : List Friend) → Unique l → Unique (without name l)
unfolding without
without-Unique name [] u = u
without-Unique name (f ∷ l) u = ground (
  arith,
  without-AllNames f.name name l u.0,
  without-AllPeers f.peer_id name l u.1,
  without-Unique name l u.2,
)

set_name-AllNames :
    (n new : Str) (i : ℕ) (l : List Friend) → new ≢ n → AllNames n l → AllNames n (set_name i new l)
unfolding set_name
set_name-AllNames n new i [] h a = a
set_name-AllNames n new i (f ∷ l) h a = ground (arith, set_name-AllNames n new (i - 1) l h a.1)

set_name-AllPeers :
    (n new : Str) (i : ℕ) (l : List Friend) → AllPeers n l → AllPeers n (set_name i new l)
unfolding set_name
set_name-AllPeers n new i [] a = a
set_name-AllPeers n new i (f ∷ l) a = ground (arith, set_name-AllPeers n new (i - 1) l a.1)

set_name-Unique :
    (new : Str) (i : ℕ) (l : List Friend) → AllNames new l → Unique l → Unique (set_name i new l)
unfolding set_name
set_name-Unique new i [] a u = u
set_name-Unique new i (f ∷ l) a u = ground (
  arith,
  set_name-AllNames f.name new (i - 1) l,
  set_name-AllPeers f.peer_id new (i - 1) l u.1,
  set_name-Unique new (i - 1) l a.1 u.2,
)

-- The scan fails as soon as the new name is met.
rename_scan-AllNames :
    (old new : Str) (i : ℕ) (idx : Option ℕ) (l : List Friend) (r : Option ℕ)
    → rename_scan old new i idx l ≡ at r
    → AllNames new l
unfolding rename_scan
rename_scan-AllNames old new i idx [] r h = tt
rename_scan-AllNames old new i idx (f ∷ l) r h = ground (
  arith,
  str_beq_iff f.name new,
  rename_scan-AllNames old new (i + 1) (if f.name == old then some i else idx) l r,
)

persist-friends : (ok : Bool) (s : Store) → (persist ok s).0.friends ≡ s.friends
unfolding persist
persist-friends true s = refl
persist-friends false s = refl

-- The mutations, with the outcome of the write.
pub data Op : Type 0 where
  add_op : Bool → Friend → Op
  remove_op : Bool → Str → Op
  rename_op : Bool → Str → Str → Op

unfoldable pub step : Op → Store → Store × Option StoreError
step (add_op ok f) s = add ok f s
step (remove_op ok name) s = remove ok name s
step (rename_op ok old new) s = rename ok old new s

unfoldable pub run : List Op → Store → Store
run [] s = s
run (op ∷ ops) s = run ops (step op s).0

add_unless-Unique :
    (o : Option StoreError) (ok : Bool) (f : Friend) (s : Store)
    → clash f s.friends ≡ o
    → Unique s.friends
    → Unique (add_unless o ok f s).0.friends
unfolding add_unless
add_unless-Unique (some err) ok f s e u = u
add_unless-Unique none ok f s e u =
    let (n, p) = clash-none f s.friends e in
    rw (persist-friends ok (record s { friends = append s.friends f }))
      (append-Unique s.friends f n p u)

replace_with-Unique :
    (o : Option (List Friend)) (ok : Bool) (name : Str) (s : Store)
    → splice name s.friends ≡ o
    → Unique s.friends
    → Unique (replace_with o ok s).0.friends
unfolding replace_with
replace_with-Unique none ok name s e u = u
replace_with-Unique (some kept) ok name s e u =
    rw (persist-friends ok (record s { friends = kept }), splice-without name s.friends kept e)
      (without-Unique name s.friends u)

rename_at-Unique :
    (r : Scan) (ok : Bool) (old new : Str) (s : Store)
    → rename_scan old new 0 none s.friends ≡ r
    → Unique s.friends
    → Unique (rename_at r ok new s).0.friends
unfolding rename_at
rename_at-Unique taken ok old new s e u = u
rename_at-Unique (at none) ok old new s e u = u
rename_at-Unique (at (some i)) ok old new s e u =
    rw (persist-friends ok (record s { friends = set_name i new s.friends }))
      (set_name-Unique new i s.friends (rename_scan-AllNames old new 0 none s.friends _ e) u)

pub step-Unique : (op : Op) (s : Store) → Unique s.friends → Unique (step op s).0.friends
unfolding step add remove rename
step-Unique (add_op ok f) s u = add_unless-Unique _ ok f s refl u
step-Unique (remove_op ok name) s u = replace_with-Unique _ ok name s refl u
step-Unique (rename_op ok old new) s u = rename_at-Unique _ ok old new s refl u

-- Whatever is added, removed or renamed, and whichever writes fail, no two friends of a list that
-- starts so ever share a name or a peer ID.
pub run-Unique : (ops : List Op) (s : Store) → Unique s.friends → Unique (run ops s).friends
unfolding run
run-Unique [] s u = u
run-Unique (op ∷ ops) s u = run-Unique ops (step op s).0 (step-Unique op s u)
