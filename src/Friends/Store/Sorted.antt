-- ===== src/Friends/Store/Sorted.antt =====
-- internal/friends/store.go: `List` is the same friends, sorted by name.
use mathlib.Core.Path.{◌≡◌, refl}
use mathlib.Core.List.{Perm}
use mathlib.Core.List.Perm
use opencom.Base.{true, false, List, [], ◌∷◌, Str, arith, Bool-cases, inl, inr}
use opencom.Friends.Store.{Friend, str_ltb, insert_by_name, list}

str_ltb_asymm : (s t : Str) → str_ltb s t ≡ true → str_ltb t s ≡ false
unfolding str_ltb
str_ltb_asymm [] [] h = refl
str_ltb_asymm [] (b ∷ t) h = refl
str_ltb_asymm (a ∷ s) [] h = cc
str_ltb_asymm (a ∷ s) (b ∷ t) h = ground (arith, str_ltb_asymm s t)

-- No friend has a smaller name than the one before it.
abbrev NotBefore : Friend → List Friend → Type 0
NotBefore f [] = Unit
NotBefore f (g ∷ _) = str_ltb g.name f.name ≡ false

abbrev pub IsSorted : List Friend → Type 0
IsSorted [] = Unit
IsSorted (f ∷ l) = NotBefore f l × IsSorted l

insert_by_name-NotBefore :
    (g f : Friend) (l : List Friend)
    → str_ltb f.name g.name ≡ false
    → NotBefore g l
    → NotBefore g (insert_by_name f l)
unfolding insert_by_name
insert_by_name-NotBefore g f [] h n = h
insert_by_name-NotBefore g f (k ∷ l) h n = ground arith

insert_by_name-IsSorted :
    (f : Friend) (l : List Friend) → IsSorted l → IsSorted (insert_by_name f l)
unfolding insert_by_name
insert_by_name-IsSorted f [] s = (tt, tt)
insert_by_name-IsSorted f (g ∷ l) s = elim (Bool-cases (str_ltb g.name f.name)) [
  | inl less ↦ rw less (
    insert_by_name-NotBefore g f l (str_ltb_asymm g.name f.name less) s.0,
    insert_by_name-IsSorted f l s.1,
  )
  | inr other ↦ rw other (other, s)
]

insert_by_name-perm : (f : Friend) (l : List Friend) → Perm (insert_by_name f l) (f ∷ l)
unfolding insert_by_name
insert_by_name-perm f [] = Perm.refl (f ∷ [])
insert_by_name-perm f (g ∷ l) = elim (Bool-cases (str_ltb g.name f.name)) [
  | inl less ↦ rw less (Perm.trans (Perm.cons g (insert_by_name-perm f l)) (Perm.swap f g l))
  | inr other ↦ rw other (Perm.refl (f ∷ g ∷ l))
]

-- `List` gives every friend as often as the store holds it, in the order of the names.
pub list-perm-IsSorted : (l : List Friend) → Perm (list l) l × IsSorted (list l)
unfolding list
list-perm-IsSorted [] = (Perm.refl [], tt)
list-perm-IsSorted (f ∷ l) =
    let (same, sorted) = list-perm-IsSorted l in
    (
      Perm.trans (insert_by_name-perm f (list l)) (Perm.cons f same),
      insert_by_name-IsSorted f (list l) sorted,
    )
