-- ===== src/Base/Dict.antt =====
-- Go's maps as association lists. Every key stands once (`Distinct`), which `insert` and `delete`
-- keep, so that the length is Go's `len`.
use Prim.Native.Nat.{suc}
use mathlib.Core.Path.{◌≡◌, refl}
use mathlib.Core.Option
use mathlib.Core.List.{List, [], ◌∷◌}
use mathlib.Core.Option.{Option, none, some}
use mathlib.Core.Bool.{true}
use native.Mathlib.Omega.{arith}
use opencom.Base.Tests.{if◌then◌else◌, DecEq, ◌==◌, is_some}
use opencom.Base.Lists.{length}

abbrev pub Dict {ℓ κ} : Type ℓ → Type κ → Type (ℓ ⊔ κ)
Dict K V = List (K × V)

module _ {ℓ κ} {K : Type ℓ} {V : Type κ} ⦃key : DecEq K⦄ where
  -- m[k]
  unfoldable pub lookup : K → Dict K V → Option V
  lookup k [] = none
  lookup k (entry ∷ m) = if entry.0 == k then some entry.1 else lookup k m

  -- m[k] = v
  unfoldable pub insert : K → V → Dict K V → Dict K V
  insert k v [] = (k, v) ∷ []
  insert k v (entry ∷ m) = if entry.0 == k then (k, v) ∷ m else entry ∷ insert k v m

  -- delete(m, k)
  unfoldable pub delete : K → Dict K V → Dict K V
  delete k [] = []
  delete k (entry ∷ m) = let rest = delete k m in if entry.0 == k then rest else entry ∷ rest

  abbrev pub Distinct : Dict K V → Type κ
  Distinct [] = Unit
  Distinct ((k, v) ∷ m) = (lookup k m ≡ none) × Distinct m

  pub lookup-insert :
      (new q : K) (v : V) (dict : Dict K V)
      → lookup q (insert new v dict) ≡ (if new == q then some v else lookup q dict)
  unfolding insert lookup
  lookup-insert new q v [] = refl
  lookup-insert new q v ((i, w) ∷ rest) =
      ground
        (arith, lookup-insert new q v rest, key.eqb_iff i new, key.eqb_iff i q, key.eqb_iff new q)

  pub lookup-delete :
      (k j : K) (m : Dict K V) → lookup j (delete k m) ≡ (if k == j then none else lookup j m)
  unfolding lookup delete
  lookup-delete k j [] = ground arith
  lookup-delete k j ((i, w) ∷ m) =
      ground (arith, key.eqb_iff k j, key.eqb_iff i k, key.eqb_iff i j, lookup-delete k j m)

  pub delete-Distinct : (k : K) (m : Dict K V) → Distinct m → Distinct (delete k m)
  unfolding delete
  delete-Distinct k [] h = h
  delete-Distinct k ((i, w) ∷ m) h = ground (arith, lookup-delete k i m, delete-Distinct k m h.1)

  pub insert-Distinct : (k : K) (v : V) (m : Dict K V) → Distinct m → Distinct (insert k v m)
  unfolding insert lookup
  insert-Distinct k v [] h = (refl, h)
  insert-Distinct k v ((i, w) ∷ m) h =
      ground
        (arith, key.eqb_iff i k, key.eqb_iff k i, lookup-insert k i v m, insert-Distinct k v m h.1)

  pub length-insert :
      (k : K) (v : V) (m : Dict K V)
      → length (insert k v m) ≡ (if is_some (lookup k m) then length m else suc (length m))
  unfolding lookup insert
  length-insert k v [] = refl
  length-insert k v ((i, w) ∷ m) = ground (arith, length-insert k v m)

  -- Deleting an absent key changes nothing.
  pub delete_absent : (k : K) (m : Dict K V) → lookup k m ≡ none → delete k m ≡ m
  unfolding lookup delete
  delete_absent k [] h = refl
  delete_absent k ((i, w) ∷ m) h = ground (arith, delete_absent k m)

  pub length-delete :
      (k : K) (m : Dict K V)
      → Distinct m
      → length m ≡ (if is_some (lookup k m) then suc (length (delete k m)) else length (delete k m))
  unfolding lookup delete
  length-delete k [] h = refl
  length-delete k ((i, w) ∷ m) h =
      ground (arith, key.eqb_iff i k, length-delete k m h.1, delete_absent k m)

  -- The value at a key changed by a function; nothing where the key is absent.
  unfoldable pub adjust : K → (V → V) → Dict K V → Dict K V
  adjust k f [] = []
  adjust k f (entry ∷ m) =
      let rest = adjust k f m in if entry.0 == k then (entry.0, f entry.1) ∷ rest else entry ∷ rest

  pub lookup-adjust :
      (k q : K) (f : V → V) (m : Dict K V)
      → lookup q (adjust k f m) ≡ (if k == q then Option.map f (lookup q m) else lookup q m)
  unfolding lookup adjust
  lookup-adjust k q f [] = ground arith
  lookup-adjust k q f ((i, w) ∷ m) =
      ground (arith, lookup-adjust k q f m, key.eqb_iff i k, key.eqb_iff i q, key.eqb_iff k q)

  pub inserted : (k : K) (v : V) (m : Dict K V) → lookup k (insert k v m) ≡ some v
  inserted k v m = ground (arith, lookup-insert k k v m, key.eqb_iff k k)

  pub deleted : (k : K) (m : Dict K V) → lookup k (delete k m) ≡ none
  deleted k m = ground (arith, lookup-delete k k m, key.eqb_iff k k)

-- A test of a key against itself.
pub same_key {ℓ} : {K : Type ℓ} ⦃key : DecEq K⦄ (k : K) → (k == k) ≡ true
same_key ⦃key⦄ k = (key.eqb_iff k k).1 refl
