-- ===== src/Base/Assoc.antt =====
-- Go's maps as association lists with the keys' decidable equality. The order of the list stands
-- for the order in which a `range` loop meets the keys, which Go leaves open.
use mathlib.Core.Path.{◌≡◌, refl}
use mathlib.Core.Bool.{Bool, true, false}
use mathlib.Core.Option.{Option, none, some}
use mathlib.Core.List.{List, [], ◌∷◌}
use Prim.Native.Nat.{suc}
use shahboard.Base.Lists.{length}
use native.Mathlib.Omega.{arith}
use shahboard.Base.Tests.{holds, if◌then◌else◌}

-- Is the key one of the list?
abbrev pub has {ℓ} : {K : Type ℓ} → Discrete K → K → List K → Bool
has dec k [] = false
has dec k (j ∷ js) = if holds (dec j k) then true else has dec k js

module _ {ℓ κ} {K : Type ℓ} {V : Type κ} (dec : Discrete K) where
  -- `m[k]`
  unfoldable pub lookup : K → List (K × V) → Option V
  lookup k [] = none
  lookup k ((j, v) ∷ m) = if holds (dec j k) then some v else lookup k m

  -- `m[k] = v`
  unfoldable pub insert : K → V → List (K × V) → List (K × V)
  insert k v [] = (k, v) ∷ []
  insert k v ((j, w) ∷ m) = if holds (dec j k) then (k, v) ∷ m else (j, w) ∷ insert k v m

  -- `delete(m, k)`
  unfoldable pub delete : K → List (K × V) → List (K × V)
  delete k [] = []
  delete k ((j, w) ∷ m) = if holds (dec j k) then delete k m else (j, w) ∷ delete k m

  unfoldable pub delete_all : List K → List (K × V) → List (K × V)
  delete_all [] m = m
  delete_all (k ∷ ks) m = delete_all ks (delete k m)

  pub lookup-nil : (k : K) → lookup k [] ≡ none
  unfolding lookup
  lookup-nil k = refl

  pub lookup_of_length : (k : K) (m : List (K × V)) → length m ≡ 0 → lookup k m ≡ none
  unfolding lookup
  lookup_of_length k [] h = refl
  lookup_of_length k (x ∷ m) h = ground arith

  pub length-insert_new :
      (k : K) (v : V) (m : List (K × V))
      → lookup k m ≡ none
      → length (insert k v m) ≡ suc (length m)
  unfolding lookup insert
  length-insert_new k v [] h = refl
  length-insert_new k v (x ∷ m) h = ground (arith, length-insert_new k v m)

  pub lookup-insert :
      (k j : K) (v : V) (m : List (K × V))
      → lookup j (insert k v m) ≡ (if holds (dec k j) then some v else lookup j m)
  unfolding lookup insert
  lookup-insert k j v [] = refl
  lookup-insert k j v ((i, w) ∷ m) = ground (arith, lookup-insert k j v m)

  pub lookup-delete :
      (k j : K) (m : List (K × V))
      → lookup j (delete k m) ≡ (if holds (dec k j) then none else lookup j m)
  unfolding lookup delete
  lookup-delete k j [] = ground arith
  lookup-delete k j ((i, w) ∷ m) = ground (arith, lookup-delete k j m)

  pub lookup-delete_all :
      (ks : List K) (j : K) (m : List (K × V))
      → lookup j (delete_all ks m) ≡ (if has dec j ks then none else lookup j m)
  unfolding delete_all
  lookup-delete_all [] j m = refl
  lookup-delete_all (k ∷ ks) j m =
      ground (arith, lookup-delete_all ks j (delete k m), lookup-delete k j m)

pub ruleset maps = (lookup-insert, lookup-delete, lookup-delete_all)
