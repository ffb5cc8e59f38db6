-- ===== src/Base/Entries.antt =====
-- A predicate on every entry of a map, through insertion, deletion and lookup.
use mathlib.Core.Path.{◌≡◌, subst}
use mathlib.Core.Logic.{inl, inr}
use mathlib.Core.Bool.{true, false}
use mathlib.Core.Option.{some}
use mathlib.Core.List.{List, [], ◌∷◌}
use native.Mathlib.Omega.{arith}
use shahboard.Base.Tests.{holds, Bool-cases}
use shahboard.Base.Lists.{All}
use shahboard.Base.Assoc.{lookup, insert, delete, delete_all}

module _ {ℓ κ μ} {K : Type ℓ} {V : Type κ} (dec : Discrete K) (P : K × V → Type μ) where
  pub All-insert :
      (k : K) (v : V) (m : List (K × V)) → P (k, v) → All P m → All P (insert dec k v m)
  unfolding insert
  All-insert k v [] p h = (p, tt)
  All-insert k v ((j, w) ∷ m) p h = elim (Bool-cases (holds (dec j k))) [
    | inl e ↦ rw e (p, h.1)
    | inr e ↦ rw e (h.0, All-insert k v m p h.1)
  ]

  pub All-delete : (k : K) (m : List (K × V)) → All P m → All P (delete dec k m)
  unfolding delete
  All-delete k [] h = tt
  All-delete k ((j, w) ∷ m) h = elim (Bool-cases (holds (dec j k))) [
    | inl e ↦ rw e (All-delete k m h.1)
    | inr e ↦ rw e (h.0, All-delete k m h.1)
  ]

  pub All-delete_all : (ks : List K) (m : List (K × V)) → All P m → All P (delete_all dec ks m)
  unfolding delete_all
  All-delete_all [] m h = h
  All-delete_all (k ∷ ks) m h = All-delete_all ks (delete dec k m) (All-delete k m h)

  pub All-lookup : (k : K) (v : V) (m : List (K × V)) → All P m → lookup dec k m ≡ some v → P (k, v)
  unfolding lookup
  All-lookup k v [] h e = cc
  All-lookup k v ((j, w) ∷ m) h e = elim (dec j k) [
    | yes p ↦
        let t : holds (dec j k) ≡ true = ground arith in
        let q : w ≡ v = cc (rw t at e) in subst P (λ i. (p i, q i)) h.0
    | no n ↦ let f : holds (dec j k) ≡ false = ground arith in All-lookup k v m h.1 (rw f at e)
  ]
