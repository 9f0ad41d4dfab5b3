-- ===== src/Common/Dict.antt =====
-- Go's maps as association lists. A map is never observed in the order of its entries, except
-- through a `range` that deletes or that a sort follows.
use mathlib.Core.Path.{◌≡◌, refl}
use mathlib.Core.Bool.{Bool, false}
use mathlib.Core.Option.{Option, none, some}
use mathlib.Core.List.{List, [], ◌∷◌}
use native.Mathlib.Omega.{arith}
use peercontext.Common.Tests.{Eq, ◌==◌, ==_iff, ==_refl, if◌then◌else◌}

abbrev pub Dict {ℓ κ} : Type ℓ → Type κ → Type (ℓ ⊔ κ)
Dict K V = List (K × V)

module _ {ℓ κ} {K : Type ℓ} {V : Type κ} ⦃e : Eq K⦄ where
  -- v, ok := m[k]
  unfoldable pub lookup : K → Dict K V → Option V
  lookup k [] = none
  lookup k ((j, v) ∷ rest) = if j == k then some v else lookup k rest

  -- m[k] = v
  unfoldable pub insert : K → V → Dict K V → Dict K V
  insert k v [] = (k, v) ∷ []
  insert k v ((j, w) ∷ rest) = if j == k then (k, v) ∷ rest else (j, w) ∷ insert k v rest

  -- delete(m, k)
  unfoldable pub delete : K → Dict K V → Dict K V
  delete k [] = []
  delete k ((j, v) ∷ m) = let rest = delete k m in if j == k then rest else (j, v) ∷ rest

  -- for k, v := range m { if drop(k, v) { delete(m, k) } }
  unfoldable pub delete_if : (K → V → Bool) → Dict K V → Dict K V
  delete_if drop [] = []
  delete_if drop ((j, v) ∷ m) =
      let rest = delete_if drop m in if drop j v then rest else (j, v) ∷ rest

  pub lookup-insert :
      (k j : K) (v : V) (d : Dict K V)
      → lookup j (insert k v d) ≡ (if k == j then some v else lookup j d)
  unfolding insert lookup
  lookup-insert k j v [] = refl
  lookup-insert k j v (entry ∷ d) =
      ground (arith, ==_iff k j, ==_iff entry.0 k, ==_iff entry.0 j, lookup-insert k j v d)

  pub lookup-delete :
      (k j : K) (m : Dict K V) → lookup j (delete k m) ≡ (if k == j then none else lookup j m)
  unfolding lookup delete
  lookup-delete k j [] = ground arith
  lookup-delete k j ((i, w) ∷ m) =
      ground (arith, ==_iff k j, ==_iff i k, ==_iff i j, lookup-delete k j m)

  pub lookup-insert_self : (k : K) (v : V) (m : Dict K V) → lookup k (insert k v m) ≡ some v
  lookup-insert_self k v m = rw (lookup-insert k k v m, ==_refl k)

  -- An entry that the test spares stays.
  pub lookup-delete_if :
      (drop : K → V → Bool) (k : K) (v : V) (m : Dict K V)
      → lookup k m ≡ some v
      → drop k v ≡ false
      → lookup k (delete_if drop m) ≡ some v
  unfolding lookup delete_if
  lookup-delete_if drop k v [] h n = ground arith
  lookup-delete_if drop k v ((i, w) ∷ m) h n =
      ground (arith, ==_iff i k, lookup-delete_if drop k v m)

pub ruleset dict_laws = (lookup-insert, lookup-delete, lookup-insert_self)
