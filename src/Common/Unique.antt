-- ===== src/Common/Unique.antt =====
-- Lists in which no two elements are the same by a test, as the keys of a table demand.
use mathlib.Core.Path.{◌≡◌, refl}
use mathlib.Core.Bool.{Bool, false}
use mathlib.Core.List.{List, [], ◌∷◌, ◌++◌}
use native.Mathlib.Omega.{arith}
use peercontext.Common.Lists.{select, any, any-select}

-- No element is the same as a later one.
abbrev pub Unique : {A : Type 0} → (A → A → Bool) → List A → Type 0
Unique same [] = Unit
Unique same (x ∷ xs) = (any (same x) xs ≡ false) × Unique same xs

module _ {A : Type 0} where
  pub any-append :
      (p : A → Bool) (xs : List A) (y : A)
      → any p xs ≡ false
      → p y ≡ false
      → any p (xs ++ y ∷ []) ≡ false
  unfolding any
  any-append p [] y h k = ground arith
  any-append p (x ∷ xs) y h k = ground (arith, any-append p xs y)

  pub any_congr : (p q : A → Bool) (xs : List A) → ((x : A) → p x ≡ q x) → any p xs ≡ any q xs
  unfolding any
  any_congr p q [] h = refl
  any_congr p q (x ∷ xs) h = ground (arith, any_congr p q xs h, h x)

module _ {A : Type 0} (same : A → A → Bool) (symmetric : (x y : A) → same x y ≡ same y x) where
  pub Unique-append :
      (xs : List A) (y : A) → Unique same xs → any (same y) xs ≡ false → Unique same (xs ++ y ∷ [])
  unfolding any
  Unique-append [] y u h = (ground arith, tt)
  Unique-append (x ∷ xs) y u h = (
    any-append (same x) xs y u.0 (ground (arith, symmetric x y)),
    Unique-append xs y u.1 (ground arith),
  )

module _ {A : Type 0} (same : A → A → Bool) where
  pub Unique-select : (p : A → Bool) (xs : List A) → Unique same xs → Unique same (select p xs)
  unfolding select
  Unique-select p [] u = tt
  Unique-select p (x ∷ xs) u = ground (arith, any-select (same x) p xs u.0, Unique-select p xs u.1)
