-- ===== src/Common/Lists.antt =====
-- Lists measured by native numbers, and the searches that the program and its SQL make.
use Prim.Native.Nat.{ℕ, suc, ◌+◌}
use mathlib.Core.Path.{◌≡◌, refl}
use mathlib.Core.Bool.{Bool, true, false, ◌||◌}
use mathlib.Core.Option.{Option, none, some}
use mathlib.Core.List.{List, [], ◌∷◌, ◌++◌}
use native.Mathlib.Omega.{arith}
use peercontext.Common.Tests.{if◌then◌else◌}

module _ {ℓ} {A : Type ℓ} where
  abbrev pub length : List A → ℕ
  length [] = 0
  length (x ∷ xs) = suc (length xs)

  pub length-append : (xs ys : List A) → length (xs ++ ys) ≡ length xs + length ys
  length-append [] ys = omega arith
  length-append (x ∷ xs) ys = omega (arith, length-append xs ys)

module _ {ℓ} {A : Type ℓ} (p : A → Bool) where
  -- the elements that pass the test, in order
  unfoldable pub select : List A → List A
  select [] = []
  select (x ∷ xs) = if p x then x ∷ select xs else select xs

  -- the first element that passes
  unfoldable pub find : List A → Option A
  find [] = none
  find (x ∷ xs) = if p x then some x else find xs

  unfoldable pub any : List A → Bool
  any [] = false
  any (x ∷ xs) = p x || any xs

  -- how many pass
  unfoldable pub count : List A → ℕ
  count [] = 0
  count (x ∷ xs) = if p x then suc (count xs) else count xs

-- A property of every element.
abbrev pub All {ℓ κ} : {A : Type ℓ} → (A → Type κ) → List A → Type κ
All P [] = Unit
All P (x ∷ xs) = P x × All P xs

module _ {ℓ} {A : Type ℓ} (p : A → Bool) where
  pub find_passes : (xs : List A) (x : A) → find p xs ≡ some x → p x ≡ true
  unfolding find
  find_passes [] x h = ground arith
  find_passes (y ∷ ys) x h = ground (arith, find_passes ys x)

  pub any-false-find : (xs : List A) → any p xs ≡ false → find p xs ≡ none
  unfolding find any
  any-false-find [] h = refl
  any-false-find (y ∷ ys) h = ground (arith, any-false-find ys)

  pub any-imply :
      (q : A → Bool) (xs : List A)
      → ((x : A) → p x ≡ true → q x ≡ true)
      → any p xs ≡ true
      → any q xs ≡ true
  unfolding any
  any-imply q [] imply h = h
  any-imply q (x ∷ xs) imply h = ground (arith, imply x, any-imply q xs imply)

  pub any-false-All : (xs : List A) → any p xs ≡ false → All (λ x. p x ≡ false) xs
  unfolding any
  any-false-All [] h = tt
  any-false-All (x ∷ xs) h = (ground arith, any-false-All xs (ground arith))

  pub any-select_not :
      (q : A → Bool) (xs : List A)
      → ((x : A) → q x ≡ true → p x ≡ false)
      → any p (select q xs) ≡ false
  unfolding select any
  any-select_not q [] h = refl
  any-select_not q (x ∷ xs) h = ground (arith, any-select_not q xs h, h x)

  pub any-select : (q : A → Bool) (xs : List A) → any p xs ≡ false → any p (select q xs) ≡ false
  unfolding select any
  any-select q [] h = refl
  any-select q (x ∷ xs) h = ground (arith, any-select q xs)

  pub find-select :
      (q : A → Bool) (xs : List A)
      → ((x : A) → p x ≡ true → q x ≡ true)
      → find p (select q xs) ≡ find p xs
  unfolding select find
  find-select q [] h = refl
  find-select q (x ∷ xs) h = ground (arith, find-select q xs h, h x)

  pub All-select {κ} : (P : A → Type κ) (xs : List A) → All P xs → All P (select p xs)
  unfolding select
  All-select P [] h = tt
  All-select P (x ∷ xs) h = ground (arith, All-select P xs h.1)

  pub select-select :
      (q : A → Bool) (xs : List A)
      → ((x : A) → p x ≡ true → q x ≡ true)
      → select p (select q xs) ≡ select p xs
  unfolding select
  select-select q [] h = refl
  select-select q (x ∷ xs) h = ground (arith, select-select q xs h, h x)
