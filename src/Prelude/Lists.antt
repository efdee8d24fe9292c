-- ===== src/Prelude/Lists.antt =====
-- Lists measured by native numbers and filtered by Boolean tests.
use Prim.Native.Nat.{ℕ, suc, ◌+◌}
use mathlib.Core.Path.{◌≡◌}
use mathlib.Core.Bool.{Bool, false, ◌||◌}
use mathlib.Core.List.{List, [], ◌∷◌, ◌++◌}
use native.Mathlib.Omega.{arith}
use minicomps.Prelude.Tests.{if◌then◌else◌}

module _ {ℓ} {A : Type ℓ} where
  abbrev pub length : List A → ℕ
  length [] = 0
  length (x ∷ xs) = suc (length xs)

  pub length-append : (xs ys : List A) → length (xs ++ ys) ≡ length xs + length ys
  length-append [] ys = omega arith
  length-append (x ∷ xs) ys = omega (arith, length-append xs ys)

  -- The elements that pass a test, in order.
  abbrev pub keep : (A → Bool) → List A → List A
  keep p [] = []
  keep p (x ∷ xs) = if p x then x ∷ keep p xs else keep p xs

  abbrev pub any : (A → Bool) → List A → Bool
  any p [] = false
  any p (x ∷ xs) = p x || any p xs

  abbrev pub All {κ} : (A → Type κ) → List A → Type κ
  All P [] = Unit
  All P (x ∷ xs) = P x × All P xs

module _ {ℓ κ} {A : Type ℓ} {B : Type κ} where
  -- Two lists of one length whose elements are related in order.
  abbrev pub Pairs : (A → B → Type 0) → List A → List B → Type 0
  Pairs R [] [] = Unit {0}
  Pairs R [] (y ∷ ys) = ⊥
  Pairs R (x ∷ xs) [] = ⊥
  Pairs R (x ∷ xs) (y ∷ ys) = R x y × Pairs R xs ys
