-- ===== src/Prelude/Maps.antt =====
-- `std::unordered_map` with keys that are pointers or ids: an association list. A new key goes to
-- the end; the order of iteration is otherwise unspecified in the source.
use Prim.Native.Nat.{ℕ}
use mathlib.Core.Path.{◌≡◌, refl}
use mathlib.Core.Option.{Option, none, some}
use mathlib.Core.List.{List, [], ◌∷◌}
use native.Mathlib.Omega.{arith}
use minicomps.Prelude.Tests.{◌==◌, if◌then◌else◌}

abbrev pub Map {ℓ} : Type ℓ → Type ℓ
Map V = List (ℕ × V)

module _ {ℓ} {V : Type ℓ} where
  unfoldable pub find : ℕ → Map V → Option V
  find k [] = none
  find k ((j, v) ∷ m) = if j == k then some v else find k m

  unfoldable pub put : ℕ → V → Map V → Map V
  put k v [] = (k, v) ∷ []
  put k v ((j, w) ∷ m) = if j == k then (k, v) ∷ m else (j, w) ∷ put k v m

  unfoldable pub keys : Map V → List ℕ
  keys [] = []
  keys ((k, v) ∷ m) = k ∷ keys m

  pub find-put :
      (k j : ℕ) (v : V) (m : Map V) → find j (put k v m) ≡ (if k == j then some v else find j m)
  unfolding find put
  find-put k j v [] = refl
  find-put k j v ((i, w) ∷ m) = ground (arith, find-put k j v m)

-- A function as a store: one cell changed.
abbrev pub update {ℓ} : {A : Type ℓ} → (ℕ → A) → ℕ → A → ℕ → A
update f k v j = if k == j then v else f j

module _ {ℓ} {V : Type ℓ} where
  unfoldable pub erase : ℕ → Map V → Map V
  erase k [] = []
  erase k ((j, w) ∷ m) = let rest = erase k m in if j == k then rest else (j, w) ∷ rest

  pub find-erase : (k j : ℕ) (m : Map V) → find j (erase k m) ≡ (if k == j then none else find j m)
  unfolding find erase
  find-erase k j [] = ground arith
  find-erase k j ((i, w) ∷ m) = ground (arith, find-erase k j m)
