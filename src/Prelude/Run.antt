-- ===== src/Prelude/Run.antt =====
-- Runs of code with a state: they end normally, in `std::abort`, or in undefined behaviour.

pub data Outcome (S A : Type 0) : Type 0 where
  ok : A → S → Outcome S A
  abort : Outcome S A
  undefined : Outcome S A

abbrev pub Cmd : Type 0 → Type 0 → Type 0
Cmd S A = S → Outcome S A

module _ {S : Type 0} where
  abbrev pub pure : {A : Type 0} → A → Cmd S A
  pure a s = ok a s

  abbrev pub and_then : {A B : Type 0} → Outcome S A → (A → Cmd S B) → Outcome S B
  and_then (ok a s) f = f a s
  and_then abort f = abort
  and_then undefined f = undefined

  infixl 5 ◌>>=◌ ◌>>◌
  abbrev pub ◌>>=◌ : {A B : Type 0} → Cmd S A → (A → Cmd S B) → Cmd S B
  ◌>>=◌ m f s = and_then (m s) f

  abbrev pub ◌>>◌ : {A B : Type 0} → Cmd S A → Cmd S B → Cmd S B
  ◌>>◌ m k s = and_then (m s) (λ _. k)

  abbrev pub get : Cmd S S
  get s = ok s s

  abbrev pub modify : (S → S) → Cmd S (Unit {0})
  modify f s = ok tt (f s)
