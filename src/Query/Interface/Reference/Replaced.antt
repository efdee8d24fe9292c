-- ===== src/Query/Interface/Reference/Replaced.antt =====
-- What the assignment of a new proxy in interface_ref.h does to the queries of the old one.
use minicomps.Prelude.{
  Option, ℕ, any, ◌==◌, ◌≤◌, if◌then◌else◌, ◌<◌, ◌≡◌, refl, ap, true, false, none, some, List, [],
  ◌∷◌, All, arith,
}
use minicomps.World.{IfQuery}
use minicomps.Query.Interface.Reference.{surviving}

-- The queries of a proxy have been made before.
abbrev pub IsKnown : ℕ → Option (List ℕ) → Type 0
IsKnown n none = Unit {0}
IsKnown n (some qs) = All (λ q. q < n) qs

any-known : (n q : ℕ) (qs : List ℕ) → All (λ j. j < n) qs → n ≤ q → any (λ j. j == q) qs ≡ false
any-known n q [] k l = refl
any-known n q (j ∷ js) (k, ks) l =
    let first : (j == q) ≡ false = ground arith in rw (first, any-known n q js ks l) refl

-- The end of an old proxy does not touch a new query.
pub surviving-new :
    (n : ℕ) (p : Option (List ℕ)) (f : ℕ → IfQuery) (q : ℕ)
    → IsKnown n p
    → n ≤ q
    → surviving p f q ≡ f q
unfolding surviving
surviving-new n none f q k l = refl
surviving-new n (some qs) f q k l = rw (any-known n q qs k l) refl

pub surviving-ap :
    (p : Option (List ℕ)) (f g : ℕ → IfQuery) (q : ℕ)
    → f q ≡ g q
    → surviving p f q ≡ surviving p g q
unfolding surviving
surviving-ap none f g q e = e
surviving-ap (some qs) f g q e =
    ap (λ z. if any (λ j. j == q) qs then record z { destroyed = true } else z) e

-- The end of a query changes nothing else of it.
pub surviving-handler :
    (p : Option (List ℕ)) (f : ℕ → IfQuery) (q : ℕ) → (surviving p f q).handler ≡ (f q).handler
unfolding surviving
surviving-handler none f q = refl
surviving-handler (some qs) f q =
    elim (any (λ j. j == q) qs)
      as (λ b. (if b then record (f q) { destroyed = true } else f q).handler ≡ (f q).handler) [
        | true ↦ refl
        | false ↦ refl
      ]
