-- ===== src/Sample/Composition/Missing.antt =====
-- What the check of dependencies in composition_root.cpp finds.
use minicomps.Prelude.{
  ℕ, ◌≡◌, refl, ap, ◌∙◌, Bool, true, ◌&&◌, List, [], ◌∷◌, ◌++◌, any, ok, pure, ◌>>=◌, arith, ◌==◌,
  subst,
}
use minicomps.Component.{exports, imports}
use minicomps.World.{World}
use minicomps.Base.Lifecycle.{describe_dependencies}
use minicomps.Sample.Composition.{
  interfaces_of, exported_interfaces, unresolved, missing_of, get_missing_dependencies, has_none,
  verify_dependencies,
}
use minicomps.Sample.Composition.Kept.{Same, Same-refl, Gives, Gives-and_then}
use minicomps.Sample.Composition.Described.{
  exported, referred, Describes, describe_dependencies-Gives,
}

abbrev pub exported_by : World → List ℕ → List ℕ
exported_by w [] = []
exported_by w (c ∷ cs) = exported w c ++ exported_by w cs

abbrev missing_in : World → List ℕ → List ℕ → List (ℕ × ℕ)
missing_in w ex [] = []
missing_in w ex (c ∷ cs) = unresolved ex c (referred w c) ++ missing_in w ex cs

exported_interfaces-Gives :
    (cs : List ℕ) (w v : World)
    → Same w v
    → Gives w (λ l. l ≡ exported_by w cs) (exported_interfaces cs v)
unfolding exported_interfaces
exported_interfaces-Gives [] w v s = (refl, s)
exported_interfaces-Gives (c ∷ cs) w v s =
    let Q = λ (l : List ℕ). l ≡ exported_by w (c ∷ cs) in
    Gives-and_then w (Describes w c) Q (describe_dependencies c v)
      (λ infos. (exported_interfaces cs >>= λ more. pure (interfaces_of exports infos ++ more)))
      (describe_dependencies-Gives c w v s)
      (λ infos u d t.
        Gives-and_then w (λ l. l ≡ exported_by w cs) Q (exported_interfaces cs u)
          (λ more. pure (interfaces_of exports infos ++ more)) (exported_interfaces-Gives cs w u t)
          (λ more u' e t'. (ap (λ l. l ++ more) d.1 ∙ ap (λ l. exported w c ++ l) e, t')))

missing_of-Gives :
    (ex cs : List ℕ) (w v : World)
    → Same w v
    → Gives w (λ l. l ≡ missing_in w ex cs) (missing_of ex cs v)
unfolding missing_of
missing_of-Gives ex [] w v s = (refl, s)
missing_of-Gives ex (c ∷ cs) w v s =
    let Q = λ (l : List (ℕ × ℕ)). l ≡ missing_in w ex (c ∷ cs) in
    Gives-and_then w (Describes w c) Q (describe_dependencies c v)
      (λ infos.
        (missing_of ex cs >>= λ more. pure (unresolved ex c (interfaces_of imports infos) ++ more)))
      (describe_dependencies-Gives c w v s)
      (λ infos u d t.
        Gives-and_then w (λ l. l ≡ missing_in w ex cs) Q (missing_of ex cs u)
          (λ more. pure (unresolved ex c (interfaces_of imports infos) ++ more))
          (missing_of-Gives ex cs w u t)
          (λ more u' e t'. (
            ap (λ l. unresolved ex c l ++ more) d.0
                ∙ ap (λ l. unresolved ex c (referred w c) ++ l) e,
            t',
          )))

abbrev pub all : {A : Type 0} → (A → Bool) → List A → Bool
all p [] = true
all p (x ∷ xs) = p x && all p xs

-- Every interface that a component of the list refers to is published by one of the list.
abbrev pub resolved : World → List ℕ → Bool
resolved w cs = all (λ c. all (λ m. any (λ e. e == m) (exported_by w cs)) (referred w c)) cs

has_none-unresolved :
    (ex : List ℕ) (c : ℕ) (ms : List ℕ) (more : List (ℕ × ℕ))
    → has_none (unresolved ex c ms ++ more) ≡ (all (λ m. any (λ e. e == m) ex) ms && has_none more)
has_none-unresolved ex c [] more = refl
has_none-unresolved ex c (m ∷ ms) more = ground (arith, has_none-unresolved ex c ms more)

has_none-missing_in :
    (w : World) (ex cs : List ℕ)
    → has_none (missing_in w ex cs) ≡ all (λ c. all (λ m. any (λ e. e == m) ex) (referred w c)) cs
has_none-missing_in w ex [] = refl
has_none-missing_in w ex (c ∷ cs) =
    has_none-unresolved ex c (referred w c) (missing_in w ex cs)
    ∙ ap (λ b. all (λ m. any (λ e. e == m) ex) (referred w c) && b) (has_none-missing_in w ex cs)

verify_dependencies-Gives :
    (cs : List ℕ) (w : World) → Gives w (λ b. b ≡ resolved w cs) (verify_dependencies cs w)
unfolding verify_dependencies get_missing_dependencies
verify_dependencies-Gives cs w =
    let P = λ (l : List (ℕ × ℕ)). l ≡ missing_in w (exported_by w cs) cs in
    Gives-and_then w P (λ b. b ≡ resolved w cs) (get_missing_dependencies cs w)
      (λ missing. pure (has_none missing))
      (Gives-and_then w (λ l. l ≡ exported_by w cs) P (exported_interfaces cs w)
        (λ ex. missing_of ex cs) (exported_interfaces-Gives cs w w (Same-refl w))
        (λ ex v e s.
          subst (λ x. Gives w (λ l. l ≡ missing_in w x cs) (missing_of ex cs v)) e
            (missing_of-Gives ex cs w v s)))
      (λ missing u e s. (ap has_none e ∙ has_none-missing_in w (exported_by w cs) cs, s))

-- If `verify_dependencies` ends normally, it answers whether every interface that a component of the root refers to is published by
-- one of them, whatever the look-ups on its way found.
pub verify_dependencies-resolved :
    (cs : List ℕ) (w : World) {b : Bool} {v : World}
    → verify_dependencies cs w ≡ ok b v
    → b ≡ resolved w cs
verify_dependencies-resolved cs w e =
    (subst (Gives w (λ b. b ≡ resolved w cs)) e (verify_dependencies-Gives cs w)).0
