-- ===== src/Registry/Left.antt =====
-- What the destructor of `component_registry` in testing.h withdraws.
use minicomps.Prelude.{
  ℕ, ◌≡◌, refl, List, [], ◌∷◌, Cmd, Outcome, ok, abort, undefined, and_then, pure, ◌>>=◌, ◌>>◌,
}
use minicomps.World.{World}
use minicomps.Base.Lifecycle.{publish_dependencies}
use minicomps.Registry.{ComponentRegistry, new, create, unpublish_all, destroy}

-- A history of calls of `create`, each with the component and its `publish`.
unfoldable pub create_all :
    ComponentRegistry → List (ℕ × Cmd World (Unit {0})) → Cmd World ComponentRegistry
create_all r [] = pure r
create_all r ((c, publish) ∷ calls) = create r c publish >>= λ (c', r'). create_all r' calls

unfoldable pub publish_all : List (ℕ × Cmd World (Unit {0})) → Cmd World (Unit {0})
publish_all [] = pure tt
publish_all ((c, publish) ∷ calls) = publish_dependencies c publish >> publish_all calls

after-one :
    (c : ℕ) (o : Outcome World (Unit {0})) (calls : List (ℕ × Cmd World (Unit {0})))
    → ((w : World) → (create_all new calls >>= destroy) w ≡ publish_all calls w)
    → and_then
        (and_then
          (and_then {B = ℕ × ComponentRegistry} o (λ a. pure (c, new)))
          (λ x. create_all x.1 calls))
        destroy
      ≡ and_then o (λ a. publish_all calls)
after-one c (ok a w) calls h = h w
after-one c abort calls h = refl
after-one c undefined calls h = refl

-- The destructor of a registry withdraws nothing: whatever components it has created, creating them and
-- destroying it does exactly what publishing them does.
pub destroy-create_all :
    (calls : List (ℕ × Cmd World (Unit {0}))) (w : World)
    → (create_all new calls >>= destroy) w ≡ publish_all calls w
unfolding create_all publish_all destroy unpublish_all create
destroy-create_all [] w = unfold new in refl
destroy-create_all ((c, publish) ∷ calls) w =
    after-one c (publish_dependencies c publish w) calls (destroy-create_all calls)
