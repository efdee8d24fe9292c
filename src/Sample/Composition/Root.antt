-- ===== src/Sample/Composition/Root.antt =====
-- The life of composition_root.cpp in test/sample_application/orchestration.
pub mod Released
use minicomps.Prelude.{ℕ, false, none, some, Option, List, [], ◌∷◌, Cmd, pure, modify, ◌>>◌}
use minicomps.World.{World, UserCode, set_component}
use minicomps.Base.Lifecycle.{publish_dependencies, unpublish_dependencies}
use minicomps.Query.Loop

-- A component that one of the functions `create_impl` has made, with its `publish`.
pub record Part : Type 0 where
  pub component : ℕ
  pub publish : Cmd World (Unit {0})

-- The body of the loop in the constructor.
unfoldable pub publish_part : Part → Cmd World (Unit {0})
publish_part p = do
  modify (λ w.
      set_component p.component
        (record (w.component p.component) { allow_direct_call_async = false }) w)
  publish_dependencies p.component p.publish

-- The constructor, for any list of components.
unfoldable pub construct : List Part → Cmd World (Unit {0})
construct [] = pure tt
construct (p ∷ ps) = publish_part p >> construct ps

unfoldable pub destroy : List Part → Cmd World (Unit {0})
destroy [] = pure tt
destroy (p ∷ ps) = unpublish_dependencies p.component >> destroy ps

unfoldable pub update : UserCode → (executor : ℕ) → Cmd World (Unit {0})
update u executor = Loop.execute u executor

-- `component->listener = ...` for all components.
unfoldable pub set_listeners : Option ℕ → List Part → World → World
set_listeners l [] w = w
set_listeners l (p ∷ ps) w =
    set_listeners l ps
      (set_component p.component (record (w.component p.component) { listener = l }) w)

-- The root is the listener `root`. The second function also gives the diagram away, which is not
-- modelled.
unfoldable pub enable_sequence_diagram_gen : (root : ℕ) → List Part → World → World
enable_sequence_diagram_gen root ps = set_listeners (some root) ps

unfoldable pub disable_sequence_diagram_gen : List Part → World → World
disable_sequence_diagram_gen ps = set_listeners none ps
