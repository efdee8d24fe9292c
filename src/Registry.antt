-- ===== src/Registry.antt =====
-- `component_registry` of include/minicomps/testing.h: it creates components and publishes them.
pub mod Left
use minicomps.Prelude.{ℕ, List, [], ◌∷◌, Cmd, pure, ◌>>=◌, ◌>>◌}
use minicomps.World.{World}
use minicomps.Base.Lifecycle.{publish_dependencies, unpublish_dependencies}

-- `components_`
pub record ComponentRegistry : Type 0 where
  pub components : List ℕ

unfoldable pub new : ComponentRegistry
new = record { components = [] }

-- `create` for the component `c` whose `publish` is given; the answer is `c` and the registry.
unfoldable pub create :
    ComponentRegistry → ℕ → Cmd World (Unit {0}) → Cmd World (ℕ × ComponentRegistry)
create r c publish = do publish_dependencies c publish; pure (c, r)

unfoldable pub unpublish_all : List ℕ → Cmd World (Unit {0})
unpublish_all [] = pure tt
unpublish_all (c ∷ cs) = unpublish_dependencies c >> unpublish_all cs

-- The destructor.
unfoldable pub destroy : ComponentRegistry → Cmd World (Unit {0})
destroy r = unpublish_all r.components
