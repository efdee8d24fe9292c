-- ===== src/Base/Lifecycle.antt =====
-- Publishing, describing and withdrawing a component in component_base.h.
pub mod Withdrawn
pub mod RoundTrip
use minicomps.Prelude.{
  ℕ, true, false, none, some, List, [], ◌∷◌, ◌++◌, if◌then◌else◌, Cmd, ok, abort, pure, ◌>>=◌, ◌>>◌,
  modify, update,
}
use minicomps.Broker.{disassociate_everything}
use minicomps.Component.{DependencyInfo}
use minicomps.Lifetime.{create_weak_ptr}
use minicomps.Ref.Mono
use minicomps.Ref.Poly
use minicomps.World.{World, set_component}
use minicomps.Query.Async.{lookup_mono}
use minicomps.Query.Event.{lookup_poly}
use minicomps.Query.Interface.Reference
use minicomps.Query.Interface.Reference.{copy_queries, set_current, destroy_proxy}

-- A check of `post_publish_checks_`: copying the interface aborts if a query has no handler. The copy is
-- destroyed at the end.
unfoldable pub check_interface : (c implementation : ℕ) → Cmd World (Unit {0})
check_interface c i w =
    (do
      modify (set_current (some c) (create_weak_ptr w.lifetimes (w.component c).default_lifetime))
      interface_view ← copy_queries (w.interface i)
      modify (set_current none none)
      modify (destroy_proxy (some interface_view)))
      w

unfoldable pub run_checks : ℕ → List ℕ → Cmd World (Unit {0})
run_checks c [] = pure tt
run_checks c (i ∷ is) = check_interface c i >> run_checks c is

-- `publish_dependencies`; `publish` is that of the component.
unfoldable pub publish_dependencies : ℕ → Cmd World (Unit {0}) → Cmd World (Unit {0})
publish_dependencies c publish = do
  publish
  modify (λ w. set_component c (record (w.component c) { published = true }) w)
  (λ w. run_checks c (w.component c).post_publish_checks w)

unfoldable pub unpublish_dependencies : ℕ → Cmd World (Unit {0})
unpublish_dependencies c w = elim (disassociate_everything w.alive w.broker c) [
  | none ↦ abort
  | some b ↦
      ok tt
        (set_component c (record (w.component c) { published = false }) (record w { broker = b }))
]

-- The destructor: by then no weak pointer to the component can be locked.
unfoldable pub destroy : ℕ → Cmd World (Unit {0})
destroy c w =
    let w1 = record w { alive = update w.alive c false } in
    if (w.component c).published then unpublish_dependencies c w1 else ok tt w1

-- The loops of `describe_dependencies`.
unfoldable pub describe_mono : List ℕ → Cmd World (List DependencyInfo)
describe_mono [] = pure []
describe_mono (i ∷ is) = do
  found ← lookup_mono i
  info ← (λ w. ok (Mono.create_dependency_info (w.mono_ref i)) w)
  infos ← describe_mono is
  pure (info ∷ infos)

unfoldable pub describe_poly : List ℕ → Cmd World (List DependencyInfo)
describe_poly [] = pure []
describe_poly (i ∷ is) = do
  found ← lookup_poly i
  info ← (λ w. ok (Poly.create_dependency_info (w.poly_ref i)) w)
  infos ← describe_poly is
  pure (info ∷ infos)

unfoldable pub describe_interfaces : List ℕ → Cmd World (List DependencyInfo)
describe_interfaces [] = pure []
describe_interfaces (i ∷ is) = do
  Reference.force_resolve i
  info ← (λ w. ok (Reference.create_dependency_info (w.interface_ref i)) w)
  infos ← describe_interfaces is
  pure (info ∷ infos)

unfoldable pub describe_dependencies : ℕ → Cmd World (List DependencyInfo)
describe_dependencies c w =
    (do
      monos ← describe_mono (w.component c).mono_refs
      polys ← describe_poly (w.component c).poly_refs
      interfaces ← describe_interfaces (w.component c).interface_refs
      (λ w1. ok (monos ++ polys ++ interfaces ++ (w1.component c).published_dependencies) w1))
      w
