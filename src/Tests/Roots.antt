-- ===== src/Tests/Roots.antt =====
-- Component 2 publishes interface 9, and component 1 refers to it and to interface 10.
use minicomps.Prelude.{
  ◌≡◌, refl, ap, Option, none, some, ◌==◌, if◌then◌else◌, Bool, true, false, [], ◌∷◌, ok, abort,
  undefined, Outcome,
}
use minicomps.Prelude
use minicomps.Broker
use minicomps.Ref.Mono
use minicomps.Ref.Poly
use minicomps.Base.Lifecycle.{
  describe_dependencies, describe_mono, describe_poly, describe_interfaces,
}
use minicomps.Component
use minicomps.Component.{exports, interface}
use minicomps.Query.Interface.Reference
use minicomps.World.{World}
use minicomps.Sample.Composition.{
  interfaces_of, verify_dependencies, get_missing_dependencies, exported_interfaces, missing_of,
}
use minicomps.Sample.Composition.Missing.{resolved, verify_dependencies-resolved}
use minicomps.Tests.Worlds.{start}

abbrev rooted : World
rooted = record start {
  component = λ c. record (start.component c) {
    interface_refs = if c == 1 then 0 ∷ 1 ∷ [] else [];
    published_dependencies =
        if c == 2
        then record { direction = exports; type = interface; msg_info = 9; resolved_targets = [] }
          ∷ []
        else [];
  };
  interface_ref = λ i. Reference.new (if i == 0 then 9 else 10) 1 none true;
}

abbrev state_after : Outcome World Bool → World
state_after (ok b w) = w
state_after abort = start
state_after undefined = start

abbrev answer_of : Outcome World Bool → Option Bool
answer_of (ok b w) = some b
answer_of abort = none
answer_of undefined = none

ok-answer_of : (o : Outcome World Bool) (b : Bool) → answer_of o ≡ some b → o ≡ ok b (state_after o)
ok-answer_of (ok a w) b e = ap (λ x. ok (from a x) w) e
  where
    from : Bool → Option Bool → Bool
    from d none = d
    from d (some x) = x
ok-answer_of abort b e = absurd (cc)
ok-answer_of undefined b e = absurd (cc)

rooted-answer : answer_of (verify_dependencies (1 ∷ 2 ∷ []) rooted) ≡ some false
unfolding verify_dependencies get_missing_dependencies exported_interfaces missing_of
    describe_dependencies describe_mono describe_poly describe_interfaces interfaces_of
    Component.new Reference.new Reference.force_resolve Reference.lookup Reference.resolve Mono.new
    Poly.new Reference.create_dependency_info Reference.set_reference Broker.lookup Broker.lock
    Broker.store Prelude.find Prelude.put
rooted-answer = refl

verify_dependencies-resolved_example : false ≡ resolved rooted (1 ∷ 2 ∷ [])
verify_dependencies-resolved_example =
    verify_dependencies-resolved (1 ∷ 2 ∷ []) rooted
      (ok-answer_of (verify_dependencies (1 ∷ 2 ∷ []) rooted) false rooted-answer)
