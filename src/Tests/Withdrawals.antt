-- ===== src/Tests/Withdrawals.antt =====
-- A root of the components 4 and 2: component 4 offers an interface of one query, what component 2
-- offers too, and an event handler.
use minicomps.Prelude
use minicomps.Prelude.{
  ℕ, ◌≡◌, refl, Bool, true, false, none, some, List, [], ◌∷◌, ok, abort, undefined, Outcome, modify,
}
use minicomps.Broker
use minicomps.Broker.Table.{receivers}
use minicomps.Component
use minicomps.World.{World, set_component}
use minicomps.Base.Publish.{
  publish_async_query, subscribe_event, add_dependency_info, set_async_handler, associate_with,
  publish_if_sync_query, publish_interface, set_override, drop_handler, drop_contents, new_handler,
}
use minicomps.Base.Lifecycle.{publish_dependencies, run_checks, check_interface}
use minicomps.Base.Publish.Offers.{Offer, publish, offer}
use minicomps.Lifetime.{create_weak_ptr}
use minicomps.Query.Interface.{copy_query}
use minicomps.Query.Interface.SyncQuery
use minicomps.Query.Interface.Shared.{set_handler, set_query, unset}
use minicomps.Query.Interface.Reference.{destroy_proxy, copy_queries, set_current}
use minicomps.Sample.Composition.Root.{construct, destroy, publish_part}
use minicomps.Sample.Composition.Root.Released.{parts, without_all, construct-destroy}
use minicomps.Tests.Worlds.{start}

abbrev with_interface : World
with_interface = record start { interface = λ i. 0 ∷ []; next_if_query = 1 }

abbrev offers : List (ℕ × List Offer)
offers =
    (
      4,
      Offer.async_query 7 5 none
          ∷ Offer.interface 9 0
          ∷ Offer.if_sync_query 0 6
          ∷ Offer.event 7 8
          ∷ [],
    )
    ∷ (2, Offer.async_query 7 3 (some 5) ∷ [])
    ∷ []

abbrev state_after : Outcome World (Unit {0}) → World
state_after (ok x w) = w
state_after abort = start
state_after undefined = start

abbrev is_ok : Outcome World (Unit {0}) → Bool
is_ok (ok x w) = true
is_ok abort = false
is_ok undefined = false

ok-state_after : (o : Outcome World (Unit {0})) → is_ok o ≡ true → o ≡ ok tt (state_after o)
ok-state_after (ok x w) e = refl
ok-state_after abort e = absurd (cc)
ok-state_after undefined e = absurd (cc)

abbrev built : World
built = state_after (construct (parts offers) with_interface)

built-ok : is_ok (construct (parts offers) with_interface) ≡ true
unfolding construct publish_part publish_dependencies publish Component.new Prelude.find Prelude.put
    run_checks set_component offer subscribe_event add_dependency_info set_async_handler
    associate_with publish_if_sync_query SyncQuery.publish set_handler set_query publish_interface
    publish_async_query set_override check_interface copy_queries drop_handler drop_contents
    new_handler Broker.associate Broker.store create_weak_ptr set_current unset SyncQuery.copy
    SyncQuery.copy_for SyncQuery.new SyncQuery.proxy copy_query destroy_proxy
built-ok = refl

construct-destroy_example :
    (w : World) × (destroy (parts offers) built ≡ ok tt w)
    × ((n : ℕ)
        → receivers w.broker n
          ≡ without_all with_interface.alive (4 ∷ 2 ∷ []) (receivers with_interface.broker n))
construct-destroy_example =
    construct-destroy offers with_interface
      (ok-state_after (construct (parts offers) with_interface) built-ok)
