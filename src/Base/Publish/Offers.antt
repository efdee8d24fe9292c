-- ===== src/Base/Publish/Offers.antt =====
-- What a component publishes by the functions of component_base.h, and what that adds to the broker.
use minicomps.Prelude.{
  ℕ, ◌≡◌, refl, ap, ◌∙◌, Bool, Option, none, some, List, [], ◌∷◌, ◌++◌, if◌then◌else◌, find, arith,
  ◌==◌, ==_self, subst,
}
use minicomps.Broker.{Broker, associate}
use minicomps.Broker.Table.{receivers, receivers-associate, without}
use minicomps.Callback.{code}
use minicomps.World.{World, set_component}
use minicomps.Base.Publish.{
  publish_sync_query, publish_async_query, subscribe_event, set_sync_handler, set_async_handler,
  drop_handler, new_handler, set_override, associate_with, add_dependency_info, publish_interface,
  publish_if_async_query, publish_if_sync_query, publish_volatile_sync_query,
}
use minicomps.Query.Interface.Shared.{set_handler, set_query}
use minicomps.Query.Interface.AsyncQuery
use minicomps.Query.Interface.SyncQuery
use minicomps.Query.Interface.VolatileQuery

-- A call in the `publish` of a component. `interface` is `publish_interface`, with the interface object;
-- the last three publish a query of an interface object.
pub data Offer : Type 0 where
  sync_query event interface : (msg handler : ℕ) → Offer
  async_query if_async_query : (msg handler : ℕ) → Option ℕ → Offer
  if_sync_query volatile_sync_query : (query handler : ℕ) → Offer

unfoldable pub offer : ℕ → Offer → World → World
offer c (Offer.sync_query msg k) w = publish_sync_query c msg k w
offer c (Offer.event msg k) w = subscribe_event c msg k w
offer c (Offer.interface msg i) w = publish_interface c msg i w
offer c (Offer.async_query msg k ov) w = publish_async_query c msg k ov w
offer c (Offer.if_async_query q k ov) w = publish_if_async_query c q k ov w
offer c (Offer.if_sync_query q k) w = publish_if_sync_query c q k w
offer c (Offer.volatile_sync_query q k) w = publish_volatile_sync_query c q k w

unfoldable pub publish : ℕ → List Offer → World → World
publish c [] w = w
publish c (o ∷ os) w = publish c os (offer c o w)

drop_handler-kept :
    (o : Option ℕ) (w : World)
    → ((drop_handler o w).broker ≡ w.broker) × ((drop_handler o w).alive ≡ w.alive)
unfolding drop_handler
drop_handler-kept none w = (refl, refl)
drop_handler-kept (some p) w = (ground arith, ground arith)

-- No message gets another receiver but the component, and no component dies.
pub record Offered (c : ℕ) (w w' : World) : Type 0 where
  pub listed :
      (n : ℕ) → without w.alive c (receivers w'.broker n) ≡ without w.alive c (receivers w.broker n)
  pub alive : w'.alive ≡ w.alive

without-append_self :
    (alive : ℕ → Bool) (c : ℕ) (xs : List ℕ) → without alive c (xs ++ c ∷ []) ≡ without alive c xs
without-append_self alive c [] = rw (==_self c) (ground arith)
without-append_self alive c (x ∷ xs) = ground (arith, without-append_self alive c xs)

picked :
    (alive : ℕ → Bool) (c m n : ℕ) (b : Broker)
    → without alive c (if m == n then receivers b m ++ c ∷ [] else receivers b n)
      ≡ without alive c (receivers b n)
picked alive c m n b = ground (arith, without-append_self alive c (receivers b m))

associated :
    (c msg : ℕ) (w w' : World)
    → w'.broker ≡ associate w.broker msg c
    → w'.alive ≡ w.alive
    → Offered c w w'
associated c msg w w' b a = record {
  listed = λ n.
      ap (λ d. without w.alive c (receivers d n)) b
      ∙ ap (without w.alive c) (receivers-associate w.broker msg c n)
      ∙ picked w.alive c msg n w.broker;
  alive = a;
}

-- The same for an offer that makes a handler object in place of the old one.
replaced :
    (c msg k : ℕ) (old : Option ℕ) (w w' : World)
    → w'.broker ≡ (drop_handler old (new_handler (code k) (associate_with c msg w))).broker
    → w'.alive ≡ (drop_handler old (new_handler (code k) (associate_with c msg w))).alive
    → Offered c w w'
unfolding associate_with new_handler
replaced c msg k old w w' b a =
    let d = drop_handler-kept old (new_handler (code k) (associate_with c msg w)) in
    associated c msg w w' (b ∙ d.0) (a ∙ d.1)

unlisted : (c : ℕ) (w w' : World) → w'.broker ≡ w.broker → w'.alive ≡ w.alive → Offered c w w'
unlisted c w w' b a = record {
  listed = λ n. ap (λ d. without w.alive c (receivers d n)) b;
  alive = a;
}

offer-Offered : (c : ℕ) (o : Offer) (w : World) → Offered c w (offer c o w)
unfolding offer publish_sync_query subscribe_event publish_async_query set_sync_handler
    set_async_handler set_override add_dependency_info set_component publish_interface
    associate_with publish_if_async_query publish_if_sync_query publish_volatile_sync_query
    AsyncQuery.publish SyncQuery.publish VolatileQuery.publish set_handler set_query
offer-Offered c (Offer.sync_query msg k) w =
    replaced c msg k (find msg (w.component c).sync_handlers) w (publish_sync_query c msg k w) refl
      refl
offer-Offered c (Offer.event msg k) w =
    replaced c msg k (find msg (w.component c).async_handlers) w (subscribe_event c msg k w) refl
      refl
offer-Offered c (Offer.interface msg i) w =
    associated c msg w (publish_interface c msg i w) refl refl
offer-Offered c (Offer.async_query msg k ov) w =
    replaced c msg k (find msg (w.component c).async_handlers) w (publish_async_query c msg k ov w)
      refl refl
offer-Offered c (Offer.if_async_query q k ov) w =
    unlisted c w (publish_if_async_query c q k ov w) refl refl
offer-Offered c (Offer.if_sync_query q k) w = unlisted c w (publish_if_sync_query c q k w) refl refl
offer-Offered c (Offer.volatile_sync_query q k) w =
    unlisted c w (publish_volatile_sync_query c q k w) refl refl

pub publish-Offered : (c : ℕ) (os : List Offer) (w : World) → Offered c w (publish c os w)
unfolding publish
publish-Offered c [] w = record { listed = λ n. refl; alive = refl }
publish-Offered c (o ∷ os) w =
    let d = offer-Offered c o w in
    let rest = publish-Offered c os (offer c o w) in
    record {
      listed = λ n.
          subst
            (λ alive.
              without alive c (receivers (publish c os (offer c o w)).broker n)
              ≡ without alive c (receivers (offer c o w).broker n))
            d.alive (rest.listed n)
          ∙ d.listed n;
      alive = rest.alive ∙ d.alive;
    }
