-- ===== src/Base/Publish/Known.antt =====
-- Which messages a component has an asynchronous handler for, as it publishes through component_base.h.
use minicomps.Prelude.{
  ℕ, ◌≡◌, Bool, true, Option, is_some, find, find-put, arith, ◌==◌, if◌then◌else◌,
}
use minicomps.Callback.{Handler, code}
use minicomps.World.{World, set_component}
use minicomps.Base.Publish.{
  set_sync_handler, set_async_handler, new_handler, associate_with, publish_sync_query,
  publish_async_query, subscribe_event, add_dependency_info, set_override, publish_interface,
  publish_if_async_query, publish_if_sync_query, publish_volatile_sync_query,
}
use minicomps.Base.Publish.Offers.{Offer, offer}
use minicomps.Base.Publish.Safe.{drop_handler-component}
use minicomps.Query.Interface.Shared.{set_query, set_handler}
use minicomps.Query.Interface.AsyncQuery
use minicomps.Query.Interface.SyncQuery
use minicomps.Query.Interface.VolatileQuery

abbrev pub Knows : (ℕ → ℕ → Bool) → World → Type 0
Knows known w = (c msg : ℕ) → is_some (find msg (w.component c).async_handlers) ≡ known c msg

abbrev know : (ℕ → ℕ → Bool) → ℕ → ℕ → ℕ → ℕ → Bool
know known c msg d m = if c == d then (if msg == m then true else known d m) else known d m

-- What is known once a component has published.
abbrev pub learn : (ℕ → ℕ → Bool) → ℕ → Offer → ℕ → ℕ → Bool
learn known c (Offer.async_query msg k ov) = know known c msg
learn known c (Offer.event msg k) = know known c msg
learn known c (Offer.sync_query msg k) = known
learn known c (Offer.interface msg i) = known
learn known c (Offer.if_async_query q k ov) = known
learn known c (Offer.if_sync_query q k) = known
learn known c (Offer.volatile_sync_query q k) = known

pub set_async_handler-Knows :
    (known : ℕ → ℕ → Bool) (c msg : ℕ) (h : Handler) (old : Option ℕ) (w : World)
    → Knows known w
    → Knows (know known c msg) (set_async_handler c msg h old w)
unfolding set_async_handler new_handler set_component
set_async_handler-Knows known c msg h old w k d m =
    rw (drop_handler-component old (new_handler h w))
      (ground (arith, find-put msg m w.next_handler (w.component c).async_handlers, k d m))

set_sync_handler-Knows :
    (known : ℕ → ℕ → Bool) (c msg : ℕ) (h : Handler) (w : World)
    → Knows known w
    → Knows known (set_sync_handler c msg h w)
unfolding set_sync_handler new_handler set_component
set_sync_handler-Knows known c msg h w k d m =
    rw (drop_handler-component (find msg (w.component c).sync_handlers) (new_handler h w))
      (ground (arith, k d m))

pub offer-Knows :
    (known : ℕ → ℕ → Bool) (c : ℕ) (o : Offer) (w : World)
    → Knows known w
    → Knows (learn known c o) (offer c o w)
unfolding offer publish_sync_query publish_async_query subscribe_event add_dependency_info
    set_override publish_interface associate_with publish_if_async_query publish_if_sync_query
    publish_volatile_sync_query set_component set_query set_handler AsyncQuery.publish
    SyncQuery.publish VolatileQuery.publish
offer-Knows known c (Offer.async_query msg j ov) w k d m =
    let v = associate_with c msg w in
    let k' =
      set_async_handler-Knows known c msg (code j) (find msg (w.component c).async_handlers) v k d
        m in
    ground (arith, k')
offer-Knows known c (Offer.event msg j) w k d m =
    let v = associate_with c msg w in
    let k' =
      set_async_handler-Knows known c msg (code j) (find msg (w.component c).async_handlers) v k d
        m in
    ground (arith, k')
offer-Knows known c (Offer.sync_query msg j) w k d m =
    let v = associate_with c msg w in
    let k' = set_sync_handler-Knows known c msg (code j) v k d m in ground (arith, k')
offer-Knows known c (Offer.interface msg i) w k d m = ground (arith, k d m)
offer-Knows known c (Offer.if_async_query q j ov) w k d m = k d m
offer-Knows known c (Offer.if_sync_query q j) w k d m = k d m
offer-Knows known c (Offer.volatile_sync_query q j) w k d m = k d m
