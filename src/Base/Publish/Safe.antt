-- ===== src/Base/Publish/Safe.antt =====
-- Handler objects over any history of calls of the functions of component_base.h that publish and filter.
use minicomps.Prelude.{
  ℕ, ◌+◌, ◌≡◌, ◌≢◌, refl, sym, ap, subst, Option, none, some, [], ◌∷◌, ◌++◌, arith, Map, find, put,
  find-put, ==_self,
}
use minicomps.Component.{Component, DependencyInfo}
use minicomps.Callback.{Handler, code}
use minicomps.World.{World, IfQuery, set_component}
use minicomps.Query.Interface.Shared.{set_query, set_handler}
use minicomps.Query.Interface.AsyncQuery
use minicomps.Query.Interface.SyncQuery
use minicomps.Query.Interface.VolatileQuery
use minicomps.Base.Publish.{
  set_sync_handler, set_async_handler, drop_handler, new_handler, associate_with,
  publish_sync_query, publish_async_query, subscribe_event, add_dependency_info, set_override,
  publish_interface, publish_if_async_query, publish_if_sync_query, publish_volatile_sync_query,
}
use minicomps.Base.Publish.Offers.{Offer, offer}
use minicomps.Base.Publish.Ownership.{
  Slot, entry, IsOwned, Kept, Contents, stored, new_owner, stored-IsOwned,
}

-- Nothing of the handlers and of the maps of handlers changes.
pub record IsSame (w w' : World) : Type 0 where
  pub entries : (s : Slot) → entry w' s ≡ entry w s
  pub handler : w'.handler ≡ w.handler
  pub next : w'.next_handler ≡ w.next_handler

pub IsSame-IsOwned : (w w' : World) → IsSame w w' → IsOwned w → IsOwned w'
IsSame-IsOwned w w' k o = record {
  owner = o.owner;
  kept = λ s.
      subst (λ m. Kept m o.owner w'.next_handler s (entry w' s)) (sym k.handler)
        (subst (λ n. Kept w.handler o.owner n s (entry w' s)) (sym k.next)
          (subst (Kept w.handler o.owner w.next_handler s) (sym (k.entries s)) (o.kept s)));
}

pub drop_handler-component : (o : Option ℕ) (w : World) → (drop_handler o w).component ≡ w.component
unfolding drop_handler
drop_handler-component none w = refl
drop_handler-component (some p) w = ground arith

drop_handler-next : (o : Option ℕ) (w : World) → (drop_handler o w).next_handler ≡ w.next_handler
unfolding drop_handler
drop_handler-next none w = refl
drop_handler-next (some p) w = ground arith

-- An entry put into a handler map by a new object that takes the place of `old`.
set_sync_handler-IsOwned :
    (c msg k : ℕ) (w : World) → IsOwned w → IsOwned (set_sync_handler c msg (code k) w)
unfolding set_sync_handler set_component new_handler Contents
set_sync_handler-IsOwned c msg k w o =
    let s = Slot.sync_slot c msg in
    stored-IsOwned s (code k) old w o (o.kept s) (set_sync_handler c msg (code k) w) refl
      (drop_handler-next old (new_handler (code k) w))
      (rw (at_c, ==_self c, find-put msg msg w.next_handler handlers, ==_self msg) refl) other tt
  where
    handlers : Map ℕ
    handlers = (w.component c).sync_handlers

    old : Option ℕ
    old = find msg handlers

    at_c : (drop_handler old (new_handler (code k) w)).component ≡ w.component
    at_c = drop_handler-component old (new_handler (code k) w)

    other :
        (t : Slot)
        → t ≢ Slot.sync_slot c msg
        → entry (set_sync_handler c msg (code k) w) t ≡ entry w t
    other (Slot.sync_slot d m) n = rw at_c (ground (arith, find-put msg m w.next_handler handlers))
    other (Slot.async_slot d m) n = rw at_c (ground arith)

pub set_async_handler-IsOwned :
    (c msg : ℕ) (h : Handler) (old : Option ℕ) (w : World) (o : IsOwned w)
    (at_old : Kept w.handler o.owner w.next_handler (Slot.async_slot c msg) old)
    → Contents
        (stored (Slot.async_slot c msg) h old w o at_old).handler
        (new_owner (Slot.async_slot c msg) h old w o at_old)
        (w.next_handler + 1)
        (Slot.async_slot c msg)
        h
    → IsOwned (set_async_handler c msg h old w)
unfolding set_async_handler set_component new_handler
set_async_handler-IsOwned c msg h old w o at_old contents =
    stored-IsOwned (Slot.async_slot c msg) h old w o at_old (set_async_handler c msg h old w) refl
      (drop_handler-next old (new_handler h w))
      (rw (at_c, ==_self c, find-put msg msg w.next_handler handlers, ==_self msg) refl) other
      contents
  where
    handlers : Map ℕ
    handlers = (w.component c).async_handlers

    at_c : (drop_handler old (new_handler h w)).component ≡ w.component
    at_c = drop_handler-component old (new_handler h w)

    other :
        (t : Slot)
        → t ≢ Slot.async_slot c msg
        → entry (set_async_handler c msg h old w) t ≡ entry w t
    other (Slot.async_slot d m) n = rw at_c (ground (arith, find-put msg m w.next_handler handlers))
    other (Slot.sync_slot d m) n = rw at_c (ground arith)

-- Functions that change neither.
associate_with-IsSame : (c msg : ℕ) (w : World) → IsSame w (associate_with c msg w)
unfolding associate_with
associate_with-IsSame c msg w = record { entries = λ s. same s; handler = refl; next = refl }
  where
    same : (s : Slot) → entry (associate_with c msg w) s ≡ entry w s
    same (Slot.sync_slot d m) = refl
    same (Slot.async_slot d m) = refl

-- A component that keeps its handler maps.
set_component-IsSame :
    (c : ℕ) (k : Component) (w : World)
    → k.sync_handlers ≡ (w.component c).sync_handlers
    → k.async_handlers ≡ (w.component c).async_handlers
    → IsSame w (set_component c k w)
unfolding set_component
set_component-IsSame c k w es ea = record { entries = λ s. same s; handler = refl; next = refl }
  where
    same : (s : Slot) → entry (set_component c k w) s ≡ entry w s
    same (Slot.sync_slot d m) = ground (arith, ap (find m) es)
    same (Slot.async_slot d m) = ground (arith, ap (find m) ea)

add_dependency_info-IsOwned :
    (c : ℕ) (info : DependencyInfo) (w : World) → IsOwned w → IsOwned (add_dependency_info c info w)
unfolding add_dependency_info
add_dependency_info-IsOwned c info w =
    IsSame-IsOwned w (add_dependency_info c info w) (set_component-IsSame c left w refl refl)
  where
    left : Component
    left = record (w.component c) {
      published_dependencies = (w.component c).published_dependencies ++ info ∷ [];
    }

set_override-IsOwned :
    (c msg : ℕ) (executor : Option ℕ) (w : World)
    → IsOwned w
    → IsOwned (set_override c msg executor w)
unfolding set_override
set_override-IsOwned c msg executor w =
    IsSame-IsOwned w (set_override c msg executor w) (set_component-IsSame c left w refl refl)
  where
    left : Component
    left = record (w.component c) {
      async_executor_overrides = put msg executor (w.component c).async_executor_overrides;
    }

-- The handler of a message, in place of the one that was there.
replaced-IsOwned :
    (c msg k : ℕ) (w : World)
    → IsOwned w
    → IsOwned (
        set_async_handler c msg
          (code k)
          (find msg (w.component c).async_handlers)
          (associate_with c msg w))
unfolding Contents associate_with
replaced-IsOwned c msg k w o =
    let v = associate_with c msg w in
    let owned = IsSame-IsOwned w v (associate_with-IsSame c msg w) o in
    set_async_handler-IsOwned c msg (code k) (find msg (w.component c).async_handlers) v owned
      (owned.kept (Slot.async_slot c msg)) tt

set_query-IsSame : (i : ℕ) (q : IfQuery) (w : World) → IsSame w (set_query i q w)
unfolding set_query
set_query-IsSame i q w = record { entries = λ s. same s; handler = refl; next = refl }
  where
    same : (s : Slot) → entry (set_query i q w) s ≡ entry w s
    same (Slot.sync_slot d m) = refl
    same (Slot.async_slot d m) = refl

publish_interface-IsOwned :
    (c msg i : ℕ) (w : World) → IsOwned w → IsOwned (publish_interface c msg i w)
unfolding publish_interface associate_with
publish_interface-IsOwned c msg i w o =
    let v = associate_with c msg w in
    IsSame-IsOwned v (publish_interface c msg i w) (set_component-IsSame c _ v refl refl)
      (IsSame-IsOwned w v (associate_with-IsSame c msg w) o)

pub offer-IsOwned : (c : ℕ) (p : Offer) (w : World) → IsOwned w → IsOwned (offer c p w)
unfolding offer publish_sync_query publish_async_query subscribe_event publish_if_async_query
    publish_if_sync_query publish_volatile_sync_query AsyncQuery.publish SyncQuery.publish
    VolatileQuery.publish set_handler
offer-IsOwned c (Offer.sync_query msg k) w o = add_dependency_info-IsOwned c _ _ (
    set_sync_handler-IsOwned c msg k (associate_with c msg w)
      (IsSame-IsOwned w _ (associate_with-IsSame c msg w) o))
offer-IsOwned c (Offer.event msg k) w o =
    add_dependency_info-IsOwned c _ _ (replaced-IsOwned c msg k w o)
offer-IsOwned c (Offer.interface msg i) w o = publish_interface-IsOwned c msg i w o
offer-IsOwned c (Offer.async_query msg k ov) w o =
    add_dependency_info-IsOwned c _ _
      (set_override-IsOwned c msg ov _ (replaced-IsOwned c msg k w o))
offer-IsOwned c (Offer.if_async_query q k ov) w o = IsSame-IsOwned w _ (set_query-IsSame q _ w) o
offer-IsOwned c (Offer.if_sync_query q k) w o = IsSame-IsOwned w _ (set_query-IsSame q _ w) o
offer-IsOwned c (Offer.volatile_sync_query q k) w o = IsSame-IsOwned w _ (set_query-IsSame q _ w) o
