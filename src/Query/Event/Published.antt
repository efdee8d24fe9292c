-- ===== src/Query/Event/Published.antt =====
-- From the subscriptions to an event to what one call of the event puts into the queues: component_base.h,
-- poly_ref.h and event.h together.
use minicomps.Prelude.{
  ℕ, ◌≡◌, ◌≢◌, refl, sym, ap, ◌∙◌, fun_ext, true, false, some, List, [], ◌∷◌, map, ◌++◌, ◌+◌, All,
  Pairs, ok, arith, subst, update,
}
use minicomps.Broker
use minicomps.Broker.{Broker}
use minicomps.Broker.Table.{receivers}
use minicomps.Component.{lookup_async_handler}
use minicomps.Callback.{code}
use minicomps.World.{World, UserCode, components}
use minicomps.World.Effects.{with_work}
use minicomps.Ref.Poly.{PolyRef, ReceiverHandler, collect, receiver_handler}
use minicomps.Ref.Poly.Cache.{is_cached, lookup-collect}
use minicomps.Query.Event.{EventSource, lookup_poly, publish}
use minicomps.Query.Event.Delivery.{executor_of, sent, deliver_all-sent}
use minicomps.Query.Event.Subscribed.{
  subscribe_all, IsNewTo, AreDistinct, Listens, subscribe_all-Subscribed,
}

-- The subscription `s` is among the receivers, by the address of its handler.
pub record Receives (w : World) (s : ℕ × ℕ) (r : ReceiverHandler) : Type 0 where
  pub receiver : r.receiving_component ≡ s.0
  pub handler : w.handler r.handler ≡ some (code s.1)

collect-Listens :
    (w : World) (r : PolyRef) (ss : List (ℕ × ℕ))
    → All (Listens r.msg w) ss
    → All (λ s. w.alive s.0 ≡ true) ss
    → All (λ s. executor_of w s.0 ≢ executor_of w r.component) ss
    → (rs : List ReceiverHandler) × (collect (components w) r (map (λ s. s.0) ss) ≡ rs)
      × Pairs (Receives w) ss rs
      × All (λ h. h.same_executor ≡ false) rs
unfolding collect lookup_async_handler
collect-Listens w r [] ls lives ns = ([], refl, tt, tt)
collect-Listens w r ((c, k) ∷ ss) (l, ls) (a, lives) (n, ns) =
    let (rs, e, pairs, apart) = collect-Listens w r ss ls lives ns in
    (
      receiver_handler (components w) r c l.address ∷ rs,
      rw (a, lookup_async_handler, l.entered, e) refl,
      (record { receiver = refl; handler = l.runs }, pairs),
      (ground arith, apart),
    )

-- The state after an uncached look-up, with the receivers `rs`.
looked_up : ℕ → List ReceiverHandler → World → World
looked_up i rs w = record w {
  broker = (Broker.lookup w.broker (w.poly_ref i).msg).1;
  poly_ref = update w.poly_ref i (record (w.poly_ref i) {
    receivers = some (Broker.lookup w.broker (w.poly_ref i).msg).0;
    receiver_handlers = rs;
    clears = (w.poly_ref i).clears + 1;
  });
}

lookup_poly-looked_up :
    (i : ℕ) (rs : List ReceiverHandler) (w : World)
    → is_cached w.broker (w.poly_ref i) ≡ false
    → collect (components w) (w.poly_ref i) (receivers w.broker (w.poly_ref i).msg) ≡ rs
    → lookup_poly i w ≡ ok rs (looked_up i rs w)
unfolding lookup_poly looked_up
lookup_poly-looked_up i rs w miss e =
    rw (lookup_poly, lookup-collect (components w) w.broker (w.poly_ref i) miss, e) refl

-- One call of an event whose reference is uncached, and whose receivers are all on other executors.
publish-collected :
    (u : UserCode) (e : EventSource) (event : ℕ) (rs : List ReceiverHandler) (w : World)
    → is_cached w.broker (w.poly_ref e.handler) ≡ false
    → collect (components w) (w.poly_ref e.handler) (receivers w.broker (w.poly_ref e.handler).msg)
      ≡ rs
    → All (λ h. h.same_executor ≡ false) rs
    → (w' : World) × (publish u e event w ≡ ok tt w')
      × ((x : ℕ) → w'.executor x ≡ with_work (w.executor x) (sent u (executor_of w) x event rs))
unfolding publish looked_up
publish-collected u e event rs w miss c apart =
    let v = looked_up e.handler rs w in
    let (w', ran, queues) =
      deliver_all-sent u e (w.component e.owning_component).listener (v.poly_ref e.handler).clears
        event rs v apart refl in
    (w', rw (lookup_poly-looked_up e.handler rs w miss c) ran, queues)

-- Live components subscribe to an event that has no receivers, each once, and none of them works on the
-- executor of the component that owns the event. Its reference holds nothing cached. Then one call of
-- the event runs no handler, and finds all subscribers in the order in which they have subscribed, each
-- with its own handler. For each of them one task for that handler is put behind the tasks that wait on
-- its executor, in that order; the first carries the event, each later one what a move has left of it.
pub publish-sent :
    (u : UserCode) (e : EventSource) (event : ℕ) (ss : List (ℕ × ℕ)) (w : World)
    → let r = w.poly_ref e.handler in
      let v = subscribe_all r.msg ss w in
      r.component ≡ e.owning_component
      → receivers w.broker r.msg ≡ []
      → is_cached v.broker r ≡ false
      → All (IsNewTo r.msg w) ss
      → AreDistinct ss
      → All (λ s. w.alive s.0 ≡ true) ss
      → All (λ s. executor_of w s.0 ≢ executor_of w e.owning_component) ss
      → (rs : List ReceiverHandler) × (w' : World) × (publish u e event v ≡ ok tt w')
        × Pairs (Receives v) ss rs
        × ((x : ℕ) → w'.executor x ≡ with_work (w.executor x) (sent u (executor_of w) x event rs))
publish-sent u e event ss w own alone miss news d live apart =
    let r = w.poly_ref e.handler in
    let v = subscribe_all r.msg ss w in
    let s = subscribe_all-Subscribed r.msg ss w news d in
    let ref : v.poly_ref e.handler ≡ r = ap (λ g. g e.handler) s.poly_ref in
    let homes : executor_of v ≡ executor_of w = fun_ext s.home in
    let (rs, c, pairs, others) =
      collect-Listens v r ss s.listen (subst (λ g. All (λ t. g t.0 ≡ true) ss) (sym s.alive) live) (
        subst (λ g. All (λ t. g t.0 ≢ g r.component) ss) (sym homes)
          (subst (λ o. All (λ t. executor_of w t.0 ≢ executor_of w o) ss) (sym own) apart)) in
    let (w', ran, queues) =
      publish-collected u e event rs v (ap (is_cached v.broker) ref ∙ miss)
        (ap (λ q. collect (components v) q (receivers v.broker q.msg)) ref
          ∙ ap (collect (components v) r) (s.listed ∙ ap (λ l. l ++ map (λ t. t.0) ss) alone)
          ∙ c)
        others in
    (
      rs,
      w',
      ran,
      pairs,
      λ x.
          queues x
          ∙ ap (λ g. with_work (g x) (sent u (executor_of v) x event rs)) s.executor
          ∙ ap (λ h. with_work (w.executor x) (sent u h x event rs)) homes,
    )
