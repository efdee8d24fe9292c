-- ===== src/Base/Publish/Filter.antt =====
-- What `prepend_async_query_filter` of component_base.h changes.
use minicomps.Prelude.{
  ℕ, ◌<◌, ◌≡◌, refl, sym, ap, ◌∙◌, true, false, none, some, [], ◌∷◌, ok, arith, find, find-put,
  ==_self, if◌then◌else◌, Option-cases, inl, inr,
}
use minicomps.Broker
use minicomps.Broker.{Broker, Handle, invalidate, store}
use minicomps.Broker.Table.{receivers, receivers-invalidate}
use minicomps.Broker.Handles.{Issued, lock-store}
use minicomps.Component.{lookup_async_handler}
use minicomps.Callback.{Handler, filtered}
use minicomps.World.{World, components, set_component}
use minicomps.Ref.Mono
use minicomps.Ref.Mono.{MonoRef, async, lookup_handler}
use minicomps.Ref.Mono.Target.{target, only_handler, is_cached, lookup-target}
use minicomps.Base.Publish.{
  prepend_async_query_filter, filter_handler, set_async_handler, new_handler, drop_handler,
}

lock-invalidate : (b : Broker) (h : Handle) → Issued h b → Broker.lock (invalidate b h.msg) h ≡ none
unfolding invalidate Broker.lock
lock-invalidate b h i = elim (Option-cases (find h.msg b.active_lookups)) [
  | inl e ↦ rw (invalidate, e, Broker.lock, e) refl
  | inr (r, e) ↦ rw (invalidate, e) (lock-store b h.msg r.items h i ∙ rw (==_self h.msg) refl)
]

-- Every handle of the message that was handed out before has expired.
expired-invalidate :
    (b : Broker) (h : Handle) → Issued h b → Broker.expired (invalidate b h.msg) h ≡ true
unfolding Broker.expired
expired-invalidate b h i = rw (Broker.expired, lock-invalidate b h i) refl

-- The state after a filter.
abbrev pub after : (c msg f p : ℕ) → Handler → World → World
after c msg f p h w =
    let w1 = set_async_handler c msg (filtered f p h) none w in
    record w1 { broker = invalidate w1.broker msg }

pub after-fields :
    (c msg f p : ℕ) (h : Handler) (w : World)
    → p < w.next_handler
    → let w' = after c msg f p h w in
      (w'.handler w.next_handler ≡ some (filtered f p h))
      × (w'.handler p ≡ w.handler p)
      × (lookup_async_handler (w'.component c) msg ≡ some w.next_handler)
unfolding set_async_handler new_handler drop_handler set_component lookup_async_handler
after-fields c msg f p h w l = (
  rw (==_self w.next_handler) refl,
  ground arith,
  rw (==_self c, find-put msg msg w.next_handler (w.component c).async_handlers, ==_self msg) refl,
)

after-broker :
    (c msg f p : ℕ) (h : Handler) (w : World)
    → (after c msg f p h w).broker ≡ invalidate w.broker msg
unfolding set_async_handler new_handler drop_handler set_component
after-broker c msg f p h w = refl

after-alive : (c msg f p : ℕ) (h : Handler) (w : World) → (after c msg f p h w).alive ≡ w.alive
unfolding set_async_handler new_handler drop_handler set_component
after-alive c msg f p h w = refl

after-lookup :
    (c f p : ℕ) (h : Handler) (w : World) (r : MonoRef)
    → r.kind ≡ async
    → w.alive c ≡ true
    → receivers w.broker r.msg ≡ c ∷ []
    → p < w.next_handler
    → let w' = after c r.msg f p h w in
      is_cached w'.broker r ≡ false
      → (Mono.lookup (components w') w'.broker r).0 ≡ some w.next_handler
unfolding target lookup_handler
after-lookup c f p h w r e a rs l n =
    let w' = after c r.msg f p h w in
    let (top, below, found) = after-fields c r.msg f p h w l in
    lookup-target (components w') w'.broker r n
    ∙ ap (only_handler (components w') r.kind r.msg) (
        ap (λ b. receivers b r.msg) (after-broker c r.msg f p h w)
        ∙ receivers-invalidate w.broker r.msg r.msg
        ∙ rs)
    ∙ ap (λ z. if z c then lookup_handler r.kind (w'.component c) r.msg else none)
        (after-alive c r.msg f p h w)
    ∙ ap (λ z. if z then lookup_handler r.kind (w'.component c) r.msg else none) a
    ∙ ap (λ t. lookup_handler t (w'.component c) r.msg) e
    ∙ found

-- A filter is put on the asynchronous handler of the only receiver of a message: the operation ends
-- normally, every handle given out for the message before has expired, and a reference that holds
-- nothing cached finds the filter, which has the previous handler; that stays where it was.
pub prepend_async_query_filter-lookup :
    (c f p : ℕ) (h : Handler) (w : World) (r : MonoRef)
    → r.kind ≡ async
    → w.alive c ≡ true
    → receivers w.broker r.msg ≡ c ∷ []
    → find r.msg (w.component c).async_handlers ≡ some p
    → w.handler p ≡ some h
    → p < w.next_handler
    → (w' : World) × (prepend_async_query_filter c r.msg f w ≡ ok tt w')
      × ((g : Handle) → g.msg ≡ r.msg → Issued g w.broker → Broker.expired w'.broker g ≡ true)
      × (is_cached w'.broker r ≡ false
          → (Mono.lookup (components w') w'.broker r).0 ≡ some w.next_handler)
      × (w'.handler w.next_handler ≡ some (filtered f p h))
      × (w'.handler p ≡ some h)
unfolding prepend_async_query_filter filter_handler
prepend_async_query_filter-lookup c f p h w r e a rs at hp l =
    let (top, below, found) = after-fields c r.msg f p h w l in
    (
      after c r.msg f p h w,
      rw (prepend_async_query_filter, at, filter_handler, hp) refl,
      λ g m i.
          ap (λ b. Broker.expired b g) (after-broker c r.msg f p h w)
          ∙ ap (λ n. Broker.expired (invalidate w.broker n) g) (sym m)
          ∙ expired-invalidate w.broker g i,
      λ n. after-lookup c f p h w r e a rs l n,
      top,
      below ∙ hp,
    )
