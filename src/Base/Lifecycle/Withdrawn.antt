-- ===== src/Base/Lifecycle/Withdrawn.antt =====
-- What the destructor of a component in component_base.h leaves in the broker.
use minicomps.Prelude.{ℕ, ◌≡◌, refl, true, false, ok, update, arith}
use minicomps.Broker.Table.{receivers, without, disassociate_everything-receivers}
use minicomps.World.{World, set_component}
use minicomps.Base.Lifecycle.{destroy, unpublish_dependencies}

-- The destructor of a published component ends normally. After it the component cannot be locked, no
-- message has it as a receiver, and every message keeps its other receivers that live, in their order;
-- the handler objects of the other components are untouched.
destroy-without :
    (c : ℕ) (w : World)
    → (w.component c).published ≡ true
    → (w' : World) × (destroy c w ≡ ok tt w')
      × (w'.alive c ≡ false)
      × ((n : ℕ)
          → receivers w'.broker n ≡ without (update w.alive c false) c (receivers w.broker n))
      × (w'.handler ≡ w.handler)
unfolding destroy unpublish_dependencies set_component
destroy-without c w p =
    let (b, done, listed) = disassociate_everything-receivers (update w.alive c false) w.broker c in
    (
      set_component c (record (w.component c) { published = false })
          (record w { broker = b; alive = update w.alive c false }),
      rw (destroy, p, unpublish_dependencies, done) refl,
      ground arith,
      listed,
      refl,
    )
