-- ===== src/Query/Event.antt =====
-- include/minicomps/event.h: a message to any number of receivers.
pub mod Delivery
pub mod Subscribed
pub mod Published
use minicomps.Prelude.{
  ℕ, Option, List, [], ◌∷◌, if◌then◌else◌, Cmd, ok, undefined, pure, ◌>>=◌, ◌>>◌, modify, update,
  ◌==◌,
}
use minicomps.Component
use minicomps.Component.{Component}
use minicomps.Callback.{Task}
use minicomps.World.{
  World, UserCode, on_enqueue, on_invoke, notify, enqueue, components, handler_at, run_event,
}
use minicomps.Ref.Poly
use minicomps.Ref.Poly.{ReceiverHandler}

-- `event`
pub record EventSource : Type 0 where
  pub handler : ℕ
  pub owning_component : ℕ
  pub msg_info : ℕ

-- `handler_->lookup()` on a reference in the state.
unfoldable pub lookup_poly : ℕ → Cmd World (List ReceiverHandler)
lookup_poly i w =
    let (r, b) = Poly.lookup (components w) w.broker (w.poly_ref i) in
    ok r.receiver_handlers (record w { broker = b; poly_ref = update w.poly_ref i r })

-- The body of the loop, for one receiver; the answer is the event after it. `enqueue_work` moves the
-- event that it is given into the task, also where it is given a variable.
unfoldable pub deliver : UserCode → EventSource → Option ℕ → ℕ → ReceiverHandler → Cmd World ℕ
deliver u e listener event r =
    if r.same_executor
    then (do
      modify (
          notify listener
            (λ l. on_invoke l e.owning_component r.receiving_component e.msg_info Component.event))
      h ← handler_at r.handler
      run_event u h event
      pure event)
    else (do
      modify (
          notify listener
            (λ l. on_enqueue l e.owning_component r.receiving_component e.msg_info Component.event))
      modify (λ w.
          enqueue (w.component r.receiving_component).default_executor (Task.event r.handler event)
            w)
      pure (u.moved_from event))

-- The loop. It goes on over a vector that a handler must not have cleared through the same reference.
unfoldable pub deliver_all :
    UserCode
    → EventSource
    → Option ℕ
    → (clears event : ℕ) → List ReceiverHandler
    → Cmd World (Unit {0})
deliver_all u e listener clears event [] = pure tt
deliver_all u e listener clears event (r ∷ rs) =
    let rest = λ (event' : ℕ). deliver_all u e listener clears event' rs in
    deliver u e listener event r >>= λ event' w.
    if (w.poly_ref e.handler).clears == clears then rest event' w else undefined

-- `operator()`
unfoldable pub publish : UserCode → EventSource → ℕ → Cmd World (Unit {0})
publish u e event w =
    (lookup_poly e.handler >>= λ rs w1.
    deliver_all u e (w.component e.owning_component).listener (w1.poly_ref e.handler).clears event
      rs w1)
      w

-- The task that a delivery on another executor enqueues.
unfoldable pub run_event_task : UserCode → ℕ → ℕ → Cmd World (Unit {0})
run_event_task u handler event = do h ← handler_at handler; run_event u h event
