-- ===== src/Query/Event/Delivery.antt =====
-- Where the deliveries of one `operator()` of event.h go.
use minicomps.Prelude.{
  ℕ, ◌≡◌, refl, sym, ap, ◌∙◌, false, Option, List, [], ◌∷◌, All, ok, append-nil, append_assoc,
  if◌then◌else◌, arith, ◌==◌, ==_self,
}
use minicomps.Component
use minicomps.Callback.{Task}
use minicomps.Executor.{enqueue_work}
use minicomps.World.{World, UserCode, on_enqueue, enqueue}
use minicomps.World.Effects.{heard, with_log, with_work, notify-log}
use minicomps.Ref.Poly.{ReceiverHandler}
use minicomps.Query.Event.{EventSource, deliver, deliver_all}

-- The tasks that executor `x` gets, where `executor_of` are the components' executors: the first
-- receiver's task gets the event, each later one what the move into the task before it has left.
unfoldable pub sent : UserCode → (ℕ → ℕ) → ℕ → ℕ → List ReceiverHandler → List Task
sent u executor_of x event [] = []
sent u executor_of x event (r ∷ rs) =
    let rest = sent u executor_of x (u.moved_from event) rs in
    if executor_of r.receiving_component == x then Task.event r.handler event ∷ rest else rest

abbrev pub executor_of : World → ℕ → ℕ
executor_of w c = (w.component c).default_executor

-- The world after one delivery through a queue.
abbrev pub delivered : EventSource → Option ℕ → ℕ → ReceiverHandler → World → World
delivered e listener event r w =
    enqueue (executor_of w r.receiving_component) (Task.event r.handler event) (
      with_log w (
        heard listener
          (λ l. on_enqueue l e.owning_component r.receiving_component e.msg_info Component.event)))

deliver-delivered :
    (u : UserCode) (e : EventSource) (listener : Option ℕ) (event : ℕ) (r : ReceiverHandler)
    (w : World)
    → r.same_executor ≡ false
    → deliver u e listener event r w ≡ ok (u.moved_from event) (delivered e listener event r w)
unfolding deliver
deliver-delivered u e listener event r w h = rw (
  h,
  notify-log listener
      (λ l. on_enqueue l e.owning_component r.receiving_component e.msg_info Component.event) w,
)

delivered-executor :
    (u : UserCode) (e : EventSource) (listener : Option ℕ) (event x : ℕ) (r : ReceiverHandler)
    (rs : List ReceiverHandler) (w : World)
    → with_work
        ((delivered e listener event r w).executor x)
        (sent u (executor_of w) x (u.moved_from event) rs)
      ≡ with_work (w.executor x) (sent u (executor_of w) x event (r ∷ rs))
unfolding sent enqueue enqueue_work
delivered-executor u e listener event x r rs w = ground (
  arith,
  append_assoc (w.executor x).work_items (Task.event r.handler event ∷ [])
      (sent u (executor_of w) x (u.moved_from event) rs),
)

-- If no receiver works on the sender's executor, the delivery runs no handler. Each receiver gets one
-- task, behind those that wait on its executor and in the order of the receivers; the first one's
-- carries the event, each later one's what a move has left of it.
pub deliver_all-sent :
    (u : UserCode) (e : EventSource) (listener : Option ℕ) (clears event : ℕ)
    (rs : List ReceiverHandler) (w : World)
    → All (λ r. r.same_executor ≡ false) rs
    → (w.poly_ref e.handler).clears ≡ clears
    → (w' : World) × (deliver_all u e listener clears event rs w ≡ ok tt w')
      × ((x : ℕ) → w'.executor x ≡ with_work (w.executor x) (sent u (executor_of w) x event rs))
unfolding deliver_all sent enqueue
deliver_all-sent u e listener clears event [] w h c = (
  w,
  refl,
  λ x.
      ap (λ l. record (w.executor x) { work_items = l })
        (sym (append-nil (w.executor x).work_items)),
)
deliver_all-sent u e listener clears event (r ∷ rs) w (h, hs) c =
    let (w', ran, queues) =
      deliver_all-sent u e listener clears (u.moved_from event) rs (delivered e listener event r w)
        hs c in
    (
      w',
      rw (deliver-delivered u e listener event r w h, c, ==_self clears) ran,
      λ x. queues x ∙ delivered-executor u e listener event x r rs w,
    )
