-- ===== src/Query/Async.antt =====
-- include/minicomps/async_query.h: calls that are answered later.
pub mod Found
use minicomps.Prelude.{
  ℕ, Option, none, some, if◌then◌else◌, Cmd, ok, abort, undefined, ◌>>=◌, ◌>>◌, modify, update,
}
use minicomps.Component.{request}
use minicomps.Callback.{Callback, empty, promise, successful, RequestData, Task, new_result}
use minicomps.World.{
  World, UserCode, on_enqueue, on_invoke, notify, enqueue, components, handler_at, run_async,
}
use minicomps.Lifetime.{create_weak_ptr}
use minicomps.Ref.Mono

-- `handler_` is the reference of the owning component, `lifetime_` a lifetime object.
pub record AsyncQuery : Type 0 where
  pub handler : ℕ
  pub owning_component : ℕ
  pub msg_info : ℕ
  pub lifetime : ℕ

-- `query_invoker`
pub record QueryInvoker : Type 0 where
  pub async_query : AsyncQuery
  pub lifetime : Option ℕ
  pub callback : Callback
  pub arguments : ℕ

-- `async_query(other, life)`
unfoldable pub with_other_lifetime : AsyncQuery → ℕ → AsyncQuery
with_other_lifetime q life = record q { lifetime = life }

unfoldable pub call : AsyncQuery → ℕ → World → QueryInvoker
call q arguments w = record {
  async_query = q;
  lifetime = create_weak_ptr w.lifetimes q.lifetime;
  callback = empty;
  arguments = arguments;
}

unfoldable pub with_lifetime : QueryInvoker → ℕ → World → QueryInvoker
with_lifetime i life w = record i { lifetime = create_weak_ptr w.lifetimes life }

unfoldable pub with_callback : QueryInvoker → Callback → QueryInvoker
with_callback i callback = record i { callback = callback }

unfoldable pub with_successful_callback : QueryInvoker → ℕ → ℕ → QueryInvoker
with_successful_callback i outer callback = with_callback i (successful outer callback)

-- `handler_->lookup()` on a reference in the state.
unfoldable pub lookup_mono : ℕ → Cmd World (Option ℕ)
lookup_mono i w =
    let (p, r, b) = Mono.lookup (components w) w.broker (w.mono_ref i) in
    ok p (record w { broker = b; mono_ref = update w.mono_ref i r })

-- The two ways from a resolved handler on: on the same executor, and through the queue.
unfoldable pub invoke_directly :
    UserCode → AsyncQuery → ℕ → ℕ → Callback → Option ℕ → ℕ → Cmd World (Unit {0})
invoke_directly u q handler receiver callback lifetime arguments = do
  modify (λ w.
      notify (w.component receiver).listener
        (λ l. on_invoke l q.owning_component receiver q.msg_info request) w)
  h ← handler_at handler
  run_async u h arguments (new_result none lifetime q.owning_component receiver q.msg_info callback)

unfoldable pub invoke_queued : AsyncQuery → ℕ → ℕ → ℕ → Callback → Option ℕ → ℕ → World → World
invoke_queued q handler receiver executor callback lifetime arguments w =
    let w1 =
      enqueue executor
        (Task.request handler q.msg_info (record {
          arguments = arguments;
          callback = callback;
          receiver_executor = some (w.component q.owning_component).default_executor;
          lifetime = lifetime;
          receiver = q.owning_component;
          sender = receiver;
        }))
        w in
    notify (w1.component receiver).listener
      (λ l. on_enqueue l q.owning_component receiver q.msg_info request) w1

-- A null `receiver_executor()` cannot be used.
unfoldable pub dispatch :
    UserCode → AsyncQuery → Option ℕ → Callback → Option ℕ → ℕ → Cmd World (Unit {0})
dispatch u q none callback lifetime arguments w = abort
dispatch u q (some handler) callback lifetime arguments w = elim (w.mono_ref q.handler).receiver [
  | none ↦ abort
  | some receiver ↦
      if (w.mono_ref q.handler).same_executor
      then invoke_directly u q handler receiver callback lifetime arguments w
      else elim (w.mono_ref q.handler).receiver_executor [
        | none ↦ undefined
        | some x ↦ ok tt (invoke_queued q handler receiver x callback lifetime arguments w)
      ]
]

-- `execute`, which the destructor of the invoker calls.
unfoldable pub execute : UserCode → QueryInvoker → Cmd World (Unit {0})
execute u i = do
  handler ← lookup_mono i.async_query.handler
  dispatch u i.async_query handler i.callback i.lifetime i.arguments

-- `operator()`: what its coroutine runs once it has the promise.
unfoldable pub run_coroutine : UserCode → AsyncQuery → ℕ → ℕ → Cmd World (Unit {0})
run_coroutine u q arguments p w = execute u (with_callback (call q arguments w) (promise p)) w

-- The task that `execute` enqueues.
unfoldable pub run_request : UserCode → ℕ → ℕ → RequestData → Cmd World (Unit {0})
run_request u handler msg d = do
  h ← handler_at handler
  run_async u h d.arguments
      (new_result d.receiver_executor d.lifetime d.receiver d.sender msg d.callback)
