-- ===== src/Query/Interface/Call.antt =====
-- The calls of interface queries: `execute` of if_async_query.h, `operator()` of if_sync_query.h, and
-- `call_same_thread` and `call_locking` of if_volatile_sync_query.h.
pub mod RoundTrip
pub mod Bracket
pub mod Filtered
use minicomps.Prelude.{
  ℕ, Option, none, some, if◌then◌else◌, Cmd, ok, abort, undefined, pure, ◌>>=◌, ◌>>◌, modify,
}
use minicomps.Component.{request, response, locked_request, locked_response}
use minicomps.Callback.{Callback, promise, Handler, RequestData, Task, new_result}
use minicomps.World.{World, UserCode, on_enqueue, on_invoke, notify, enqueue, run_async, run_sync}
use minicomps.Query.Sync.{lock_component, unlock_component, invoked}

-- What every call needs of a copy: it has not been destroyed, the query that it was made from has a
-- handler, and the client and the component that handles the query are set. The query that it was made
-- from is no copy, as copying a copy aborts, and only the copies in proxies are destroyed.
pub record Link : Type 0 where
  pub query : ℕ
  pub handler : Handler
  pub sender : ℕ
  pub receiver : ℕ

abbrev pub link_parts : Option ℕ → Option ℕ → (World → ℕ → Handler → Cmd World Link)
link_parts none receiver w j h = λ _. undefined
link_parts (some sender) none w j h = λ _. undefined
link_parts (some sender) (some receiver) w j h =
    pure (record { query = j; handler = h; sender = sender; receiver = receiver })

unfoldable pub link : ℕ → Cmd World Link
link i w = if (w.if_query i).destroyed then undefined else elim (w.if_query i).linked_query [
  | none ↦ abort
  | some j ↦ elim (w.if_query j).handler [
    | none ↦ abort
    | some h ↦
        link_parts (w.if_query i).sending_component (w.if_query i).linked_handling_component w j h w
  ]
]

-- The direct call of `execute`.
unfoldable pub execute_directly :
    UserCode → Link → (msg : ℕ) → Callback → Option ℕ → (arguments : ℕ) → Cmd World (Unit {0})
execute_directly u l msg callback lifetime arguments = do
  modify (λ w.
      notify (w.component l.receiver).listener (λ o. on_invoke o l.sender l.receiver msg request) w)
  run_async u l.handler arguments (new_result none lifetime l.sender l.receiver msg callback)

-- The call through the queue of the executor.
unfoldable pub execute_queued :
    Link → (executor msg : ℕ) → Callback → Option ℕ → (arguments : ℕ) → World → World
execute_queued l executor msg callback lifetime arguments w =
    let w1 =
      enqueue executor
        (Task.if_request l.query msg (record {
          arguments = arguments;
          callback = callback;
          receiver_executor = some (w.component l.sender).default_executor;
          lifetime = lifetime;
          receiver = l.sender;
          sender = l.receiver;
        }))
        w in
    notify (w1.component l.receiver).listener (λ o. on_enqueue o l.sender l.receiver msg request) w1

unfoldable pub execute : UserCode → ℕ → Callback → Option ℕ → (arguments : ℕ) → Cmd World (Unit {0})
execute u i callback lifetime arguments = link i >>= λ l w.
    if (w.if_query i).direct
    then execute_directly u l (w.if_query i).name callback lifetime arguments w
    else elim (w.if_query i).linked_executor [
      | none ↦ undefined
      | some x ↦ ok tt (execute_queued l x (w.if_query i).name callback lifetime arguments w)
    ]

-- `operator()`: what its coroutine runs once it has the promise.
unfoldable pub run_coroutine : UserCode → ℕ → ℕ → ℕ → Cmd World (Unit {0})
run_coroutine u i arguments p w =
    execute u i (promise p) (w.if_query i).sending_lifetime arguments w

-- The task that `execute` enqueues: it calls the handler that the query has by then.
unfoldable pub run_if_request : UserCode → ℕ → ℕ → RequestData → Cmd World (Unit {0})
run_if_request u j msg d w = elim (w.if_query j).handler [
  | none ↦ abort
  | some h ↦
      run_async u h d.arguments
        (new_result d.receiver_executor d.lifetime d.receiver d.sender msg d.callback) w
]

-- The two branches of a synchronous call. `use_result` is what is done with the answer under the
-- lock: nothing but returning it, except in `call_locking`.
unfoldable pub call_direct :
    UserCode → Option ℕ → Link → (msg arguments : ℕ) → (ℕ → Cmd World ℕ) → Cmd World ℕ
call_direct u listener l msg arguments use_result = do
  invoked listener l.sender l.receiver msg request
  answer ← run_sync u l.handler arguments
  result ← use_result answer
  invoked listener l.receiver l.sender msg response
  pure result

unfoldable pub call_under_lock :
    UserCode → Option ℕ → Link → (msg arguments : ℕ) → (ℕ → Cmd World ℕ) → Cmd World ℕ
call_under_lock u listener l msg arguments use_result = do
  invoked listener l.sender l.receiver msg locked_request
  modify (lock_component l.receiver)
  answer ← run_sync u l.handler arguments
  result ← use_result answer
  unlock_component l.receiver
  invoked listener l.receiver l.sender msg locked_response
  pure result

-- `call_locking`, which compiles only for queries that return a value.
unfoldable pub call_locking : UserCode → ℕ → ℕ → (ℕ → Cmd World ℕ) → Cmd World ℕ
call_locking u i arguments use_result = link i >>= λ l w.
    (let listener = (w.component l.receiver).listener in
      if (w.if_query i).direct
      then call_direct u listener l (w.if_query i).name arguments use_result w
      else call_under_lock u listener l (w.if_query i).name arguments use_result w)

-- `operator()` of a synchronous query.
unfoldable pub call_sync : UserCode → ℕ → ℕ → Cmd World ℕ
call_sync u i arguments = call_locking u i arguments pure

-- `call_same_thread`, which compiles only for queries that return `void`: what the handler returns is
-- not used. The response is sent by the destructor of `invoker`.
unfoldable pub call_same_thread : UserCode → ℕ → ℕ → Cmd World (Unit {0})
call_same_thread u i arguments = link i >>= λ l w.
    (let listener = (w.component l.receiver).listener in
      if (w.if_query i).direct
      then (do
        invoked listener l.sender l.receiver (w.if_query i).name request
        answer ← run_sync u l.handler arguments
        invoked listener l.receiver l.sender (w.if_query i).name response)
          w
      else abort)
